-- ===== src/Tests/Leaks.antt =====
-- A spawned task whose download fails, in a panic, and a collection later.
use tarantula.PageLoader.PageDownload.{download_page}
use tarantula.PageLoader.HttpUtils.{map_status_code, response_headers_to_map}
use tarantula.PageLoader.PageCrawl.{
  should_download_page, perform_crawl_internal, verify_crawlability, crawlable, push_tasked_link,
}
use tarantula.Tests.Sample.{answer, sample_crates, sample_client}
use tarantula.PageLoader.FetchHeader.{fetch_header}
use tarantula.Base.{text_eq, ℕ, ◌≡◌, refl, [], ◌∷◌, some, codes, arith}
use tarantula.PageLoader.TaskContext.{
  TaskContext, register_crawl_command, set_last_command_received,
}
use tarantula.PageLoader.TaskManager.{lookup, insert}
use tarantula.PageLoader.HttpClient.{HttpClient, err}
use tarantula.PageLoader.Service.Process.{
  Process, Takes, loading, verified, tasked, init_with_factory, enqueue, put, collect,
  crawl_domain_command, buffer_size_of, HasRoom,
}
use tarantula.PageLoader.Service.Process.Steps.{
  Reachable, rests, steps, disturbs, advances, touches, verifies, tasks, Panics, fetch_panics,
  submits,
}
use tarantula.PageLoader.Service.Process.Bounded.{IsLimited}
use tarantula.PageLoader.Service.Process.Leaked.{Runs-leaked}
use tarantula.Tests.Callbacks.{config}
use tarantula.Tests.Processes.{made, running, first_crawl, config-IsLimited, running-Reachable}
use tarantula.PageLoader.HttpUtils
use tarantula.Base.Io
use tarantula.PageLoader.RobotsService
use tarantula.PageLoader.TaskContext

-- A client whose downloads fail.
abbrev failing_client : HttpClient ℕ
failing_client = record sample_client { get = λ uri info w. (err (codes "reset"), w) }

abbrev loading_context : TaskContext sample_crates
loading_context =
    set_last_command_received sample_crates (register_crawl_command sample_crates made.0 1) 0

abbrev tasked_context : TaskContext sample_crates
tasked_context = push_tasked_link sample_crates loading_context config.url

abbrev fetching : Process sample_crates
fetching = record running {
  contexts =
      put sample_crates
        (put sample_crates (put sample_crates running.contexts 0 loading_context) 0 loading_context)
        0 tasked_context;
  crawls = record first_crawl { stage = tasked } ∷ [];
}

loading-crawlable :
    verify_crawlability sample_crates loading_context first_crawl.command ≡ crawlable
unfolding made verify_crawlability set_last_command_received register_crawl_command
    TaskContext.can_access RobotsService.can_access RobotsService.new text_eq
loading-crawlable = refl

abbrev touched : Process sample_crates
touched = record running {
  contexts = put sample_crates running.contexts 0 loading_context;
  crawls = record first_crawl { stage = loading } ∷ [];
}

abbrev checked : Process sample_crates
checked = record touched {
  contexts = put sample_crates touched.contexts 0 loading_context;
  crawls = record first_crawl { stage = verified crawlable } ∷ [];
}

fetching-Reachable : Reachable sample_crates failing_client IsLimited 4 fetching
unfolding put made verify_crawlability set_last_command_received register_crawl_command
    TaskContext.can_access RobotsService.can_access RobotsService.new text_eq
fetching-Reachable =
    steps checked _
      (steps touched _
        (steps running _ (running-Reachable failing_client) (
          advances first_crawl [] (register_crawl_command sample_crates made.0 1) loading_context
            loading (Takes.here []) refl (touches 0)))
        (advances (record first_crawl { stage = loading }) [] loading_context loading_context
          (verified crawlable) (Takes.here []) refl verifies))
      (advances (record first_crawl { stage = verified crawlable }) [] loading_context
        tasked_context tasked (Takes.here []) refl tasks)

fetching-Panics : Panics sample_crates failing_client tasked_context first_crawl.command tasked
unfolding made perform_crawl_internal Io.◌>>=◌ Io.action fetch_header Io.lift answer
    response_headers_to_map push_tasked_link set_last_command_received register_crawl_command
    Io.pure should_download_page map_status_code HttpUtils.lookup text_eq download_page
fetching-Panics = fetch_panics 0 refl

-- The state after the panic, and after another request.
abbrev leaking : Process sample_crates
leaking = enqueue sample_crates (record fetching { crawls = [] }) (crawl_domain_command config 8)

Runs-leaked_example :
    lookup 7 (collect sample_crates (λ key. 900_000_000_000) leaking).tasks ≡ some 0
unfolding put lookup insert enqueue HasRoom init_with_factory buffer_size_of
Runs-leaked_example =
    Runs-leaked sample_crates failing_client IsLimited 4 fetching leaking
      (record first_crawl { stage = tasked }) [] tasked_context (λ key. 900_000_000_000) 7
      fetching-Reachable (Takes.here []) refl fetching-Panics
      (disturbs (record fetching { crawls = [] }) _ rests
        (submits config 8 config-IsLimited (λ e. cc) (ground arith)))
      refl
