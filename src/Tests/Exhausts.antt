-- ===== src/Tests/Exhausts.antt =====
-- A run of the service from the first page of a task, with one new link, to its end.
use mathlib.Core.List.{Memᴰ}
use tarantula.PageLoader.Service.{
  prepare_load_command, is_followed, dedup_links, add_links_to_known_list, push_new, know_page,
  loads_of, LoadPage, create_page_crawl_command,
}
use tarantula.LinkResult.UriService.{
  protocol_internal, normalize_url, prefix_uri_with_forward_slash, create_uri_string, squeeze,
  clean_slashes, pre_clean_uri, form_full_url,
}
use tarantula.Base.{
  ends_with, trim, ◌∷◌, text_eq, ℕ, ◌≡◌, refl, done, [], some, false, arith, codes,
}
use tarantula.DomParser.{text_leb, get_links}
use tarantula.LinkResult.LinkTypeChecker.{get_uri_protocol, pattern_text, is_match, get_uri_scope}
use tarantula.PageLoader.PageRequest.{get_host, get_protocol}
use tarantula.PageLoader.FetchHeader.{or_empty, fetch_header}
use tarantula.Responses.HeadResponse.{get_final_uri}
use tarantula.PageLoader.PageDownload.{download_page}
use tarantula.PageLoader.HttpUtils.{map_status_code, response_headers_to_map}
use tarantula.PageLoader.PageCrawl.{
  should_download_page, perform_crawl_internal, push_tasked_link, verify_crawlability, crawlable,
}
use tarantula.Responses.PageResponse.{PageResponse}
use tarantula.PageLoader.TaskContext.{
  unregister_crawl_command, TaskContext, register_crawl_command, set_last_command_received,
}
use tarantula.PageLoader.Service.Process.{
  Stage, spawned, registered, known, sending, reported, Crawl, Process, Takes, loading, verified,
  tasked, crawled, put, HasRoom, init_with_factory, buffer_size_of, enqueue,
}
use tarantula.PageLoader.Service.Process.Steps.{
  Step, Reachable, Runs, receives, sends, reports, ends, registers, knows, lists, rests, steps,
  advances, touches, verifies, tasks, fetches,
}
use tarantula.Tests.Sample.{
  nodes_of, answer, after_prefix, matches_literal, sample_crates, sample_client,
}
use tarantula.PageLoader.Service.Process.Bounded.{IsLimited}
use tarantula.Tests.Processes.{
  made, first_crawl, running-Reachable, added-Reachable, started-Reachable,
}
use tarantula.PageLoader.Service.Process.Covered.{IsCalm}
use tarantula.PageLoader.Service.Process.Exhaustive.{IsIdle, IsReported, Reachable-IsReported}
use tarantula.PageLoader.Service.Process.Announced.{IsHeard}
use tarantula.Responses.PageResponse
use tarantula.PageLoader.RobotsService
use tarantula.PageLoader.TaskContext
use tarantula.PageLoader.HttpUtils
use tarantula.Base.Io

-- The context when the crawl has pushed its URL.
abbrev pushed : TaskContext sample_crates
pushed =
    push_tasked_link sample_crates
      (set_last_command_received sample_crates (register_crawl_command sample_crates made.0 1) 1)
      first_crawl.command.url

first_page :
    (page : PageResponse) × (w : ℕ) × (perform_crawl_internal sample_crates sample_client pushed
        first_crawl.command pushed.task_config.robots_txt_info_url pushed.uuid 0
      ≡ done (page, w))
unfolding perform_crawl_internal made Io.◌>>=◌ Io.action fetch_header Io.lift answer
    response_headers_to_map push_tasked_link set_last_command_received register_crawl_command
    Io.pure should_download_page map_status_code HttpUtils.lookup text_eq download_page
    get_final_uri or_empty get_protocol get_host get_links nodes_of get_uri_scope is_match
    matches_literal after_prefix pattern_text get_uri_protocol
first_page = (_, _, refl)

infixl 5 ◌>>◌
abbrev ◌>>◌ :
    {s t u : Process sample_crates}
    → Runs sample_crates sample_client IsLimited s t
    → Step sample_crates sample_client t u
    → Runs sample_crates sample_client IsLimited s u
◌>>◌ {s} {t} {u} r e = steps t u r e

-- The first crawl at a stage.
abbrev crawl_at : Stage → Crawl
crawl_at stage = record first_crawl { stage = stage }

visited :
    (s : Process sample_crates) × Reachable sample_crates sample_client IsLimited 4 s
    × Takes (crawl_at (crawled (some first_page.0))) s.crawls []
    × (s.contexts 0 ≡ some pushed)
unfolding made put verify_crawlability set_last_command_received register_crawl_command
    TaskContext.can_access RobotsService.can_access RobotsService.new text_eq
visited = (
  _,
  running-Reachable sample_client
      >> advances (crawl_at registered) [] _ _ _ (Takes.here []) refl (touches 1)
      >> advances (crawl_at loading) [] _ _ _ (Takes.here []) refl verifies
      >> advances (crawl_at (verified crawlable)) [] _ _ _ (Takes.here []) refl tasks
      >> advances (crawl_at tasked) [] _ _ _ (Takes.here []) refl
          (fetches 0 first_page.1 first_page.0 first_page.2),
  Takes.here [],
  refl,
)

abbrev new_load : LoadPage
new_load = record { url = codes "https://example.com/a"; raw_url = codes "/a"; current_depth = 1 }

abbrev next_at : Stage → Crawl
next_at stage = record {
  address = 0;
  command = create_page_crawl_command new_load 2;
  stage = stage;
}

finished : (t : Process sample_crates) × Runs sample_crates sample_client IsLimited visited.0 t
unfolding visited first_page loads_of know_page text_leb trim form_full_url pre_clean_uri
    clean_slashes squeeze ends_with create_uri_string prefix_uri_with_forward_slash normalize_url
    protocol_internal PageResponse.new HasRoom init_with_factory buffer_size_of enqueue put
    verify_crawlability set_last_command_received register_crawl_command TaskContext.can_access
    RobotsService.can_access RobotsService.new text_eq unregister_crawl_command
    add_links_to_known_list push_new made push_tasked_link
finished = (
  _,
  rests
      >> advances (crawl_at (crawled (some first_page.0))) [] pushed _ _ (Takes.here []) refl
          (knows first_page.0)
      >> advances (crawl_at (known first_page.0)) [] _ _ _ (Takes.here []) refl
          (lists first_page.0 (new_load ∷ []) refl)
      >> sends (crawl_at (sending (new_load ∷ []) first_page.0)) [] new_load [] first_page.0
          (Takes.here []) refl (λ e. cc) (omega arith)
      >> reports (crawl_at (sending [] first_page.0)) [] first_page.0 false (Takes.here []) refl
      >> ends (crawl_at reported) [] _ (Takes.here []) refl refl
      >> receives 0 new_load [] refl refl
      >> advances (next_at spawned) [] _ _ _ (Takes.here []) refl registers
      >> advances (next_at registered) [] _ _ _ (Takes.here []) refl (touches 2)
      >> advances (next_at loading) [] _ _ _ (Takes.here []) refl verifies
      >> advances (next_at (verified crawlable)) [] _ _ _ (Takes.here []) refl tasks
      >> advances (next_at tasked) [] _ _ _ (Takes.here []) refl (fetches 0 _ _ refl)
      >> advances (next_at (crawled (some _))) [] _ _ _ (Takes.here []) refl (knows _)
      >> advances (next_at (known _)) [] _ _ _ (Takes.here []) refl (lists _ [] refl)
      >> reports (next_at (sending [] _)) [] _ false (Takes.here []) refl
      >> ends (next_at reported) [] _ (Takes.here []) refl refl,
)

visited-IsCalm : IsCalm sample_crates sample_client visited.1
unfolding visited running-Reachable added-Reachable started-Reachable
visited-IsCalm = omega arith

visited-IsHeard : IsHeard sample_crates sample_client visited.1
unfolding visited running-Reachable added-Reachable started-Reachable
visited-IsHeard = omega arith

finished-IsCalm : IsCalm sample_crates sample_client finished.1
unfolding finished
finished-IsCalm = omega arith

finished-IsHeard : IsHeard sample_crates sample_client finished.1
unfolding finished
finished-IsHeard = search

finished-IsIdle : IsIdle sample_crates sample_client finished.0
unfolding finished
finished-IsIdle = record { loop = refl; channel = refl; crawls = refl }

Reachable-IsReported_example :
    (d : TaskContext sample_crates) × (finished.0.contexts 0 ≡ some d)
    × IsReported sample_crates sample_client d finished.0 (codes "https://example.com/a") 1
unfolding first_page dedup_links text_leb trim is_followed prepare_load_command form_full_url
    pre_clean_uri clean_slashes squeeze ends_with create_uri_string prefix_uri_with_forward_slash
    normalize_url protocol_internal
Reachable-IsReported_example =
    Reachable-IsReported sample_crates sample_client IsLimited 4 visited.0 finished.0
      (crawl_at (crawled (some first_page.0))) [] pushed first_page.0 _ _ new_load visited.1
      visited-IsCalm visited-IsHeard visited.2 visited.3 refl refl (Memᴰ.head refl) refl
      (omega arith) refl finished.1 finished-IsCalm finished-IsHeard finished-IsIdle
