-- ===== src/PageLoader/Service/Process/Steps.antt =====
-- The steps of page_loader_service.rs: those of the spawned tasks and of the loop that receives, in
-- any order, and those of the service's surroundings.
use tarantula.Base.{
  ℕ, suc, ◌≡◌, ◌≢◌, Bool, List, [], ◌∷◌, ◌++◌, Option, none, some, done, panic, if◌then◌else◌,
}
use tarantula.Crates.{Crates}
use tarantula.Responses.PageResponse.{PageResponse}
use tarantula.Responses.RunConfig.{RunConfig}
use tarantula.PageLoader.HttpClient.{HttpClient}
use tarantula.PageLoader.CrawlerEvent.{page_event}
use tarantula.PageLoader.PageCrawl.{
  Crawlability, crawlable, PageCrawlCommand, verify_crawlability, push_tasked_link, crawl_as,
  perform_crawl_internal,
}
use tarantula.PageLoader.TaskContext
use tarantula.PageLoader.TaskContext.{
  TaskContext, register_crawl_command, unregister_crawl_command, set_last_command_received,
}
use tarantula.PageLoader.TaskManager.{insert}
use tarantula.PageLoader.Service.{LoadPage, create_page_crawl_command, know_page, loads_of}
use tarantula.PageLoader.Service.Process.{
  Stage, spawned, registered, loading, verified, tasked, crawled, known, sending, reported, Crawl,
  receiving, sending_first, stopped, Process, PageLoaderServiceCommand, load_page_command,
  crawl_domain_command, Takes, put, HasRoom, enqueue, collect, init_with_factory,
}

module _ {W : Type 0} (crates : Crates) (client : HttpClient W) where
  -- The steps of one command, from `handle_load_page_command` to the list of commands to send. Each
  -- is one hold of the lock on its task's context, or the requests, whose world may be any, or the
  -- list, for which the code reads the context several times.
  pub data Advances (c : TaskContext crates) (command : PageCrawlCommand)
      : Stage → TaskContext crates → Stage → Type 0 where
    registers : Advances c command spawned (register_crawl_command crates c command.uuid) registered
    touches :
        (now : ℕ) → Advances c command registered (set_last_command_received crates c now) loading
    verifies : Advances c command loading c (verified (verify_crawlability crates c command))
    tasks : Advances c command (verified crawlable) (push_tasked_link crates c command.url) tasked
    fetches :
        (w w' : W) (page : PageResponse)
        → perform_crawl_internal crates client c command c.task_config.robots_txt_info_url c.uuid w
          ≡ done (page, w')
        → Advances c command tasked c (crawled (some page))
    refuses :
        (verdict : Crawlability) (w w' : W) (d : TaskContext crates) (page : Option PageResponse)
        → verdict ≢ crawlable
        → crawl_as crates client c command c.task_config.robots_txt_info_url verdict c.uuid w
          ≡ done ((d, page), w')
        → Advances c command (verified verdict) d (crawled page)
    knows :
        (page : PageResponse)
        → Advances c command (crawled (some page)) (know_page crates c page) (known page)
    skips : Advances c command (crawled none) c reported
    lists :
        (page : PageResponse) (loads : List LoadPage)
        → loads_of crates c command page.links ≡ done loads
        → Advances c command (known page) c (sending loads page)

  -- A panic, which ends the spawned task before it is unregistered. The commands of a page are
  -- computed before the first of them is sent. The code prepares and sends them link by link, so
  -- that those before a link that panics are sent.
  pub data Panics (c : TaskContext crates) (command : PageCrawlCommand) : Stage → Type 0 where
    fetch_panics :
        (w : W)
        → perform_crawl_internal crates client c command c.task_config.robots_txt_info_url c.uuid w
          ≡ panic
        → Panics c command tasked
    list_panics :
        (page : PageResponse)
        → loads_of crates c command page.links ≡ panic
        → Panics c command (known page)

  -- A step of the loop or of one of the spawned tasks, in any order.
  pub data Step (s : Process crates) : Process crates → Type 0 where
    receives :
        (address : ℕ) (load : LoadPage) (channel : List PageLoaderServiceCommand)
        → s.loop ≡ receiving
        → s.channel ≡ load_page_command address load ∷ channel
        → Step s (record s {
          channel = channel;
          crawls =
              record {
                address = address;
                command = create_page_crawl_command load s.fresh;
                stage = spawned;
              }
              ∷ s.crawls;
          fresh = suc s.fresh;
        })
    -- `handle_crawl_domain_command` up to its `send`, which waits for room.
    starts :
        (run_config : RunConfig) (uuid now : ℕ) (channel : List PageLoaderServiceCommand)
        (c : TaskContext crates)
        → s.loop ≡ receiving
        → s.channel ≡ crawl_domain_command run_config uuid ∷ channel
        → TaskContext.init crates run_config uuid now ≡ done c
        → Step s (record s {
          channel = channel;
          loop =
              sending_first s.fresh uuid
                (record { url = run_config.url; raw_url = run_config.url; current_depth = 0 });
          contexts = put crates s.contexts s.fresh c;
          fresh = suc s.fresh;
        })
    -- A panic of `DefaultTaskContext::init` is one of the loop.
    stops :
        (run_config : RunConfig) (uuid now : ℕ) (channel : List PageLoaderServiceCommand)
        → s.loop ≡ receiving
        → s.channel ≡ crawl_domain_command run_config uuid ∷ channel
        → TaskContext.init crates run_config uuid now ≡ panic
        → Step s (record s { channel = channel; loop = stopped })
    -- The end of `handle_crawl_domain_command`: the command is sent and the task is added.
    adds :
        (address uuid : ℕ) (load : LoadPage)
        → s.loop ≡ sending_first address uuid load
        → HasRoom crates s
        → Step s (record (enqueue crates s (load_page_command address load)) {
          loop = receiving;
          tasks = insert uuid address s.tasks;
        })
    advances :
        (r : Crawl) (rest : List Crawl) (c d : TaskContext crates) (stage : Stage)
        → Takes r s.crawls rest
        → s.contexts r.address ≡ some c
        → Advances c r.command r.stage d stage
        → Step s (record s {
          contexts = put crates s.contexts r.address d;
          crawls = record r { stage = stage } ∷ rest;
        })
    sends :
        (r : Crawl) (rest : List Crawl) (load : LoadPage) (loads : List LoadPage)
        (page : PageResponse)
        → Takes r s.crawls rest
        → r.stage ≡ sending (load ∷ loads) page
        → s.loop ≢ stopped
        → HasRoom crates s
        → Step s (record (enqueue crates s (load_page_command r.address load)) {
          crawls = record r { stage = sending loads page } ∷ rest;
        })
    -- The page's event, which is lost with a warning if its receiver has gone.
    reports :
        (r : Crawl) (rest : List Crawl) (page : PageResponse) (is_lost : Bool)
        → Takes r s.crawls rest
        → r.stage ≡ sending [] page
        → Step s (record s {
          crawls = record r { stage = reported } ∷ rest;
          events = if is_lost then s.events else s.events ++ page_event page ∷ [];
        })
    ends :
        (r : Crawl) (rest : List Crawl) (c : TaskContext crates)
        → Takes r s.crawls rest
        → s.contexts r.address ≡ some c
        → r.stage ≡ reported
        → Step s (record s {
          contexts =
              put crates s.contexts r.address (unregister_crawl_command crates c r.command.uuid);
          crawls = rest;
        })
    -- The receiver has gone with the loop, so that `send` is an error, which is unwrapped.
    fails :
        (r : Crawl) (rest : List Crawl) (load : LoadPage) (loads : List LoadPage)
        (page : PageResponse)
        → Takes r s.crawls rest
        → r.stage ≡ sending (load ∷ loads) page
        → s.loop ≡ stopped
        → Step s (record s { crawls = rest })
    dies :
        (r : Crawl) (rest : List Crawl) (c : TaskContext crates)
        → Takes r s.crawls rest
        → s.contexts r.address ≡ some c
        → Panics c r.command r.stage
        → Step s (record s { crawls = rest })

  -- What others do to the service: its clients send `CrawlDomainCommand`s, here only of
  -- configurations that are allowed, and the manager's thread collects.
  pub data Disturbs (Allowed : RunConfig → Type 0) (s : Process crates)
      : Process crates → Type 0 where
    submits :
        (run_config : RunConfig) (uuid : ℕ)
        → Allowed run_config
        → s.loop ≢ stopped
        → HasRoom crates s
        → Disturbs Allowed s (enqueue crates s (crawl_domain_command run_config uuid))
    collects : (clock : ℕ → ℕ) → Disturbs Allowed s (collect crates clock s)

  -- A run of the service, from a state to one that it comes to.
  pub data Runs (Allowed : RunConfig → Type 0) (s : Process crates) : Process crates → Type 0 where
    rests : Runs Allowed s s
    steps : (t u : Process crates) → Runs Allowed s t → Step t u → Runs Allowed s u
    disturbs : (t u : Process crates) → Runs Allowed s t → Disturbs Allowed t u → Runs Allowed s u

  -- The states that the service comes to on a machine with that many processors.
  abbrev pub Reachable : (RunConfig → Type 0) → ℕ → Process crates → Type 0
  Reachable Allowed cpus s = Runs Allowed (init_with_factory crates cpus) s
