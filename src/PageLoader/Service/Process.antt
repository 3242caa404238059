-- ===== src/PageLoader/Service/Process.antt =====
-- page_loader/src/page_loader_service.rs: the service as it runs. `init_with_factory` makes a bounded
-- channel and spawns a loop that receives its commands; each `LoadPageCommand` is a spawned task of
-- its own, which sends commands back on the channel. The tasks' contexts are shared: a context has an
-- address here, which the commands and the task manager hold. Addresses and the uuids of commands
-- are drawn from one counter, since `Uuid::new_v4` does not repeat itself.
pub mod Steps
pub mod Picks
pub mod Stuck
pub mod Blocking
pub mod Poisoned
pub mod Refused
pub mod Registered
pub mod Ordered
pub mod Contexts
pub mod Kept
pub mod Tasks
pub mod Collected
pub mod Limits
pub mod Invariant
pub mod Replaced
pub mod Preserved
pub mod Bounded
pub mod Shallow
pub mod Weights
pub mod Halting
pub mod Progress
pub mod Final
pub mod Early
pub mod Leaked
pub mod Covered
pub mod Completed
pub mod Found
pub mod Refined
pub mod Settled
pub mod Owed
pub mod Pending
pub mod Unlost
pub mod Labelled
pub mod Reported
pub mod Announced
pub mod Heard
pub mod Exhaustive
use tarantula.Base.{
  ℕ, suc, ◌*◌, ◌/◌, ◌<◌, ◌≡◌, ◌≢◌, Bool, not, List, [], ◌∷◌, ◌++◌, Option, none, some, done, panic,
  if◌then◌else◌, leb, ◌==◌, length, retain,
}
use tarantula.Crates.{Crates}
use tarantula.Responses.PageResponse.{PageResponse}
use tarantula.Responses.RunConfig.{RunConfig}
use tarantula.PageLoader.HttpClient.{HttpClient}
use tarantula.PageLoader.CrawlerEvent.{CrawlerEvent, page_event}
use tarantula.PageLoader.PageCrawl.{
  Crawlability, crawlable, PageCrawlCommand, verify_crawlability, push_tasked_link, crawl_as,
  perform_crawl_internal,
}
use tarantula.PageLoader.TaskContext
use tarantula.PageLoader.TaskContext.{
  TaskContext, register_crawl_command, unregister_crawl_command, set_last_command_received,
}
use tarantula.PageLoader.TaskManager.{insert, has_key, to_gc, gc_events}
use tarantula.PageLoader.Service.{LoadPage, know_page, loads_of}

pub data PageLoaderServiceCommand : Type 0 where
  load_page_command : (address : ℕ) → LoadPage → PageLoaderServiceCommand
  crawl_domain_command : RunConfig → (task_context_uuid : ℕ) → PageLoaderServiceCommand

-- Where the spawned task of a `LoadPageCommand` stands, from the locked step that it made last.
pub data Stage : Type 0 where
  spawned : Stage
  registered : Stage
  loading : Stage
  verified : Crawlability → Stage
  tasked : Stage
  crawled : Option PageResponse → Stage
  known : PageResponse → Stage
  sending : List LoadPage → PageResponse → Stage
  reported : Stage

pub record Crawl : Type 0 where
  pub address : ℕ
  pub command : PageCrawlCommand
  pub stage : Stage

-- The loop waits for a command, or for room for the first command of a task, whose address and uuid
-- it keeps, or has ended in a panic.
pub data Loop : Type 0 where
  receiving : Loop
  sending_first : (address task_context_uuid : ℕ) → LoadPage → Loop
  stopped : Loop

pub record Process (crates : Crates) : Type 0 where
  pub buffer_size : ℕ
  pub channel : List PageLoaderServiceCommand
  pub loop : Loop
  pub crawls : List Crawl
  pub contexts : ℕ → Option (TaskContext crates)
  pub tasks : List (ℕ × ℕ)
  pub events : List CrawlerEvent
  pub fresh : ℕ

-- `max((num_cpus::get() / 2) * 10, 2)`.
unfoldable pub buffer_size_of : ℕ → ℕ
buffer_size_of cpus = let size = (cpus / 2) * 10 in if leb 2 size then size else 2

-- The timeout of the task manager that `PageLoaderService::new` makes.
abbrev pub service_gc_timeout_ms : ℕ
service_gc_timeout_ms = 60_000

-- One of the crawls, and the others.
pub data Takes (r : Crawl) : List Crawl → List Crawl → Type 0 where
  here : (rest : List Crawl) → Takes r (r ∷ rest) rest
  there : (x : Crawl) (xs rest : List Crawl) → Takes r xs rest → Takes r (x ∷ xs) (x ∷ rest)

module _ (crates : Crates) where
  -- `init_with_factory`, when the loop has started.
  unfoldable pub init_with_factory : ℕ → Process crates
  unfolding buffer_size_of
  init_with_factory cpus = record {
    buffer_size = buffer_size_of cpus;
    channel = [];
    loop = receiving;
    crawls = [];
    contexts = λ address. none;
    tasks = [];
    events = [];
    fresh = 0;
  }

  unfoldable pub put :
      (ℕ → Option (TaskContext crates)) → ℕ → TaskContext crates → ℕ → Option (TaskContext crates)
  put contexts address c other = if address == other then some c else contexts other

  unfoldable pub HasRoom : Process crates → Type 0
  HasRoom s = length s.channel < s.buffer_size

  unfoldable pub enqueue : Process crates → PageLoaderServiceCommand → Process crates
  enqueue s command = record s { channel = s.channel ++ command ∷ [] }

  abbrev pub attach :
      ℕ
      → Option (TaskContext crates)
      → List (ℕ × TaskContext crates)
      → List (ℕ × TaskContext crates)
  attach key none tasks = tasks
  attach key (some c) tasks = (key, c) ∷ tasks

  -- The task manager's map, with the contexts as they are now.
  unfoldable pub tasks_of :
      (ℕ → Option (TaskContext crates)) → List (ℕ × ℕ) → List (ℕ × TaskContext crates)
  tasks_of contexts [] = []
  tasks_of contexts ((key, address) ∷ tasks) =
      attach key (contexts address) (tasks_of contexts tasks)

  -- One round of the task manager's thread, after its sleep, as one atomic step. The code takes the
  -- lock of each context in turn and drops the tasks at the end, so that a command may register in
  -- between.
  unfoldable pub collect : (ℕ → ℕ) → Process crates → Process crates
  unfolding tasks_of
  collect clock s =
      let tasks = tasks_of s.contexts s.tasks in
      record s {
        tasks =
            retain (λ e. not (has_key e.0 (to_gc crates clock service_gc_timeout_ms tasks)))
              s.tasks;
        events = s.events ++ gc_events crates clock service_gc_timeout_ms tasks;
      }
