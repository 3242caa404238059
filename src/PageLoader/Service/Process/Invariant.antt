-- ===== src/PageLoader/Service/Process/Invariant.antt =====
-- Invariants of page_loader_service.rs by task: what is true of every command for a task that is
-- queued, and of every crawl at its stage, if each step of one command keeps it.
use tarantula.Base.{ℕ, ◌≡◌, refl, sym, subst, List, [], ◌∷◌, some, done, All}
use tarantula.Crates.{Crates}
use tarantula.Responses.PageResponse.{PageResponse}
use tarantula.Responses.RunConfig.{RunConfig}
use tarantula.PageLoader.HttpClient.{HttpClient}
use tarantula.PageLoader.TaskContext
use tarantula.PageLoader.TaskContext.{
  TaskContext, register_crawl_command, set_last_command_received, unregister_crawl_command,
}
use tarantula.PageLoader.PageCrawl.{PageCrawlCommand, push_tasked_link}
use tarantula.PageLoader.Service.{LoadPage, create_page_crawl_command, know_page}
use tarantula.PageLoader.Service.Process.{
  Process, Crawl, Stage, spawned, sending, reported, PageLoaderServiceCommand, load_page_command,
  crawl_domain_command, Loop, sending_first,
}
use tarantula.PageLoader.Service.Process.Steps.{
  Advances, registers, touches, verifies, tasks, fetches, refuses, knows, skips, lists,
}
use tarantula.PageLoader.Service.Process.Refused.{crawl_as-refused}
use tarantula.PageLoader.Service.Process.Contexts.{Contexts}
use tarantula.PageLoader.Service.Process.Kept.{IsKept}

-- What no step changes of a task's context.
pub record IsSameTask {crates : Crates} (c d : TaskContext crates) : Type 0 where
  pub config : c.task_config ≡ d.task_config
  pub checker : c.link_type_checker ≡ d.link_type_checker
  pub key : c.uuid ≡ d.uuid

pub IsSameTask-refl : {crates : Crates} (c : TaskContext crates) → IsSameTask c c
IsSameTask-refl c = record { config = refl; checker = refl; key = refl }

module _ {W : Type 0} (crates : Crates) (client : HttpClient W) where
  pub Advances-IsSameTask :
      (command : PageCrawlCommand) (c d : TaskContext crates) (stage stage' : Stage)
      → Advances crates client c command stage d stage'
      → IsSameTask c d
  unfolding register_crawl_command set_last_command_received push_tasked_link know_page
  Advances-IsSameTask command c _ _ _ registers = record {
    config = refl;
    checker = refl;
    key = refl;
  }
  Advances-IsSameTask command c _ _ _ (touches now) = record {
    config = refl;
    checker = refl;
    key = refl;
  }
  Advances-IsSameTask command c _ _ _ verifies = IsSameTask-refl c
  Advances-IsSameTask command c _ _ _ tasks = record { config = refl; checker = refl; key = refl }
  Advances-IsSameTask command c _ _ _ (fetches w w' page e) = IsSameTask-refl c
  Advances-IsSameTask command c d _ _ (refuses verdict w w' _ page n e) =
      subst (IsSameTask c)
        (sym
          (crawl_as-refused crates client c command c.task_config.robots_txt_info_url verdict c.uuid
            w w' d page n e).0)
        (IsSameTask-refl c)
  Advances-IsSameTask command c _ _ _ (knows page) = record {
    config = refl;
    checker = refl;
    key = refl;
  }
  Advances-IsSameTask command c _ _ _ skips = IsSameTask-refl c
  Advances-IsSameTask command c _ _ _ (lists page loads e) = IsSameTask-refl c

-- What is claimed of the context of a task, of a command that is queued for it, and of a crawl.
pub record Claim (crates : Crates) : Type 1 where
  pub Wanted : RunConfig → Type 0
  pub IsFine : TaskContext crates → Type 0
  pub IsGood : TaskContext crates → LoadPage → Type 0
  pub IsAt : TaskContext crates → PageCrawlCommand → Stage → Type 0

abbrev pub first_of : RunConfig → LoadPage
first_of run_config = record { url = run_config.url; raw_url = run_config.url; current_depth = 0 }

-- Each step of one command keeps the claim.
pub record IsClosed {W : Type 0} (crates : Crates) (client : HttpClient W) (k : Claim crates)
    : Type 0 where
  pub fine_stable : (c d : TaskContext crates) → IsSameTask c d → k.IsFine c → k.IsFine d
  pub good_stable :
      (c d : TaskContext crates) (load : LoadPage)
      → IsSameTask c d
      → k.IsGood c load
      → k.IsGood d load
  pub at_stable :
      (c d : TaskContext crates) (command : PageCrawlCommand) (stage : Stage)
      → IsSameTask c d
      → k.IsAt c command stage
      → k.IsAt d command stage
  pub first :
      (run_config : RunConfig) (uuid now : ℕ) (c : TaskContext crates)
      → k.Wanted run_config
      → TaskContext.init crates run_config uuid now ≡ done c
      → k.IsFine c × k.IsGood c (first_of run_config)
  pub spawn :
      (c : TaskContext crates) (load : LoadPage) (uuid : ℕ)
      → k.IsGood c load
      → k.IsAt c (create_page_crawl_command load uuid) spawned
  pub advance :
      (command : PageCrawlCommand) (c d : TaskContext crates) (stage stage' : Stage)
      → k.IsFine c
      → Advances crates client c command stage d stage'
      → k.IsAt c command stage
      → k.IsAt d command stage'
  pub send :
      (c : TaskContext crates) (command : PageCrawlCommand) (load : LoadPage)
      (loads : List LoadPage) (page : PageResponse)
      → k.IsAt c command (sending (load ∷ loads) page)
      → k.IsGood c load × k.IsAt c command (sending loads page)
  pub report :
      (c : TaskContext crates) (command : PageCrawlCommand) (page : PageResponse)
      → k.IsAt c command (sending [] page)
      → k.IsAt c command reported

module _ (crates : Crates) (k : Claim crates) where
  pub record IsGoodAt (contexts : Contexts crates) (address : ℕ) (load : LoadPage) : Type 0 where
    pub context : TaskContext crates
    pub found : contexts address ≡ some context
    pub good : k.IsGood context load

  pub record IsSoundCrawl (contexts : Contexts crates) (r : Crawl) : Type 0 where
    pub context : TaskContext crates
    pub found : contexts r.address ≡ some context
    pub sound : k.IsAt context r.command r.stage

  abbrev pub IsSoundCommand : Contexts crates → PageLoaderServiceCommand → Type 0
  IsSoundCommand contexts (load_page_command address load) = IsGoodAt contexts address load
  IsSoundCommand contexts (crawl_domain_command run_config uuid) = k.Wanted run_config

  abbrev pub IsSoundLoop : Contexts crates → Loop → Type 0
  IsSoundLoop contexts (sending_first address uuid load) = IsGoodAt contexts address load
  IsSoundLoop contexts _ = Unit

  -- The claim holds of everything that is queued or runs.
  pub record IsInvariant (s : Process crates) : Type 0 where
    pub kept : IsKept crates s
    pub crawls : All (IsSoundCrawl s.contexts) s.crawls
    pub queued : All (IsSoundCommand s.contexts) s.channel
    pub first : IsSoundLoop s.contexts s.loop
    pub fine : (address : ℕ) (c : TaskContext crates) → s.contexts address ≡ some c → k.IsFine c
