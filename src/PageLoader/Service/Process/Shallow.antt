-- ===== src/PageLoader/Service/Process/Shallow.antt =====
-- How deep page_loader_service.rs goes in a task whose maximum depth is 0.
use tarantula.Base.{
  ℕ, ◌≤◌, ◌≡◌, ◌≢◌, [], ◌∷◌, List, Option, none, some, done, All, All-mono, arith, sym, ◌∙◌, ap,
}
use tarantula.Crates.{Crates}
use tarantula.Responses.Link.{Link}
use tarantula.Responses.RunConfig.{RunConfig}
use tarantula.PageLoader.HttpClient.{HttpClient}
use tarantula.PageLoader.TaskContext
use tarantula.PageLoader.TaskContext.{TaskContext}
use tarantula.PageLoader.PageCrawl.{PageCrawlCommand, max_depth_reached, verify_crawlability}
use tarantula.PageLoader.Service.{LoadPage, loads_of}
use tarantula.PageLoader.Service.Links.{prepare_load_command_lem}
use tarantula.PageLoader.Service.Allowed.{loads_of-IsAllowed}
use tarantula.PageLoader.Service.Process.{Process, Stage, verified, sending}
use tarantula.PageLoader.Service.Process.Steps.{
  Reachable, Advances, registers, touches, verifies, tasks, fetches, refuses, knows, skips, lists,
}
use tarantula.PageLoader.Service.Process.Invariant.{Claim, IsClosed, IsInvariant, IsSameTask}
use tarantula.PageLoader.Service.Process.Preserved.{Reachable-IsInvariant}
use tarantula.PageLoader.Service.Process.Bounded.{limit_in, init-IsMade}

abbrev pub IsUnlimited : RunConfig → Type 0
IsUnlimited run_config = limit_in run_config ≡ 0

-- No verdict of a crawl is on its depth, and all that it sends is at depth 1 at most.
abbrev pub IsPassed : Stage → Type 0
IsPassed (verified verdict) = verdict ≢ max_depth_reached
IsPassed (sending loads page) = All (λ (load : LoadPage). load.current_depth ≤ 1) loads
IsPassed _ = Unit

module _ (crates : Crates) where
  abbrev pub shallow_claim : Claim crates
  shallow_claim = record {
    Wanted = IsUnlimited;
    IsFine = λ c. c.task_config.maximum_depth ≡ 0;
    IsGood = λ c load. load.current_depth ≤ 1;
    IsAt = λ c command stage. (command.current_depth ≤ 1) × IsPassed stage;
  }

  abbrev pub IsShallow : Process crates → Type 0
  IsShallow s = IsInvariant crates shallow_claim s

  same_limit :
      (c d : TaskContext crates)
      → IsSameTask c d
      → c.task_config.maximum_depth ≡ 0
      → d.task_config.maximum_depth ≡ 0
  same_limit c d h e =
      sym (ap (λ (x : TaskContext.TaskConfig crates.Uri). x.maximum_depth) h.config) ∙ e

  module _ (c : TaskContext crates) (command : PageCrawlCommand)
      (unlimited : c.task_config.maximum_depth ≡ 0) where
    verify_crawlability-unlimited : verify_crawlability crates c command ≢ max_depth_reached
    unfolding verify_crawlability
    verify_crawlability-unlimited = ground (arith, unlimited)

    loads_of-IsPassed :
        (links : Option (List Link)) (loads : List LoadPage)
        → loads_of crates c command links ≡ done loads
        → All (λ (load : LoadPage). load.current_depth ≤ 1) loads
    unfolding loads_of
    loads_of-IsPassed none [] e = tt
    loads_of-IsPassed none (load ∷ loads) e = cc
    loads_of-IsPassed (some links) loads e =
        All-mono
          (λ load (of, bound). ground (
            arith,
            unlimited,
            bound,
            (prepare_load_command_lem crates c command of.link load of.prepared).1,
          ))
          loads (loads_of-IsAllowed crates c command links loads e)

module _ {W : Type 0} (crates : Crates) (client : HttpClient W) where
  Advances-IsPassed :
      (command : PageCrawlCommand) (c d : TaskContext crates) (stage stage' : Stage)
      → c.task_config.maximum_depth ≡ 0
      → Advances crates client c command stage d stage'
      → IsPassed stage'
  Advances-IsPassed command c _ _ _ unlimited registers = tt
  Advances-IsPassed command c _ _ _ unlimited (touches now) = tt
  Advances-IsPassed command c _ _ _ unlimited verifies =
      verify_crawlability-unlimited crates c command unlimited
  Advances-IsPassed command c _ _ _ unlimited tasks = tt
  Advances-IsPassed command c _ _ _ unlimited (fetches w w' page e) = tt
  Advances-IsPassed command c d _ _ unlimited (refuses verdict w w' _ page n e) = tt
  Advances-IsPassed command c _ _ _ unlimited (knows page) = tt
  Advances-IsPassed command c _ _ _ unlimited skips = tt
  Advances-IsPassed command c _ _ _ unlimited (lists page loads e) =
      loads_of-IsPassed crates c command unlimited page.links loads e

  shallow-IsClosed : IsClosed crates client (shallow_claim crates)
  shallow-IsClosed = record {
    fine_stable = same_limit crates;
    good_stable = λ c d load same h. h;
    at_stable = λ c d command stage same h. h;
    first = λ run_config uuid now c unlimited e.
        ((init-IsMade crates run_config uuid now c e).limit ∙ unlimited, omega arith);
    spawn = λ c load uuid h. (h, tt);
    advance = λ command c d stage stage' fine a h.
        (h.0, Advances-IsPassed command c d stage stage' fine a);
    send = λ c command load loads page h. (h.1.0, (h.0, h.1.1));
    report = λ c command page h. (h.0, tt);
  }

  -- If every crawl that is asked for has a maximum depth of 0, then in every state that the service
  -- comes to, no crawl has a verdict that refuses its URL for its depth, and yet everything that
  -- waits in the channel or at the loop, or is being crawled, or is still to be sent by a crawl, is
  -- at depth 0 or 1: a crawl without a limit stops after the links of its first page.
  pub Reachable-IsShallow :
      (cpus : ℕ) (s : Process crates)
      → Reachable crates client IsUnlimited cpus s
      → IsShallow crates s
  Reachable-IsShallow cpus s reached =
      Reachable-IsInvariant crates client (shallow_claim crates) shallow-IsClosed cpus s reached
