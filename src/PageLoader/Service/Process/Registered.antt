-- ===== src/PageLoader/Service/Process/Registered.antt =====
-- The registered commands of a task while page_loader_service.rs runs its crawls.
use tarantula.Base.{ℕ, ◌≡◌, refl, sym, subst, Bool, true, false, List, [], ◌∷◌, ◌++◌, arith}
use tarantula.Crates.{Crates}
use tarantula.PageLoader.HttpClient.{HttpClient}
use tarantula.PageLoader.TaskContext.{
  TaskContext, register_crawl_command, set_last_command_received,
}
use tarantula.PageLoader.TaskContext.Registrar.{is_registered, any-append}
use tarantula.PageLoader.PageCrawl.{PageCrawlCommand, push_tasked_link}
use tarantula.PageLoader.Service.{know_page}
use tarantula.PageLoader.Service.Process.{Stage, spawned}
use tarantula.PageLoader.Service.Process.Steps.{
  Advances, registers, touches, verifies, tasks, fetches, refuses, knows, skips, lists,
}
use tarantula.PageLoader.Service.Process.Refused.{crawl_as-refused}

-- Whether a spawned task has registered its command.
abbrev pub is_begun : Stage → Bool
is_begun spawned = false
is_begun _ = true

is_registered-append : (uuid : ℕ) (xs : List ℕ) → is_registered uuid (xs ++ uuid ∷ []) ≡ true
is_registered-append uuid [] = ground arith
is_registered-append uuid (x ∷ xs) = ground (arith, is_registered-append uuid xs)

module _ {W : Type 0} (crates : Crates) (client : HttpClient W) where
  pub Advances-registered :
      (command : PageCrawlCommand) (c d : TaskContext crates) (stage stage' : Stage) (uuid : ℕ)
      → Advances crates client c command stage d stage'
      → is_registered uuid c.crawl_commands ≡ true
      → is_registered uuid d.crawl_commands ≡ true
  unfolding register_crawl_command set_last_command_received push_tasked_link know_page
  Advances-registered command c _ _ _ uuid registers h =
      any-append uuid c.crawl_commands command.uuid h
  Advances-registered command c _ _ _ uuid (touches now) h = h
  Advances-registered command c _ _ _ uuid verifies h = h
  Advances-registered command c _ _ _ uuid tasks h = h
  Advances-registered command c _ _ _ uuid (fetches w w' page e) h = h
  Advances-registered command c d _ _ uuid (refuses verdict w w' _ page n e) h =
      subst (λ (x : TaskContext crates). is_registered uuid x.crawl_commands ≡ true)
        (sym
          (crawl_as-refused crates client c command c.task_config.robots_txt_info_url verdict c.uuid
            w w' d page n e).0)
        h
  Advances-registered command c _ _ _ uuid (knows page) h = h
  Advances-registered command c _ _ _ uuid skips h = h
  Advances-registered command c _ _ _ uuid (lists page loads e) h = h

  pub Advances-begun :
      (command : PageCrawlCommand) (c d : TaskContext crates) (stage stage' : Stage)
      → Advances crates client c command stage d stage'
      → (is_begun stage ≡ true → is_registered command.uuid c.crawl_commands ≡ true)
      → is_registered command.uuid d.crawl_commands ≡ true
  unfolding register_crawl_command
  Advances-begun command c _ _ _ registers h = is_registered-append command.uuid c.crawl_commands
  Advances-begun command c d _ _ (touches now) h =
      Advances-registered command c d _ _ command.uuid (touches now) (h refl)
  Advances-begun command c d _ _ verifies h = h refl
  Advances-begun command c d _ _ tasks h =
      Advances-registered command c d _ _ command.uuid tasks (h refl)
  Advances-begun command c d _ _ (fetches w w' page e) h = h refl
  Advances-begun command c d _ _ (refuses verdict w w' _ page n e) h =
      Advances-registered command c d _ _ command.uuid (refuses verdict w w' d page n e) (h refl)
  Advances-begun command c d _ _ (knows page) h =
      Advances-registered command c d _ _ command.uuid (knows page) (h refl)
  Advances-begun command c d _ _ skips h = h refl
  Advances-begun command c d _ _ (lists page loads e) h = h refl
