-- ===== src/PageLoader/Service/Process/Limits.antt =====
-- The depth of one command of page_loader_service.rs, and of those that it sends.
use tarantula.Base.{
  ℕ, suc, ◌≤◌, ◌<◌, ◌≡◌, ◌⊎◌, refl, inl, inr, List, [], ◌∷◌, Option, none, some, done, All,
  All-mono, arith,
}
use tarantula.Crates.{Crates}
use tarantula.Responses.Link.{Link}
use tarantula.PageLoader.HttpClient.{HttpClient}
use tarantula.PageLoader.TaskContext.{TaskContext}
use tarantula.PageLoader.PageCrawl.{crawlable, PageCrawlCommand}
use tarantula.PageLoader.PageCrawl.Verdict.{verify_crawlability-eq-crawlable_iff}
use tarantula.PageLoader.Service.{LoadPage, loads_of}
use tarantula.PageLoader.Service.Links.{prepare_load_command_lem}
use tarantula.PageLoader.Service.Allowed.{loads_of-IsAllowed}
use tarantula.PageLoader.Service.Process.{Stage, verified, tasked, crawled, known, sending}
use tarantula.PageLoader.Service.Process.Steps.{
  Advances, registers, touches, verifies, tasks, fetches, refuses, knows, skips, lists,
}
use tarantula.PageLoader.Service.Process.Refused.{links_in, crawl_as-refused}

-- One level below, and within the limit.
abbrev pub IsBelow : ℕ → ℕ → LoadPage → Type 0
IsBelow limit depth load = (load.current_depth ≡ suc depth) × (load.current_depth ≤ limit)

-- Only a command above the limit goes on to send others.
abbrev pub IsInTime : ℕ → ℕ → Stage → Type 0
IsInTime limit depth (verified verdict) = verdict ≡ crawlable → depth < limit
IsInTime limit depth tasked = depth < limit
IsInTime limit depth (crawled page) = (depth < limit) ⊎ (links_in page ≡ none)
IsInTime limit depth (known page) = (depth < limit) ⊎ (page.links ≡ none)
IsInTime limit depth (sending loads page) = All (IsBelow limit depth) loads
IsInTime limit depth _ = Unit

module _ (crates : Crates) (c : TaskContext crates) (command : PageCrawlCommand) where
  abbrev pub limit_of : ℕ
  limit_of = c.task_config.maximum_depth

  loads_of-IsBelow :
      (links : Option (List Link)) (loads : List LoadPage)
      → limit_of < 65_536
      → (command.current_depth < limit_of) ⊎ (links ≡ none)
      → loads_of crates c command links ≡ done loads
      → All (IsBelow limit_of command.current_depth) loads
  unfolding loads_of
  loads_of-IsBelow none [] small h e = tt
  loads_of-IsBelow none (load ∷ loads) small h e = cc
  loads_of-IsBelow (some links) loads small (inr empty) e = cc
  loads_of-IsBelow (some links) loads small (inl lt) e =
      All-mono
        (λ load (of, bound). ground (
          arith,
          small,
          lt,
          (prepare_load_command_lem crates c command of.link load of.prepared).1,
        ))
        loads (loads_of-IsAllowed crates c command links loads e)

module _ {W : Type 0} (crates : Crates) (client : HttpClient W) where
  pub Advances-IsInTime :
      (command : PageCrawlCommand) (c d : TaskContext crates) (stage stage' : Stage)
      → 0 < c.task_config.maximum_depth
      → c.task_config.maximum_depth < 65_536
      → Advances crates client c command stage d stage'
      → IsInTime c.task_config.maximum_depth command.current_depth stage
      → IsInTime c.task_config.maximum_depth command.current_depth stage'
  Advances-IsInTime command c _ _ _ some_limit small registers h = tt
  Advances-IsInTime command c _ _ _ some_limit small (touches now) h = tt
  Advances-IsInTime command c _ _ _ some_limit small verifies h = λ free.
      ground (arith, some_limit, ((verify_crawlability-eq-crawlable_iff crates c command).0 free).0)
  Advances-IsInTime command c _ _ _ some_limit small tasks h = h refl
  Advances-IsInTime command c _ _ _ some_limit small (fetches w w' page e) h = inl h
  Advances-IsInTime command c d _ _ some_limit small (refuses verdict w w' _ page n e) h =
      inr
        (crawl_as-refused crates client c command c.task_config.robots_txt_info_url verdict c.uuid w
          w' d page n e).1
  Advances-IsInTime command c _ _ _ some_limit small (knows page) h = h
  Advances-IsInTime command c _ _ _ some_limit small skips h = tt
  Advances-IsInTime command c _ _ _ some_limit small (lists page loads e) h =
      loads_of-IsBelow crates c command page.links loads small h e
