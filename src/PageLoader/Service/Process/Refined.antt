-- ===== src/PageLoader/Service/Process/Refined.antt =====
-- page_loader_service.rs crawls what the crawler of Found finds, at the depth where it finds it.
use tarantula.Base.{refl, ℕ, ◌≡◌, subst, inl, List, some}
use tarantula.Crates.{Crates}
use tarantula.Responses.RunConfig.{RunConfig}
use tarantula.LinkResult.LinkTypeChecker.{LinkTypeChecker}
use tarantula.PageLoader.HttpClient.{HttpClient}
use tarantula.PageLoader.TaskContext.{TaskContext}
use tarantula.PageLoader.PageCrawl.{PageCrawlCommand}
use tarantula.PageLoader.Service.Process.{Crawl, Process, Stage, Takes}
use tarantula.PageLoader.Service.Process.Refused.{crawl_as-refused}
use tarantula.PageLoader.Service.Process.Steps.{
  Reachable, Advances, registers, touches, verifies, tasks, fetches, refuses, knows, skips, lists,
}
use tarantula.PageLoader.Service.Process.Picks.{All-Takes}
use tarantula.PageLoader.Service.Process.Invariant.{
  Claim, IsClosed, Advances-IsSameTask, IsSoundCrawl,
}
use tarantula.PageLoader.Service.Process.Preserved.{Reachable-IsInvariant}
use tarantula.PageLoader.Service.Process.Found.{
  Found, IsFoundLoad, IsSourced, loads_of-Found, refused-IsSourced,
}

module _ {W : Type 0} (crates : Crates) (client : HttpClient W) (Asked : RunConfig → Type 0) where
  abbrev pub IsFoundAt : LinkTypeChecker crates.Regex → PageCrawlCommand → Stage → Type 0
  IsFoundAt checker command stage =
      Found crates client Asked checker command.url command.current_depth
      × IsSourced crates client Asked checker command stage

  abbrev pub found_claim : Claim crates
  found_claim = record {
    Wanted = Asked;
    IsFine = λ c. Unit;
    IsGood = λ c load. IsFoundLoad crates client Asked c.link_type_checker load;
    IsAt = λ c command stage. IsFoundAt c.link_type_checker command stage;
  }

  -- A step of one command, with the checker that its task has before it.
  Advances-IsSourced :
      (command : PageCrawlCommand) (c d : TaskContext crates) (stage stage' : Stage)
      → Advances crates client c command stage d stage'
      → IsFoundAt c.link_type_checker command stage
      → IsSourced crates client Asked c.link_type_checker command stage'
  Advances-IsSourced command c _ _ _ registers h = tt
  Advances-IsSourced command c _ _ _ (touches now) h = tt
  Advances-IsSourced command c _ _ _ verifies h = tt
  Advances-IsSourced command c _ _ _ tasks h = tt
  Advances-IsSourced command c _ _ _ (fetches w w' page e) h =
      inl (record { context = c; checks = refl; world = w; world' = w'; fetched = e })
  Advances-IsSourced command c d _ _ (refuses verdict w w' _ page n e) h =
      refused-IsSourced crates client Asked c.link_type_checker command page
        (crawl_as-refused crates client c command c.task_config.robots_txt_info_url verdict c.uuid w
          w' d page n e).1
  Advances-IsSourced command c _ _ _ (knows page) h = h.1
  Advances-IsSourced command c _ _ _ skips h = tt
  Advances-IsSourced command c _ _ _ (lists page loads e) h =
      loads_of-Found crates client Asked c command page page.links loads refl h.0 h.1 e

  found-IsClosed : IsClosed crates client found_claim
  found-IsClosed = record {
    fine_stable = λ c d same h. tt;
    good_stable =
        λ c d load same h. subst (λ k. IsFoundLoad crates client Asked k load) same.checker h;
    at_stable = λ c d command stage same h. subst (λ k. IsFoundAt k command stage) same.checker h;
    first = λ run_config uuid now c asked e. (tt, Found.asks run_config uuid now c asked e refl);
    spawn = λ c load uuid h. (h, tt);
    advance = λ command c d stage stage' fine a h.
        subst (λ k. IsFoundAt k command stage')
          (Advances-IsSameTask crates client command c d stage stage' a).checker
          (h.0, Advances-IsSourced command c d stage stage' a h);
    send = λ c command load loads page h. (h.1.0, (h.0, h.1.1));
    report = λ c command page h. (h.0, tt);
  }

  -- The service, with its tasks that run at one time and their shared contexts, refines a crawler
  -- that has none of them: in every state that the service comes to, each URL that is being crawled
  -- is found from a URL that is asked for, by as many links as its depth says, each of a page that a
  -- crawl of the URL before gives and each of a scope that is followed; the URLs are formed, and the
  -- task's checker made, as for the task's request.
  pub Reachable-Found :
      (cpus : ℕ) (s : Process crates) (r : Crawl) (rest : List Crawl)
      → Reachable crates client Asked cpus s
      → Takes r s.crawls rest
      → (c : TaskContext crates) × (s.contexts r.address ≡ some c)
        × Found crates client Asked c.link_type_checker r.command.url r.command.current_depth
  Reachable-Found cpus s r rest reached t =
      let h = Reachable-IsInvariant crates client found_claim found-IsClosed cpus s reached in
      let g =
        (All-Takes (IsSoundCrawl crates found_claim s.contexts) r s.crawls rest t h.crawls).0 in
      (g.context, g.found, g.sound.0)
