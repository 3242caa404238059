-- ===== src/PageLoader/Service/Process/Labelled.antt =====
-- The pages of page_loader_service.rs are labelled with their task and the URL of their command.
use tarantula.Base.{ℕ, ◌≡◌, subst, Option, none, some}
use tarantula.Crates.{Crates}
use tarantula.Responses.PageResponse.{PageResponse}
use tarantula.Responses.RunConfig.{RunConfig}
use tarantula.PageLoader.HttpClient.{HttpClient}
use tarantula.PageLoader.TaskContext.{TaskContext}
use tarantula.PageLoader.PageCrawl.{PageCrawlCommand}
use tarantula.PageLoader.PageCrawl.Labels.{
  IsLabelledIn, perform_crawl-IsLabelled, crawl_as-IsLabelled,
}
use tarantula.PageLoader.Service.Process.{Stage, crawled, known, sending}
use tarantula.PageLoader.Service.Process.Steps.{
  Advances, registers, touches, verifies, tasks, fetches, refuses, knows, skips, lists,
}
use tarantula.PageLoader.Service.Process.Invariant.{Claim, IsClosed, Advances-IsSameTask}

-- The page at a stage has the task's uuid and the command's URL.
abbrev pub HasLabel : ℕ → PageCrawlCommand → PageResponse → Type 0
HasLabel uuid command page = (page.task_uuid ≡ uuid) × (page.original_requested_url ≡ command.url)

abbrev pub IsLabelledAt : ℕ → PageCrawlCommand → Stage → Type 0
IsLabelledAt uuid command (crawled (some page)) = HasLabel uuid command page
IsLabelledAt uuid command (known page) = HasLabel uuid command page
IsLabelledAt uuid command (sending loads page) = HasLabel uuid command page
IsLabelledAt uuid command _ = Unit

module _ {W : Type 0} (crates : Crates) (client : HttpClient W) (Allowed : RunConfig → Type 0) where
  abbrev pub label_claim : Claim crates
  label_claim = record {
    Wanted = Allowed;
    IsFine = λ c. Unit;
    IsGood = λ c load. Unit;
    IsAt = λ c command stage. IsLabelledAt c.uuid command stage;
  }

  in_crawled :
      (c : TaskContext crates) (command : PageCrawlCommand) (page : Option PageResponse)
      → IsLabelledIn crates client c command c.task_config.robots_txt_info_url c.uuid page
      → IsLabelledAt c.uuid command (crawled page)
  in_crawled c command none h = tt
  in_crawled c command (some page) h = h

  Advances-IsLabelledAt :
      (command : PageCrawlCommand) (c d : TaskContext crates) (stage stage' : Stage)
      → Advances crates client c command stage d stage'
      → IsLabelledAt c.uuid command stage
      → IsLabelledAt c.uuid command stage'
  Advances-IsLabelledAt command c _ _ _ registers h = tt
  Advances-IsLabelledAt command c _ _ _ (touches now) h = tt
  Advances-IsLabelledAt command c _ _ _ verifies h = tt
  Advances-IsLabelledAt command c _ _ _ tasks h = tt
  Advances-IsLabelledAt command c _ _ _ (fetches w w' page e) h =
      (perform_crawl-IsLabelled crates client c command c.task_config.robots_txt_info_url
          c.uuid).apply
        w w' page e
  Advances-IsLabelledAt command c d _ _ (refuses verdict w w' _ page n e) h =
      in_crawled c command page (
        (crawl_as-IsLabelled crates client c command c.task_config.robots_txt_info_url c.uuid
            verdict).apply
          w w' (d, page) e)
  Advances-IsLabelledAt command c _ _ _ (knows page) h = h
  Advances-IsLabelledAt command c _ _ _ skips h = tt
  Advances-IsLabelledAt command c _ _ _ (lists page loads e) h = h

  pub label-IsClosed : IsClosed crates client label_claim
  label-IsClosed = record {
    fine_stable = λ c d same h. tt;
    good_stable = λ c d load same h. tt;
    at_stable =
        λ c d command stage same h. subst (λ uuid. IsLabelledAt uuid command stage) same.key h;
    first = λ run_config uuid now c allowed e. (tt, tt);
    spawn = λ c load uuid h. tt;
    advance = λ command c d stage stage' fine a h.
        subst (λ uuid. IsLabelledAt uuid command stage')
          (Advances-IsSameTask crates client command c d stage stage' a).key
          (Advances-IsLabelledAt command c d stage stage' a h);
    send = λ c command load loads page h. (tt, h);
    report = λ c command page h. tt;
  }
