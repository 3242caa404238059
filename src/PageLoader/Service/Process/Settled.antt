-- ===== src/PageLoader/Service/Process/Settled.antt =====
-- What becomes of a command of page_loader_service.rs: when its URL needs no crawl any more, and that
-- no step of another command changes this.
use tarantula.Base.{
  ◌&&◌, ltb, leb, Bool-cases, arith, ℕ, ◌⊎◌, ℕ, ◌⊎◌, ◌<◌, ◌≤◌, ◌≡◌, refl, sym, subst, true, false,
  inl, inr, Text, mem,
}
use tarantula.Crates.{Crates}
use tarantula.PageLoader.HttpClient.{HttpClient}
use tarantula.PageLoader.RobotsService
use tarantula.PageLoader.RobotsService.{RobotsService}
use tarantula.PageLoader.TaskContext.{
  TaskContext, can_access, register_crawl_command, set_last_command_received,
}
use tarantula.PageLoader.PageCrawl.{
  crawlable, PageCrawlCommand, push_tasked_link, verify_crawlability,
}
use tarantula.PageLoader.PageCrawl.Verdict.{mem-append}
use tarantula.PageLoader.Service.Known.{mem-add_links_other}
use tarantula.PageLoader.Service.{know_page}
use tarantula.PageLoader.Service.Process.{Stage}
use tarantula.PageLoader.Service.Process.Refused.{crawl_as-refused}
use tarantula.PageLoader.Service.Process.Steps.{
  Advances, registers, touches, verifies, tasks, fetches, refuses, knows, skips, lists,
}

module _ {crates : Crates} where
  -- The task of a context, with no link forgotten.
  pub record IsGrown (c d : TaskContext crates) : Type 0 where
    pub config : c.task_config ≡ d.task_config
    pub checker : c.link_type_checker ≡ d.link_type_checker
    pub robots : c.robots_service ≡ d.robots_service
    pub crawled :
        (url : Text) → mem url c.all_crawled_links ≡ true → mem url d.all_crawled_links ≡ true
    pub tasked :
        (url : Text) → mem url c.all_tasked_links ≡ true → mem url d.all_tasked_links ≡ true

  pub IsGrown-refl : (c : TaskContext crates) → IsGrown c c
  IsGrown-refl c = record {
    config = refl;
    checker = refl;
    robots = refl;
    crawled = λ url h. h;
    tasked = λ url h. h;
  }

module _ (crates : Crates) where
  -- The URL, at that depth, was crawled, is being crawled or is not to be crawled.
  pub data IsSettled (c : TaskContext crates) (url : Text) (depth : ℕ) : Type 0 where
    is_crawled : mem url c.all_crawled_links ≡ true → IsSettled c url depth
    is_tasked : mem url c.all_tasked_links ≡ true → IsSettled c url depth
    is_too_deep :
        0 < c.task_config.maximum_depth
        → c.task_config.maximum_depth ≤ depth
        → IsSettled c url depth
    is_restricted : can_access crates c url ≡ false → IsSettled c url depth

  pub IsSettled-grown :
      (c d : TaskContext crates) (url : Text) (depth : ℕ)
      → IsGrown c d
      → IsSettled c url depth
      → IsSettled d url depth
  unfolding can_access
  IsSettled-grown c d url depth g (is_crawled h) = is_crawled (g.crawled url h)
  IsSettled-grown c d url depth g (is_tasked h) = is_tasked (g.tasked url h)
  IsSettled-grown c d url depth g (is_too_deep h k) =
      is_too_deep (subst (λ t. 0 < t.maximum_depth) g.config h)
        (subst (λ t. t.maximum_depth ≤ depth) g.config k)
  IsSettled-grown c d url depth g (is_restricted h) = is_restricted (
      subst (λ (r : RobotsService crates). RobotsService.can_access crates r url ≡ false) g.robots
        h)

  -- A command that is verified is to be crawled or settled.
  pub verify_crawlability-settles :
      (c : TaskContext crates) (command : PageCrawlCommand)
      → (verify_crawlability crates c command ≡ crawlable)
        ⊎ IsSettled c command.url command.current_depth
  unfolding verify_crawlability
  verify_crawlability-settles c command =
      elim (Bool-cases (
        ltb 0 c.task_config.maximum_depth
        && leb c.task_config.maximum_depth command.current_depth)) [
          | inl deep ↦ inr (is_too_deep (ground (arith, deep)) (ground (arith, deep)))
          | inr shallow ↦ elim (Bool-cases (mem command.url c.all_crawled_links)) [
            | inl old ↦ inr (is_crawled old)
            | inr new ↦ elim (Bool-cases (mem command.url c.all_tasked_links)) [
              | inl old ↦ inr (is_tasked old)
              | inr free ↦ elim (Bool-cases (can_access crates c command.url)) [
                | inl open_to ↦ inl (rw (shallow, new, free, open_to) refl)
                | inr closed ↦ inr (is_restricted closed)
              ]
            ]
          ]
        ]

  module _ {W : Type 0} (client : HttpClient W) where
    pub Advances-IsGrown :
        (command : PageCrawlCommand) (c d : TaskContext crates) (stage stage' : Stage)
        → Advances crates client c command stage d stage'
        → IsGrown c d
    unfolding register_crawl_command set_last_command_received push_tasked_link know_page
    Advances-IsGrown command c _ _ _ registers = record {
      config = refl;
      checker = refl;
      robots = refl;
      crawled = λ url h. h;
      tasked = λ url h. h;
    }
    Advances-IsGrown command c _ _ _ (touches now) = record {
      config = refl;
      checker = refl;
      robots = refl;
      crawled = λ url h. h;
      tasked = λ url h. h;
    }
    Advances-IsGrown command c _ _ _ verifies = IsGrown-refl c
    Advances-IsGrown command c _ _ _ tasks = record {
      config = refl;
      checker = refl;
      robots = refl;
      crawled = λ url h. h;
      tasked = λ url h. mem-append url c.all_tasked_links command.url h;
    }
    Advances-IsGrown command c _ _ _ (fetches w w' page e) = IsGrown-refl c
    Advances-IsGrown command c d _ _ (refuses verdict w w' _ page n e) =
        subst (IsGrown c)
          (sym
            (crawl_as-refused crates client c command c.task_config.robots_txt_info_url verdict
              c.uuid w w' d page n e).0)
          (IsGrown-refl c)
    Advances-IsGrown command c _ _ _ (knows page) = record {
      config = refl;
      checker = refl;
      robots = refl;
      crawled = λ url h. mem-add_links_other c.all_crawled_links page url h;
      tasked = λ url h. h;
    }
    Advances-IsGrown command c _ _ _ skips = IsGrown-refl c
    Advances-IsGrown command c _ _ _ (lists page loads e) = IsGrown-refl c
