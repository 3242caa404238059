-- ===== src/PageLoader/Service/Process/Reported.antt =====
-- From the links that a task of page_loader_service.rs knows to the pages that it reports: who
-- brings the page for a URL.
use tarantula.Base.{◌≡◌, ◌⊎◌, ◌∙◌, subst, true, inl, inr, some, Text, mem}
use tarantula.Crates.{Crates}
use tarantula.PageLoader.HttpClient.{HttpClient}
use tarantula.PageLoader.TaskContext.{
  TaskContext, register_crawl_command, set_last_command_received,
}
use tarantula.PageLoader.PageCrawl.{PageCrawlCommand, push_tasked_link}
use tarantula.PageLoader.PageCrawl.Labels.{perform_crawl-IsLabelled}
use tarantula.PageLoader.Service.Known.{IsUrlOf, mem-append_inv, mem-add_links_inv}
use tarantula.PageLoader.Service.{know_page}
use tarantula.PageLoader.Service.Process.{Stage, tasked, crawled, known, sending}
use tarantula.PageLoader.Service.Process.Refused.{crawl_as-refused}
use tarantula.PageLoader.Service.Process.Steps.{
  Advances, registers, touches, verifies, tasks, fetches, refuses, knows, skips, lists,
}

-- The crawl brings the page for the URL.
abbrev pub Brings : Text → PageCrawlCommand → Stage → Type 0
Brings url command tasked = command.url ≡ url
Brings url command (crawled (some page)) = IsUrlOf url page
Brings url command (known page) = IsUrlOf url page
Brings url command (sending loads page) = IsUrlOf url page
Brings url command _ = ⊥

abbrev pub HasUrl : {crates : Crates} → TaskContext crates → Text → Type 0
HasUrl c url = (mem url c.all_crawled_links ≡ true) ⊎ (mem url c.all_tasked_links ≡ true)

module _ {W : Type 0} (crates : Crates) (client : HttpClient W) where
  -- A link that is new to the task is one that the crawl brings a page for.
  pub Advances-HasUrl :
      (command : PageCrawlCommand) (c d : TaskContext crates) (stage stage' : Stage) (url : Text)
      → Advances crates client c command stage d stage'
      → HasUrl d url
      → HasUrl c url ⊎ Brings url command stage'
  unfolding register_crawl_command set_last_command_received push_tasked_link know_page
  Advances-HasUrl command c _ _ _ url registers h = inl h
  Advances-HasUrl command c _ _ _ url (touches now) h = inl h
  Advances-HasUrl command c _ _ _ url verifies h = inl h
  Advances-HasUrl command c _ _ _ url tasks (inl h) = inl (inl h)
  Advances-HasUrl command c _ _ _ url tasks (inr h) =
      elim (mem-append_inv url c.all_tasked_links command.url h) [
        | inl old ↦ inl (inr old)
        | inr same ↦ inr same
      ]
  Advances-HasUrl command c _ _ _ url (fetches w w' page e) h = inl h
  Advances-HasUrl command c d _ _ url (refuses verdict w w' _ page n e) h = inl (
      subst (λ (x : TaskContext crates). HasUrl x url)
        (crawl_as-refused crates client c command c.task_config.robots_txt_info_url verdict c.uuid w
          w' d page n e).0
        h)
  Advances-HasUrl command c _ _ _ url (knows page) (inl h) =
      elim (mem-add_links_inv url c.all_crawled_links page h) [
        | inl old ↦ inl (inl old)
        | inr own ↦ inr own
      ]
  Advances-HasUrl command c _ _ _ url (knows page) (inr h) = inl (inr h)
  Advances-HasUrl command c _ _ _ url skips h = inl h
  Advances-HasUrl command c _ _ _ url (lists page loads e) h = inl h

  pub Advances-Brings :
      (command : PageCrawlCommand) (c d : TaskContext crates) (stage stage' : Stage) (url : Text)
      → Advances crates client c command stage d stage'
      → Brings url command stage
      → Brings url command stage'
  Advances-Brings command c _ _ _ url registers h = absurd h
  Advances-Brings command c _ _ _ url (touches now) h = absurd h
  Advances-Brings command c _ _ _ url verifies h = absurd h
  Advances-Brings command c _ _ _ url tasks h = absurd h
  Advances-Brings command c _ _ _ url (fetches w w' page e) h =
      let label =
        (perform_crawl-IsLabelled crates client c command c.task_config.robots_txt_info_url
            c.uuid).apply
          w w' page e in
      inl (label.1 ∙ h)
  Advances-Brings command c d _ _ url (refuses verdict w w' _ page n e) h = absurd h
  Advances-Brings command c _ _ _ url (knows page) h = h
  Advances-Brings command c _ _ _ url skips h = absurd h
  Advances-Brings command c _ _ _ url (lists page loads e) h = h
