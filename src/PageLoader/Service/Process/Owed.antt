-- ===== src/PageLoader/Service/Process/Owed.antt =====
-- A URL that a task of page_loader_service.rs still owes a crawl: by its command, which waits in the
-- channel or is verified, or by a page whose links have yet to be sent.
use mathlib.Core.List.{Memᴰ}
use tarantula.Base.{
  ◌≤◌, ◌≡◌, ◌⊎◌, ◌∙◌, refl, sym, subst, true, false, none, some, inl, inr, done, mem, List,
  Bool-cases, done-injective, ◌++◌, [], ◌∷◌, arith, Text,
}
use tarantula.Crates.{Crates}
use tarantula.Responses.Link.{Link}
use tarantula.Responses.PageResponse.{PageResponse}
use tarantula.PageLoader.HttpClient.{HttpClient}
use tarantula.PageLoader.TaskContext.{TaskContext}
use tarantula.PageLoader.PageCrawl.{crawlable, PageCrawlCommand, push_tasked_link}
use tarantula.PageLoader.PageCrawl.Verdict.{mem-append_self}
use tarantula.PageLoader.Service.{
  LoadPage, is_followed, prepare_load_command, dedup_links, loads_of, know_page,
}
use tarantula.PageLoader.Service.Allowed.{loads_of-IsServed}
use tarantula.PageLoader.Service.Process.{
  Stage, spawned, registered, loading, verified, tasked, crawled, known, sending, reported,
}
use tarantula.PageLoader.Service.Process.Settled.{
  IsGrown, IsSettled, is_crawled, is_tasked, verify_crawlability-settles, Advances-IsGrown,
}
use tarantula.PageLoader.Service.Process.Steps.{
  Advances, registers, touches, verifies, tasks, fetches, refuses, knows, skips, lists,
}

mem-of_append :
    (url : Text) (xs ys : List Text)
    → mem url (xs ++ ys) ≡ true
    → (mem url xs ≡ true) ⊎ (mem url ys ≡ true)
mem-of_append url [] ys h = inr h
mem-of_append url (x ∷ xs) ys h = ground (arith, h, mem-of_append url xs ys)

module _ (crates : Crates) where
  -- The command is that of a link of the page, of neighbours with one URI the first, which is
  -- followed; the page is not below the depth limit.
  pub record IsLinkOf (c : TaskContext crates) (command : PageCrawlCommand) (page : PageResponse)
      (load : LoadPage) : Type 0 where
    pub links : List Link
    pub link : Link
    pub has : page.links ≡ some links
    pub member : Memᴰ link (dedup_links links)
    pub followed : is_followed link.scope ≡ true
    pub within : command.current_depth ≤ c.task_config.maximum_depth
    pub prepared : prepare_load_command crates c command link ≡ done load

  abbrev IsFor : LoadPage → PageCrawlCommand → Type 0
  IsFor load command = (command.url ≡ load.url) × (command.current_depth ≡ load.current_depth)

  abbrev pub OwesAt : TaskContext crates → LoadPage → PageCrawlCommand → Stage → Type 0
  OwesAt c load command spawned = IsFor load command
  OwesAt c load command registered = IsFor load command
  OwesAt c load command loading = IsFor load command
  OwesAt c load command (verified verdict) = (verdict ≡ crawlable) × IsFor load command
  OwesAt c load command tasked = ⊥
  OwesAt c load command (crawled none) = ⊥
  OwesAt c load command (crawled (some page)) = IsLinkOf c command page load
  OwesAt c load command (known page) = IsLinkOf c command page load
  OwesAt c load command (sending loads page) = Memᴰ load loads
  OwesAt c load command reported = ⊥

  abbrev pub IsDone : TaskContext crates → LoadPage → Type 0
  IsDone c load = IsSettled crates c load.url load.current_depth

  prepare_load_command-same :
      (c d : TaskContext crates) (command : PageCrawlCommand) (link : Link)
      → c.link_type_checker ≡ d.link_type_checker
      → prepare_load_command crates c command link ≡ prepare_load_command crates d command link
  unfolding prepare_load_command
  prepare_load_command-same c d command link h = rw h refl

  IsLinkOf-grown :
      (c d : TaskContext crates) (command : PageCrawlCommand) (page : PageResponse)
      (load : LoadPage)
      → IsGrown c d
      → IsLinkOf c command page load
      → IsLinkOf d command page load
  IsLinkOf-grown c d command page load g h = record {
    links = h.links;
    link = h.link;
    has = h.has;
    member = h.member;
    followed = h.followed;
    within = subst (λ t. command.current_depth ≤ t.maximum_depth) g.config h.within;
    prepared = sym (prepare_load_command-same c d command h.link g.checker) ∙ h.prepared;
  }

  pub OwesAt-grown :
      (c d : TaskContext crates) (load : LoadPage) (command : PageCrawlCommand) (stage : Stage)
      → IsGrown c d
      → OwesAt c load command stage
      → OwesAt d load command stage
  OwesAt-grown c d load command spawned g h = h
  OwesAt-grown c d load command registered g h = h
  OwesAt-grown c d load command loading g h = h
  OwesAt-grown c d load command (verified verdict) g h = h
  OwesAt-grown c d load command tasked g h = h
  OwesAt-grown c d load command (crawled none) g h = h
  OwesAt-grown c d load command (crawled (some page)) g h = IsLinkOf-grown c d command page load g h
  OwesAt-grown c d load command (known page) g h = IsLinkOf-grown c d command page load g h
  OwesAt-grown c d load command (sending loads page) g h = h
  OwesAt-grown c d load command reported g h = h

  -- The links of a page are listed: the command is among those to be sent, or its URL is known.
  listed :
      (c : TaskContext crates) (command : PageCrawlCommand) (page : PageResponse) (load : LoadPage)
      (loads : List LoadPage)
      → loads_of crates c command page.links ≡ done loads
      → IsLinkOf c command page load
      → IsDone c load ⊎ Memᴰ load loads
  listed c command page load loads e h =
      let served =
        loads_of-IsServed crates c command h.links loads h.link h.within h.member h.followed
          (subst (λ l. loads_of crates c command l ≡ done loads) h.has e) in
      let same = done-injective served.0 load (sym served.1 ∙ h.prepared) in
      elim (Bool-cases (mem load.url (c.all_crawled_links ++ c.all_tasked_links))) [
        | inl old ↦ elim (mem-of_append load.url c.all_crawled_links c.all_tasked_links old) [
          | inl k ↦ inl (is_crawled k)
          | inr k ↦ inl (is_tasked k)
        ]
        | inr new ↦ inr (
            subst
              (λ x. (mem x.url (c.all_crawled_links ++ c.all_tasked_links) ≡ false) → Memᴰ x loads)
              same served.2 new)
      ]

  module _ {W : Type 0} (client : HttpClient W) where
    -- A step of a command that owes the URL settles it, or leaves it owed.
    pub Advances-OwesAt :
        (command : PageCrawlCommand) (c d : TaskContext crates) (stage stage' : Stage)
        (load : LoadPage)
        → Advances crates client c command stage d stage'
        → OwesAt c load command stage
        → IsDone d load ⊎ OwesAt d load command stage'
    unfolding push_tasked_link know_page
    Advances-OwesAt command c _ _ _ load registers h = inr h
    Advances-OwesAt command c _ _ _ load (touches now) h = inr h
    Advances-OwesAt command c _ _ _ load verifies h =
        elim (verify_crawlability-settles crates c command) [
          | inl e ↦ inr (e, (h.0, h.1))
          | inr k ↦ inl (rw (← h.0, ← h.1) k)
        ]
    Advances-OwesAt command c _ _ _ load tasks h = inl (
        is_tasked (
          subst (λ url. mem url (c.all_tasked_links ++ command.url ∷ []) ≡ true) h.1.0
            (mem-append_self command.url c.all_tasked_links)))
    Advances-OwesAt command c _ _ _ load (fetches w w' page e) h = absurd h
    Advances-OwesAt command c d _ _ load (refuses verdict w w' _ page n e) h = absurd (n h.0)
    Advances-OwesAt command c d _ _ load (knows page) h = inr (
        IsLinkOf-grown c _ command page load
          (Advances-IsGrown crates client command c _ _ _ (knows page)) h)
    Advances-OwesAt command c _ _ _ load skips h = absurd h
    Advances-OwesAt command c _ _ _ load (lists page loads e) h =
        listed c command page load loads e h
