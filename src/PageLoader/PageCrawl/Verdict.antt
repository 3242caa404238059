-- ===== src/PageLoader/PageCrawl/Verdict.antt =====
-- `verify_crawlability` of page_crawl_command.rs, and what a crawl leaves for the next one.
use tarantula.Base.{
  ℕ, suc, ◌≤◌, ◌<◌, ◌≡◌, ◌≢◌, ◌⊎◌, refl, ◌↔◌, true, false, List, [], ◌∷◌, ◌++◌, arith, Text, mem,
  text_eq, text_eq_iff, if◌then◌else◌,
}
use tarantula.Crates.{Crates}
use tarantula.PageLoader.TaskContext.{TaskContext, can_access}
use tarantula.PageLoader.PageCrawl.{
  crawlable, PageCrawlCommand, verify_crawlability, push_tasked_link,
}

pub mem-append :
    (url : Text) (xs : List Text) (y : Text) → mem url xs ≡ true → mem url (xs ++ y ∷ []) ≡ true
mem-append url [] y h = cc
mem-append url (x ∷ xs) y h = ground (arith, mem-append url xs y)

pub mem-append_self : (url : Text) (xs : List Text) → mem url (xs ++ url ∷ []) ≡ true
mem-append_self url [] = ground (arith, text_eq_iff url url)
mem-append_self url (x ∷ xs) = ground (arith, mem-append_self url xs)

module _ (crates : Crates) where
  -- A URL is crawled exactly when its depth is below the limit (0 is no limit), the URL is neither
  -- crawled nor tasked before, and the robots service allows it.
  pub verify_crawlability-eq-crawlable_iff :
      (c : TaskContext crates) (command : PageCrawlCommand)
      → (verify_crawlability crates c command ≡ crawlable) ↔ (
          ((c.task_config.maximum_depth ≡ 0)
            ⊎ (command.current_depth < c.task_config.maximum_depth))
          × (mem command.url c.all_crawled_links ≡ false)
          × (mem command.url c.all_tasked_links ≡ false)
          × (can_access crates c command.url ≡ true))
  unfolding verify_crawlability
  verify_crawlability-eq-crawlable_iff c command = ground arith

  -- What happens to the known links of a task: a command is verified and, if it is to be crawled,
  -- pushes its URL; or a page that was fetched is added to the crawled links.
  pub data Event : Type 0 where
    crawls : PageCrawlCommand → Event
    knows : Text → Event

  pub after : TaskContext crates → Event → TaskContext crates
  after c (crawls command) = elim (verify_crawlability crates c command) [
    | crawlable ↦ push_tasked_link crates c command.url
    | _ ↦ c
  ]
  after c (knows url) = record c { all_crawled_links = c.all_crawled_links ++ url ∷ [] }

  -- How often the URL is fetched.
  pub fetches : Text → TaskContext crates → List Event → ℕ
  unfolding after
  fetches url c [] = 0
  fetches url c (crawls command ∷ events) =
      let rest = fetches url (after c (crawls command)) events in
      elim (verify_crawlability crates c command) [
        | crawlable ↦ (if text_eq url command.url then suc rest else rest)
        | _ ↦ rest
      ]
  fetches url c (knows known ∷ events) = fetches url (after c (knows known)) events

  tasked-after :
      (url : Text) (c : TaskContext crates) (e : Event)
      → mem url c.all_tasked_links ≡ true
      → mem url (after c e).all_tasked_links ≡ true
  unfolding after push_tasked_link
  tasked-after url c (crawls command) h =
      ground (arith, mem-append url c.all_tasked_links command.url h)
  tasked-after url c (knows known) h = h

  tasked-not-crawlable :
      (c : TaskContext crates) (command : PageCrawlCommand)
      → mem command.url c.all_tasked_links ≡ true
      → verify_crawlability crates c command ≢ crawlable
  unfolding verify_crawlability
  tasked-not-crawlable c command h = ground arith

  fetches_of_tasked :
      (url : Text) (c : TaskContext crates) (events : List Event)
      → mem url c.all_tasked_links ≡ true
      → fetches url c events ≡ 0
  unfolding fetches
  fetches_of_tasked url c [] h = refl
  fetches_of_tasked url c (crawls command ∷ events) h = ground (
    arith,
    fetches_of_tasked url (after c (crawls command)) events (tasked-after url c (crawls command) h),
    text_eq_iff url command.url,
    tasked-not-crawlable c command,
  )
  fetches_of_tasked url c (knows known ∷ events) h =
      fetches_of_tasked url (after c (knows known)) events (tasked-after url c (knows known) h)

  tasked-crawls :
      (url : Text) (c : TaskContext crates) (command : PageCrawlCommand)
      → verify_crawlability crates c command ≡ crawlable
      → text_eq url command.url ≡ true
      → mem url (after c (crawls command)).all_tasked_links ≡ true
  unfolding after push_tasked_link
  tasked-crawls url c command h same =
      let e = (text_eq_iff url command.url).0 same in
      rw (h, after, e) (mem-append_self command.url c.all_tasked_links)

  -- Where the verification of a command and the push of its URL are one step, no sequence of events
  -- fetches a URL twice.
  pub fetches-le-one :
      (url : Text) (c : TaskContext crates) (events : List Event) → fetches url c events ≤ 1
  unfolding fetches
  fetches-le-one url c [] = omega arith
  fetches-le-one url c (crawls command ∷ events) = ground (
    arith,
    fetches-le-one url (after c (crawls command)) events,
    fetches_of_tasked url (after c (crawls command)) events,
    tasked-crawls url c command,
  )
  fetches-le-one url c (knows known ∷ events) = fetches-le-one url (after c (knows known)) events
