-- ===== src/PageLoader/PageCrawl/Race.antt =====
-- Several crawls of one task at a time (page_crawl_command.rs): `verify_crawlability` locks the task
-- for its tests, and `perform_crawl_internal` locks it again to push the URL.
use tarantula.Base.{
  ◌≡◌, refl, List, [], ◌∷◌, true, Text, mem, text_eq, text_eq_iff, Bool-cases, inl, inr,
}
use tarantula.Crates.{Crates}
use tarantula.PageLoader.TaskContext.{TaskContext}
use tarantula.PageLoader.PageCrawl.{
  crawlable, PageCrawlCommand, verify_crawlability, push_tasked_link,
}
use tarantula.PageLoader.PageCrawl.Verdict.{mem-append, mem-append_self}

module _ (crates : Crates) where
  -- The task, the commands that are verified and have not pushed their URL yet, and the URLs that
  -- are fetched, the last one first.
  pub record Crawls : Type 0 where
    pub context : TaskContext crates
    pub verified : List PageCrawlCommand
    pub fetched : List Text

  -- The two steps of each command, in any order with those of the others.
  pub data Interleaved (c : TaskContext crates) : Crawls → Type 0 where
    begins : Interleaved c (record { context = c; verified = []; fetched = [] })
    verifies :
        (s : Crawls) (command : PageCrawlCommand)
        → Interleaved c s
        → verify_crawlability crates s.context command ≡ crawlable
        → Interleaved c (record s { verified = command ∷ s.verified })
    pushes :
        (s : Crawls) (command : PageCrawlCommand) (others : List PageCrawlCommand)
        → Interleaved c s
        → s.verified ≡ command ∷ others
        → Interleaved c (record s {
          context = push_tasked_link crates s.context command.url;
          verified = others;
          fetched = command.url ∷ s.fetched;
        })

  -- However the crawls interleave, a URL that is fetched is one of the tasked links from then on.
  pub Interleaved-tasked :
      (c : TaskContext crates) (s : Crawls) (url : Text)
      → Interleaved c s
      → mem url s.fetched ≡ true
      → mem url s.context.all_tasked_links ≡ true
  unfolding push_tasked_link
  Interleaved-tasked c s url begins h = cc
  Interleaved-tasked c _ url (verifies s command i free) h = Interleaved-tasked c s url i h
  Interleaved-tasked c _ url (pushes s command others i e) h =
      elim (Bool-cases (text_eq url command.url)) [
        | inl same ↦
            rw ((text_eq_iff url command.url).0 same)
              (mem-append_self command.url s.context.all_tasked_links)
        | inr other ↦
            mem-append url s.context.all_tasked_links command.url
              (Interleaved-tasked c s url i (rw other at h))
      ]

  -- If a command is to be crawled, there is an order of steps in which its URL is fetched twice:
  -- two commands for it are verified before either pushes it.
  pub Interleaved-twice :
      (c : TaskContext crates) (command : PageCrawlCommand)
      → verify_crawlability crates c command ≡ crawlable
      → (s : Crawls) × Interleaved c s × (s.fetched ≡ command.url ∷ command.url ∷ [])
  Interleaved-twice c command free = (
    _,
    pushes _ command []
        (pushes _ command (command ∷ []) (verifies _ command (verifies _ command begins free) free)
          refl)
        refl,
    refl,
  )
