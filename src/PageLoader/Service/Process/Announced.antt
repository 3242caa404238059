-- ===== src/PageLoader/Service/Process/Announced.antt =====
-- The pages that are reported by page_loader_service.rs or are to be, and what a step of a crawl does
-- to them.
use tarantula.Base.{
  ℕ, ◌≡◌, ◌⊎◌, ◌∙◌, sym, ap, subst, inl, inr, false, List, ◌∷◌, some, Any, ◌==◌, ==_iff, Bool-cases,
  Text,
}
use tarantula.Crates.{Crates}
use tarantula.Responses.RunConfig.{RunConfig}
use tarantula.PageLoader.HttpClient.{HttpClient}
use tarantula.PageLoader.CrawlerEvent.{CrawlerEvent, page_event, complete_event}
use tarantula.PageLoader.TaskContext.{TaskContext, unregister_crawl_command}
use tarantula.PageLoader.Service.Known.{IsUrlOf}
use tarantula.PageLoader.Service.Process.{Process, Crawl, Stage, Takes, put, reported}
use tarantula.PageLoader.Service.Process.Steps.{
  Step, Runs, Advances, rests, steps, disturbs, reports,
}
use tarantula.PageLoader.Service.Process.Picks.{Any-Takes}
use tarantula.PageLoader.Service.Process.Invariant.{Advances-IsSameTask}
use tarantula.PageLoader.Service.Process.Reported.{Brings, HasUrl, Advances-HasUrl, Advances-Brings}

-- The event reports a page of the task for the URL.
abbrev pub Reports : ℕ → Text → CrawlerEvent → Type 0
Reports uuid url (page_event page) = (page.task_uuid ≡ uuid) × IsUrlOf url page
Reports uuid url (complete_event other) = ⊥

abbrev pub BringsFor : ℕ → Text → Crawl → Type 0
BringsFor address url r = (r.address ≡ address) × Brings url r.command r.stage

module _ {W : Type 0} (crates : Crates) (client : HttpClient W) where
  -- The receiver of the page's event has not gone.
  abbrev pub IsHeardStep : {s t : Process crates} → Step crates client s t → Type 0
  IsHeardStep (reports r rest page is_lost t e) = is_lost ≡ false
  IsHeardStep _ = Unit

  abbrev pub IsHeard :
      {Allowed : RunConfig → Type 0} {s t : Process crates}
      → Runs crates client Allowed s t
      → Type 0
  IsHeard rests = Unit
  IsHeard (steps t u r e) = IsHeard r × IsHeardStep e
  IsHeard (disturbs t u r e) = IsHeard r

  abbrev pub Announced : Process crates → ℕ → ℕ → Text → Type 0
  Announced s address uuid url =
      Any (Reports uuid url) s.events ⊎ Any (BringsFor address url) s.crawls

  abbrev pub IsAnnounced : Process crates → Type 0
  IsAnnounced s =
      (address : ℕ) (c : TaskContext crates) (url : Text)
      → s.contexts address ≡ some c
      → HasUrl c url
      → Announced s address c.uuid url

  -- A crawl goes on, and still brings its page.
  pub goes_on :
      (s : Process crates) (r : Crawl) (rest : List Crawl) (stage : Stage) (address uuid : ℕ)
      (url : Text)
      → Takes r s.crawls rest
      → (Brings url r.command r.stage → Brings url r.command stage)
      → Announced s address uuid url
      → Any (Reports uuid url) s.events
        ⊎ Any (BringsFor address url) (record r { stage = stage } ∷ rest)
  goes_on s r rest stage address uuid url t step (inl h) = inl h
  goes_on s r rest stage address uuid url t step (inr h) =
      elim (Any-Takes (BringsFor address url) r s.crawls rest t h) [
        | inl own ↦ inr (inl (own.0, step own.1))
        | inr others ↦ inr (inr others)
      ]

  pub IsAnnounced-advances :
      (s : Process crates) (r : Crawl) (rest : List Crawl) (c d : TaskContext crates)
      (stage : Stage)
      → IsAnnounced s
      → Takes r s.crawls rest
      → s.contexts r.address ≡ some c
      → Advances crates client c r.command r.stage d stage
      → IsAnnounced (record s {
        contexts = put crates s.contexts r.address d;
        crawls = record r { stage = stage } ∷ rest;
      })
  unfolding put
  IsAnnounced-advances s r rest c d stage h t found a address e url at has =
      let step = Advances-Brings crates client r.command c d r.stage stage url a in
      elim (Bool-cases (r.address == address)) [
        | inl hit ↦
            let same : some d ≡ some e = rw hit at at in
            let eq : e ≡ d = cc in
            let here : s.contexts address ≡ some c =
              ap s.contexts (sym ((==_iff r.address address).0 hit)) ∙ found in
            let key : c.uuid ≡ e.uuid =
              (Advances-IsSameTask crates client r.command c d r.stage stage a).key
              ∙ ap (λ (x : TaskContext crates). x.uuid) (sym eq) in
            elim (Advances-HasUrl crates client r.command c d r.stage stage url a
              (subst (λ (x : TaskContext crates). HasUrl x url) eq has)) [
                | inl old ↦
                    goes_on s r rest stage address e.uuid url t step
                      (subst (λ uuid. Announced s address uuid url) key (h address c url here old))
                | inr own ↦ inr (inl ((==_iff r.address address).0 hit, own))
              ]
        | inr miss ↦
            goes_on s r rest stage address e.uuid url t step (h address e url (rw miss at at) has)
      ]

  pub IsAnnounced-ends :
      (s : Process crates) (r : Crawl) (rest : List Crawl) (c : TaskContext crates)
      → IsAnnounced s
      → Takes r s.crawls rest
      → s.contexts r.address ≡ some c
      → r.stage ≡ reported
      → IsAnnounced (record s {
        contexts =
            put crates s.contexts r.address (unregister_crawl_command crates c r.command.uuid);
        crawls = rest;
      })
  unfolding put unregister_crawl_command
  IsAnnounced-ends s r rest c h t found stage address e url at has =
      elim (Bool-cases (r.address == address)) [
        | inl hit ↦
            let same : some (unregister_crawl_command crates c r.command.uuid) ≡ some e =
              rw hit at at in
            let eq : e ≡ unregister_crawl_command crates c r.command.uuid = cc in
            let here : s.contexts address ≡ some c =
              ap s.contexts (sym ((==_iff r.address address).0 hit)) ∙ found in
            left (
              subst (λ uuid. Announced s address uuid url)
                (ap (λ (x : TaskContext crates). x.uuid) (sym eq))
                (h address c url here (subst (λ (x : TaskContext crates). HasUrl x url) eq has)))
        | inr miss ↦ left (h address e url (rw miss at at) has)
      ]
    where
      left :
          Announced s address e.uuid url
          → Any (Reports e.uuid url) s.events ⊎ Any (BringsFor address url) rest
      left (inl k) = inl k
      left (inr k) = elim (Any-Takes (BringsFor address url) r s.crawls rest t k) [
        | inl own ↦ absurd (subst (Brings url r.command) stage own.1)
        | inr others ↦ inr others
      ]
