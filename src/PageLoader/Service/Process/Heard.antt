-- ===== src/PageLoader/Service/Process/Heard.antt =====
-- While no spawned task of page_loader_service.rs panics and no event is lost, every link that a task
-- knows has a page that is reported, or that a crawl of the task brings.
use tarantula.Base.{
  ℕ, ◌≡◌, ◌≢◌, ◌∙◌, sym, ap, subst, inl, inr, true, false, List, [], ◌∷◌, ◌++◌, some, done,
  Any-append, Any-append_right, ◌==◌, Bool-cases, Text, mem,
}
use tarantula.Crates.{Crates}
use tarantula.Responses.RunConfig.{RunConfig}
use tarantula.Responses.PageResponse.{PageResponse}
use tarantula.PageLoader.HttpClient.{HttpClient}
use tarantula.PageLoader.CrawlerEvent.{page_event}
use tarantula.PageLoader.TaskContext
use tarantula.PageLoader.TaskContext.{TaskContext}
use tarantula.PageLoader.Service.Process.{
  Process, Crawl, Takes, put, enqueue, collect, init_with_factory, reported, sending,
}
use tarantula.PageLoader.Service.Process.Steps.{
  Runs, Step, Reachable, rests, steps, disturbs, receives, starts, stops, adds, advances, sends,
  reports, ends, fails, dies, submits, collects,
}
use tarantula.PageLoader.Service.Process.Picks.{Any-Takes, All-Takes}
use tarantula.PageLoader.Service.Process.Bounded.{init-IsMade}
use tarantula.PageLoader.Service.Process.Covered.{IsCalmStep, IsCalm}
use tarantula.PageLoader.Service.Process.Invariant.{IsInvariant, IsSoundCrawl}
use tarantula.PageLoader.Service.Process.Preserved.{Reachable-IsInvariant, IsInvariant-Runs}
use tarantula.PageLoader.Service.Process.Labelled.{IsLabelledAt, label_claim, label-IsClosed}
use tarantula.PageLoader.Service.Process.Reported.{Brings, HasUrl}
use tarantula.PageLoader.Service.Process.Announced.{
  Reports, BringsFor, Announced, IsAnnounced, IsHeardStep, IsHeard, goes_on, IsAnnounced-advances,
  IsAnnounced-ends,
}

module _ {W : Type 0} (crates : Crates) (client : HttpClient W) where
  IsAnnounced-reports :
      (Allowed : RunConfig → Type 0) (s : Process crates) (r : Crawl) (rest : List Crawl)
      (page : PageResponse)
      → IsInvariant crates (label_claim crates client Allowed) s
      → IsAnnounced crates client s
      → Takes r s.crawls rest
      → r.stage ≡ sending [] page
      → IsAnnounced crates client (record s {
        crawls = record r { stage = reported } ∷ rest;
        events = s.events ++ page_event page ∷ [];
      })
  IsAnnounced-reports Allowed s r rest page k h t stage address c url at has =
      elim (h address c url at has) [
        | inl before ↦ inl (Any-append (Reports c.uuid url) s.events _ before)
        | inr m ↦ elim (Any-Takes (BringsFor address url) r s.crawls rest t m) [
          | inl own ↦
              let g =
                (All-Takes (IsSoundCrawl crates (label_claim crates client Allowed) s.contexts) r
                  s.crawls rest t k.crawls).0 in
              let there : some g.context ≡ some c = sym g.found ∙ ap s.contexts own.0 ∙ at in
              let eq : g.context ≡ c = cc in
              let label = subst (IsLabelledAt g.context.uuid r.command) stage g.sound in
              inl (
                Any-append_right (Reports c.uuid url) s.events _ (
                  inl (
                    label.0 ∙ ap (λ (x : TaskContext crates). x.uuid) eq,
                    subst (Brings url r.command) stage own.1,
                  )))
          | inr others ↦ inr (inr others)
        ]
      ]

  IsAnnounced-starts :
      (s : Process crates) (run_config : RunConfig) (key now : ℕ) (c : TaskContext crates)
      → IsAnnounced crates client s
      → TaskContext.init crates run_config key now ≡ done c
      → (address : ℕ) (e : TaskContext crates) (url : Text)
      → put crates s.contexts s.fresh c address ≡ some e
      → HasUrl e url
      → Announced crates client s address e.uuid url
  unfolding put
  IsAnnounced-starts s run_config key now c h i address e url at has =
      elim (Bool-cases (s.fresh == address)) [
        | inl hit ↦
            let same : some c ≡ some e = rw hit at at in
            let eq : e ≡ c = cc in
            let made = init-IsMade crates run_config key now c i in
            elim (subst (λ (x : TaskContext crates). HasUrl x url) eq has) [
              | inl m ↦ absurd (true-ne-false (sym m ∙ ap (mem url) made.uncrawled))
              | inr m ↦ absurd (true-ne-false (sym m ∙ ap (mem url) made.untasked))
            ]
        | inr miss ↦ h address e url (rw miss at at) has
      ]
    where
      true-ne-false : true ≢ false
      true-ne-false p = cc

  IsAnnounced-Step :
      (Allowed : RunConfig → Type 0) (s t : Process crates)
      → IsInvariant crates (label_claim crates client Allowed) s
      → IsAnnounced crates client s
      → (e : Step crates client s t) → IsCalmStep crates client e
      → IsHeardStep crates client e
      → IsAnnounced crates client t
  unfolding enqueue
  IsAnnounced-Step Allowed s _ k h (receives other load channel l e) calm heard =
      λ address c url at has. elim (h address c url at has) [ inl m ↦ inl m | inr m ↦ inr (inr m) ]
  IsAnnounced-Step Allowed s _ k h (starts run_config key now channel c l e i) calm heard =
      IsAnnounced-starts s run_config key now c h i
  IsAnnounced-Step Allowed s _ k h (stops run_config key now channel l e i) calm heard = h
  IsAnnounced-Step Allowed s _ k h (adds other key load l room) calm heard = h
  IsAnnounced-Step Allowed s _ k h (advances r rest c d stage t found a) calm heard =
      IsAnnounced-advances crates client s r rest c d stage h t found a
  IsAnnounced-Step Allowed s _ k h (sends r rest load loads page t e alive room) calm heard =
      λ address c url at has.
        goes_on crates client s r rest (sending loads page) address c.uuid url t
          (subst (Brings url r.command) e) (h address c url at has)
  IsAnnounced-Step Allowed s _ k h (reports r rest page is_lost t e) calm heard =
      rw heard (IsAnnounced-reports Allowed s r rest page k h t e)
  IsAnnounced-Step Allowed s _ k h (ends r rest c t found e) calm heard =
      IsAnnounced-ends crates client s r rest c h t found e
  IsAnnounced-Step Allowed s _ k h (fails r rest load loads page t e gone) calm heard = absurd calm
  IsAnnounced-Step Allowed s _ k h (dies r rest c t found p) calm heard = absurd calm

  pub IsAnnounced-Runs :
      (Allowed : RunConfig → Type 0) (s t : Process crates)
      → IsInvariant crates (label_claim crates client Allowed) s
      → IsAnnounced crates client s
      → (run : Runs crates client Allowed s t) → IsCalm crates client run
      → IsHeard crates client run
      → IsAnnounced crates client t
  unfolding enqueue collect
  IsAnnounced-Runs Allowed s _ k h rests calm heard = h
  IsAnnounced-Runs Allowed s _ k h (steps t u r e) calm heard =
      IsAnnounced-Step Allowed t u
        (IsInvariant-Runs crates client (label_claim crates client Allowed)
          (label-IsClosed crates client Allowed) s t k r)
        (IsAnnounced-Runs Allowed s t k h r calm.0 heard.0) e calm.1 heard.1
  IsAnnounced-Runs Allowed s _ k h (disturbs t _ r (submits run_config key ok alive room)) calm
        heard =
      IsAnnounced-Runs Allowed s t k h r calm heard
  IsAnnounced-Runs Allowed s _ k h (disturbs t _ r (collects clock)) calm heard =
      λ address c url at has.
        elim (IsAnnounced-Runs Allowed s t k h r calm heard address c url at has) [
          | inl m ↦ inl (Any-append (Reports c.uuid url) t.events _ m)
          | inr m ↦ inr m
        ]

  init-IsAnnounced : (cpus : ℕ) → IsAnnounced crates client (init_with_factory crates cpus)
  unfolding init_with_factory
  init-IsAnnounced cpus address c url at has = cc

  -- From the start of the service, by a state that it comes to.
  pub Reachable-IsAnnounced :
      (Allowed : RunConfig → Type 0) (cpus : ℕ) (s t : Process crates)
      (reached : Reachable crates client Allowed cpus s)
      → IsCalm crates client reached
      → IsHeard crates client reached
      → (run : Runs crates client Allowed s t) → IsCalm crates client run
      → IsHeard crates client run
      → IsAnnounced crates client t
  Reachable-IsAnnounced Allowed cpus s t reached calm heard run calm' heard' =
      let claim = label_claim crates client Allowed in
      let closed = label-IsClosed crates client Allowed in
      let start = Reachable-IsInvariant crates client claim closed cpus _ rests in
      IsAnnounced-Runs Allowed s t (Reachable-IsInvariant crates client claim closed cpus s reached)
        (IsAnnounced-Runs Allowed _ s start (init-IsAnnounced cpus) reached calm heard) run calm'
        heard'
