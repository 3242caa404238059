-- ===== src/PageLoader/Service/Process/Unlost.antt =====
-- While no spawned task of page_loader_service.rs panics, a URL that a task owes a crawl stays owed
-- until it is settled: no step loses a command.
use mathlib.Core.List.{Memᴰ}
use tarantula.Base.{
  ℕ, ◌<◌, ◌≡◌, ◌⊎◌, ◌∙◌, refl, sym, ap, subst, inl, inr, List, ◌∷◌, some, Any, Any-append,
  Any-append_right, arith,
}
use tarantula.Crates.{Crates}
use tarantula.Responses.RunConfig.{RunConfig}
use tarantula.PageLoader.HttpClient.{HttpClient}
use tarantula.PageLoader.TaskContext.{TaskContext}
use tarantula.PageLoader.Service.{LoadPage}
use tarantula.PageLoader.Service.Process.{
  Process, Crawl, sending_first, PageLoaderServiceCommand, load_page_command, crawl_domain_command,
  enqueue, collect,
}
use tarantula.PageLoader.Service.Process.Steps.{
  Step, Runs, rests, steps, disturbs, receives, starts, stops, adds, advances, sends, reports, ends,
  fails, dies, submits, collects,
}
use tarantula.PageLoader.Service.Process.Picks.{Any-Takes}
use tarantula.PageLoader.Service.Process.Contexts.{put-other}
use tarantula.PageLoader.Service.Process.Covered.{IsCalmStep, IsCalm}
use tarantula.PageLoader.Service.Process.Settled.{Advances-IsGrown}
use tarantula.PageLoader.Service.Process.Owed.{OwesAt, Advances-OwesAt}
use tarantula.PageLoader.Service.Process.Pending.{
  IsCommand, Owes, IsPending, queued, first, running, IsOwed, advanced, ended,
}

module _ {W : Type 0} (crates : Crates) (client : HttpClient W) (address : ℕ)
    (load : LoadPage) where
  abbrev IsHere : PageLoaderServiceCommand → Type 0
  IsHere = IsCommand crates client address load

  abbrev IsOwing : TaskContext crates → Crawl → Type 0
  IsOwing = Owes crates client address load

  abbrev IsWaiting : TaskContext crates → Process crates → Type 0
  IsWaiting = IsPending crates client address load

  -- Nothing of the context is changed, and what is pending is kept or settled.
  stays :
      (s t : Process crates) (h : IsOwed crates client address load s)
      → t.contexts address ≡ some h.context
      → address < t.fresh
      → (IsWaiting h.context s → IsWaiting h.context t)
      → IsOwed crates client address load t
  stays s t h found drawn keep = record {
    context = h.context;
    found = found;
    drawn = drawn;
    state = elim h.state [ inl k ↦ inl k | inr k ↦ inr (keep k) ];
  }

  received :
      (c : TaskContext crates) (s : Process crates) (other : ℕ) (next : LoadPage)
      (channel : List PageLoaderServiceCommand)
      → s.channel ≡ load_page_command other next ∷ channel
      → Any IsHere s.channel
      → ((other ≡ address) × (next ≡ load)) ⊎ Any IsHere channel
  received c s other next channel e m = elim (subst (Any IsHere) e m) [
    | inl k ↦ inl (cc, cc)
    | inr k ↦ inr k
  ]

  asked :
      (s : Process crates) (run_config : RunConfig) (uuid : ℕ)
      (channel : List PageLoaderServiceCommand)
      → s.channel ≡ crawl_domain_command run_config uuid ∷ channel
      → Any IsHere s.channel
      → Any IsHere channel
  asked s run_config uuid channel e m = elim (subst (Any IsHere) e m) [ inl k ↦ cc | inr k ↦ k ]

  IsOwed-Step :
      (s t : Process crates)
      → IsOwed crates client address load s
      → (e : Step crates client s t) → IsCalmStep crates client e
      → IsOwed crates client address load t
  unfolding enqueue
  IsOwed-Step s _ h (receives other next channel l e) calm =
      stays s _ h h.found (omega (arith, h.drawn)) λ p. elim p [
        | queued m ↦ elim (received h.context s other next channel e m) [
          | inl own ↦ running (
              inl (
                own.0,
                (ap (λ (x : LoadPage). x.url) own.1, ap (λ (x : LoadPage). x.current_depth) own.1),
              ))
          | inr others ↦ queued others
        ]
        | first uuid k ↦ cc
        | running m ↦ running (inr m)
      ]
  IsOwed-Step s _ h (starts run_config key now channel c l e i) calm =
      stays s _ h
        (put-other crates s.contexts s.fresh c address (λ same. omega (arith, h.drawn, same))
          ∙ h.found)
        (omega (arith, h.drawn))
        λ p. elim p [
          | queued m ↦ queued (asked s run_config key channel e m)
          | first uuid k ↦ cc
          | running m ↦ running m
        ]
  IsOwed-Step s _ h (stops run_config key now channel l e i) calm = stays s _ h h.found h.drawn λ p.
      elim p [
        | queued m ↦ queued (asked s run_config key channel e m)
        | first uuid k ↦ cc
        | running m ↦ running m
      ]
  IsOwed-Step s _ h (adds other key next l room) calm = stays s _ h h.found h.drawn λ p. elim p [
    | queued m ↦ queued (Any-append IsHere s.channel _ m)
    | first uuid k ↦ queued (Any-append_right IsHere s.channel _ (inl (same k)))
    | running m ↦ running m
  ]
    where
      same :
          {uuid : ℕ}
          → s.loop ≡ sending_first address uuid load
          → load_page_command other next ≡ load_page_command address load
      same {uuid} k =
          let eq : sending_first other key next ≡ sending_first address uuid load = sym l ∙ k in cc
  IsOwed-Step s _ h (advances r rest c d stage t at a) calm =
      advanced crates client address load s r rest c d stage t at
        (Advances-IsGrown crates client r.command c d r.stage stage a)
        (Advances-OwesAt crates client r.command c d r.stage stage load a) h
  IsOwed-Step s _ h (sends r rest next loads page t e alive room) calm =
      stays s _ h h.found h.drawn λ p. elim p [
        | queued m ↦ queued (Any-append IsHere s.channel _ m)
        | first uuid k ↦ first uuid k
        | running m ↦ elim (Any-Takes (IsOwing h.context) r s.crawls rest t m) [
          | inl own ↦ elim (subst (OwesAt crates h.context load r.command) e own.1) [
            | Memᴰ.head k ↦ queued (Any-append_right IsHere s.channel _ (inl (rw (own.0, k) refl)))
            | Memᴰ.tail k ↦ running (inl (own.0, k))
          ]
          | inr others ↦ running (inr others)
        ]
      ]
  IsOwed-Step s _ h (reports r rest page is_lost t e) calm = stays s _ h h.found h.drawn λ p.
      elim p [
        | queued m ↦ queued m
        | first uuid k ↦ first uuid k
        | running m ↦ elim (Any-Takes (IsOwing h.context) r s.crawls rest t m) [
          | inl own ↦ elim (subst (OwesAt crates h.context load r.command) e own.1) [ ]
          | inr others ↦ running (inr others)
        ]
      ]
  IsOwed-Step s _ h (ends r rest c t at e) calm =
      ended crates client address load s r rest c t at e h
  IsOwed-Step s _ h (fails r rest next loads page t e gone) calm = absurd calm
  IsOwed-Step s _ h (dies r rest c t at p) calm = absurd calm

  pub IsOwed-Runs :
      (Allowed : RunConfig → Type 0) (s t : Process crates)
      → IsOwed crates client address load s
      → (run : Runs crates client Allowed s t) → IsCalm crates client run
      → IsOwed crates client address load t
  unfolding enqueue collect
  IsOwed-Runs Allowed s _ h rests calm = h
  IsOwed-Runs Allowed s _ h (steps t u r e) calm =
      IsOwed-Step t u (IsOwed-Runs Allowed s t h r calm.0) e calm.1
  IsOwed-Runs Allowed s _ h (disturbs t _ r (submits run_config key ok alive room)) calm =
      let k = IsOwed-Runs Allowed s t h r calm in
      stays t _ k k.found k.drawn λ p. elim p [
        | queued m ↦ queued (Any-append IsHere t.channel _ m)
        | first uuid l ↦ first uuid l
        | running m ↦ running m
      ]
  IsOwed-Runs Allowed s _ h (disturbs t _ r (collects clock)) calm =
      let k = IsOwed-Runs Allowed s t h r calm in
      stays t _ k k.found k.drawn
        λ p. elim p [ queued m ↦ queued m | first uuid l ↦ first uuid l | running m ↦ running m ]
