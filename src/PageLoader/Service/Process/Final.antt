-- ===== src/PageLoader/Service/Process/Final.antt =====
-- What every run of page_loader_service.rs comes to.
use tarantula.Base.{ℕ, ◌≡◌, refl, ◌∙◌, arith}
use tarantula.Base.Descent.{Eventually, Eventually-halts}
use tarantula.Crates.{Crates}
use tarantula.Responses.RunConfig.{RunConfig}
use tarantula.PageLoader.HttpClient.{HttpClient}
use tarantula.PageLoader.Service.Process.{
  Process, init_with_factory, enqueue, collect, buffer_size_of,
}
use tarantula.PageLoader.Service.Process.Steps.{
  Step, Reachable, receives, starts, stops, adds, advances, sends, reports, ends, fails, dies, Runs,
  rests, steps, disturbs, Disturbs, submits, collects,
}
use tarantula.PageLoader.Service.Process.Stuck.{two-le-buffer_size_of}
use tarantula.PageLoader.Service.Process.Bounded.{
  IsLimited, IsBounded, depth_claim, depth-IsClosed, Reachable-IsBounded,
}
use tarantula.PageLoader.Service.Process.Preserved.{IsInvariant-Step}
use tarantula.PageLoader.Service.Process.Halting.{Reachable-Halts}
use tarantula.PageLoader.Service.Process.Progress.{IsFinal, progress}

module _ {W : Type 0} (crates : Crates) (client : HttpClient W) where
  buffer_size-Step : (s t : Process crates) → Step crates client s t → t.buffer_size ≡ s.buffer_size
  unfolding enqueue
  buffer_size-Step s _ (receives address load channel l e) = refl
  buffer_size-Step s _ (starts run_config uuid now channel c l e i) = refl
  buffer_size-Step s _ (stops run_config uuid now channel l e i) = refl
  buffer_size-Step s _ (adds address uuid load l room) = refl
  buffer_size-Step s _ (advances r rest c d stage t found a) = refl
  buffer_size-Step s _ (sends r rest load loads page t e alive room) = refl
  buffer_size-Step s _ (reports r rest page is_lost t e) = refl
  buffer_size-Step s _ (ends r rest c t found e) = refl
  buffer_size-Step s _ (fails r rest load loads page t e gone) = refl
  buffer_size-Step s _ (dies r rest c t found p) = refl

  buffer_size-Disturbs :
      (Allowed : RunConfig → Type 0) (s t : Process crates)
      → Disturbs crates client Allowed s t
      → t.buffer_size ≡ s.buffer_size
  unfolding enqueue collect
  buffer_size-Disturbs Allowed s _ (submits run_config uuid ok alive room) = refl
  buffer_size-Disturbs Allowed s _ (collects clock) = refl

  buffer_size-Runs :
      (Allowed : RunConfig → Type 0) (s t : Process crates)
      → Runs crates client Allowed s t
      → t.buffer_size ≡ s.buffer_size
  buffer_size-Runs Allowed s _ rests = refl
  buffer_size-Runs Allowed s _ (steps t u r e) =
      buffer_size-Step t u e ∙ buffer_size-Runs Allowed s t r
  buffer_size-Runs Allowed s _ (disturbs t u r e) =
      buffer_size-Disturbs Allowed t u e ∙ buffer_size-Runs Allowed s t r

  -- If every crawl that is asked for has a depth limit, under 16 bits, then from every state that
  -- the service comes to, whichever steps it makes, it comes to one in which no crawl is
  -- left and the channel is empty, or no crawl is left and the loop has ended in a panic, or the
  -- loop waits to send and the channel is full; until then there is always a step to make. No crawl
  -- is asked for and nothing is collected on the way.
  pub Reachable-IsFinal :
      (world : W) (cpus : ℕ) (s : Process crates)
      → Reachable crates client IsLimited cpus s
      → Eventually (Step crates client) (IsFinal crates client) s
  unfolding init_with_factory
  Reachable-IsFinal world cpus s reached =
      Eventually-halts (Step crates client) P (IsFinal crates client)
        (λ t u h e. (
          IsInvariant-Step crates client (depth_claim crates) (depth-IsClosed crates client) t u h.0
              e,
          buffer_size-Step t u e ∙ h.1,
        ))
        (λ t h.
          progress crates client world t h.0.kept.registered t.loop refl
            (omega (arith, h.1, two-le-buffer_size_of cpus)))
        s (Reachable-IsBounded crates client cpus s reached, buffer_size-Runs IsLimited _ s reached)
        (Reachable-Halts crates client cpus s reached)
    where
      P : Process crates → Type 0
      P t = IsBounded crates t × (t.buffer_size ≡ buffer_size_of cpus)
