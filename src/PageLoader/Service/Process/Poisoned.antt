-- ===== src/PageLoader/Service/Process/Poisoned.antt =====
-- A request to page_loader_service.rs whose URL is not one: `DefaultTaskContext::init` unwraps it in
-- the loop itself.
use tarantula.Base.{
  ◌≡◌, ◌⊎◌, refl, sym, subst, ◌∙◌, inl, inr, ℕ, List, ◌∷◌, none, some, done, panic, Any, Any-append,
}
use tarantula.Base.Descent.{Eventually, Eventually-mono}
use tarantula.Crates.{Crates}
use tarantula.Responses.RunConfig.{RunConfig}
use tarantula.PageLoader.HttpClient.{HttpClient}
use tarantula.PageLoader.TaskContext
use tarantula.PageLoader.Service.Process.{
  Process, PageLoaderServiceCommand, load_page_command, crawl_domain_command, receiving,
  sending_first, stopped, enqueue,
}
use tarantula.PageLoader.Service.Process.Steps.{
  Step, Reachable, receives, starts, stops, adds, advances, sends, reports, ends, fails, dies,
}
use tarantula.PageLoader.Service.Process.Bounded.{IsLimited}
use tarantula.PageLoader.Service.Process.Stuck.{IsStuck}
use tarantula.PageLoader.Service.Process.Progress.{IsFinal, over, ended, stuck}
use tarantula.PageLoader.Service.Process.Final.{Reachable-IsFinal}

module _ (crates : Crates) (run_config : RunConfig) where
  -- The URL is no URI, or has no host.
  abbrev pub HasNoHost : Type 0
  HasNoHost =
      (crates.parse_uri run_config.url ≡ none)
      ⊎ ((uri : crates.Uri) × (crates.parse_uri run_config.url ≡ some uri)
          × (crates.host uri ≡ none))

  init-eq-panic : HasNoHost → (uuid now : ℕ) → TaskContext.init crates run_config uuid now ≡ panic
  unfolding TaskContext.init TaskContext.new
  init-eq-panic (inl e) uuid now = rw e refl
  init-eq-panic (inr (uri, e, h)) uuid now = rw (e, h) refl

module _ {W : Type 0} (crates : Crates) (client : HttpClient W) where
  -- The loop has ended in a panic, or waits for ever to send on its own full channel.
  abbrev pub IsGone : Process crates → Type 0
  IsGone t = (t.loop ≡ stopped) ⊎ IsStuck crates client t

module _ {W : Type 0} (crates : Crates) (client : HttpClient W) (run_config : RunConfig) (uuid : ℕ)
    (bad : HasNoHost crates run_config) where
  abbrev pub IsAsked : PageLoaderServiceCommand → Type 0
  IsAsked command = command ≡ crawl_domain_command run_config uuid

  -- The request waits in the channel, or the loop has ended.
  abbrev IsPoisoned : Process crates → Type 0
  IsPoisoned s = Any IsAsked s.channel ⊎ (s.loop ≡ stopped)

  behind :
      (command : PageLoaderServiceCommand) (channel : List PageLoaderServiceCommand)
      (s : Process crates)
      → s.channel ≡ command ∷ channel
      → s.loop ≡ receiving
      → IsPoisoned s
      → IsAsked command ⊎ Any IsAsked channel
  behind command channel s e l (inl m) = subst (Any IsAsked) e m
  behind command channel s e l (inr h) = let no : receiving ≡ stopped = sym l ∙ h in cc

  IsPoisoned-Step : (s t : Process crates) → IsPoisoned s → Step crates client s t → IsPoisoned t
  unfolding enqueue
  IsPoisoned-Step s _ h (receives address load channel l e) =
      elim (behind (load_page_command address load) channel s e l h) [ inl p ↦ cc | inr m ↦ inl m ]
  IsPoisoned-Step s _ h (starts other key now channel c l e i) =
      elim (behind (crawl_domain_command other key) channel s e l h) [
        | inl p ↦
            let same : run_config ≡ other = cc in
            let no : panic ≡ done c =
              sym (init-eq-panic crates run_config bad key now)
              ∙ subst (λ x. TaskContext.init crates x key now ≡ done c) (sym same) i in
            cc
        | inr m ↦ inl m
      ]
  IsPoisoned-Step s _ h (stops other key now channel l e i) = inr refl
  IsPoisoned-Step s _ (inl m) (adds address key load l room) =
      inl (Any-append IsAsked s.channel _ m)
  IsPoisoned-Step s _ (inr h) (adds address key load l room) =
      let no : sending_first address key load ≡ stopped = sym l ∙ h in cc
  IsPoisoned-Step s _ h (advances r rest c d stage t found a) = h
  IsPoisoned-Step s _ (inl m) (sends r rest load loads page t e alive room) =
      inl (Any-append IsAsked s.channel _ m)
  IsPoisoned-Step s _ (inr h) (sends r rest load loads page t e alive room) = absurd (alive h)
  IsPoisoned-Step s _ h (reports r rest page is_lost t e) = h
  IsPoisoned-Step s _ h (ends r rest c t found e) = h
  IsPoisoned-Step s _ h (fails r rest load loads page t e gone) = h
  IsPoisoned-Step s _ h (dies r rest c t found p) = h

  final-IsGone :
      (t : Process crates) → IsPoisoned t → IsFinal crates client t → IsGone crates client t
  final-IsGone t (inl m) (over l e o) = absurd (subst (Any IsAsked) e m)
  final-IsGone t (inr h) (over l e o) = inl h
  final-IsGone t h (ended l o) = inl l
  final-IsGone t h (stuck s) = inr s

  -- One request with a URL that is no URI, or has no host, takes the service down for all tasks: in
  -- every state that the service comes to with depth limits, if the request is anywhere in the
  -- channel, then whichever steps are made, the loop ends in a panic, unless it gets stuck on its own
  -- full channel before.
  pub Reachable-IsGone :
      (world : W) (cpus : ℕ) (s : Process crates)
      → Reachable crates client IsLimited cpus s
      → Any IsAsked s.channel
      → Eventually (Step crates client) (IsGone crates client) s
  Reachable-IsGone world cpus s reached m =
      Eventually-mono (Step crates client) IsPoisoned (IsFinal crates client) (IsGone crates client)
        IsPoisoned-Step final-IsGone s (inl m)
        (Reachable-IsFinal crates client world cpus s reached)
