-- ===== src/PageLoader/Service/Process/Collected.antt =====
-- The collector never drops a task of page_loader_service.rs while one of its commands runs.
use tarantula.Base.{
  ap, ℕ, suc, ◌≡◌, refl, sym, subst, ◌∙◌, true, List, ◌∷◌, none, some, All, All-mono, All-append,
  arith,
}
use tarantula.Crates.{Crates}
use tarantula.Responses.RunConfig.{RunConfig}
use tarantula.PageLoader.HttpClient.{HttpClient}
use tarantula.PageLoader.TaskContext.{TaskContext}
use tarantula.PageLoader.TaskContext.Registrar.{is_registered}
use tarantula.PageLoader.TaskManager.{lookup}
use tarantula.PageLoader.TaskManager.Collection.{insert-IsDistinct, retain-IsDistinct}
use tarantula.PageLoader.Service.Process.{
  Process, Crawl, sending, reported, Takes, enqueue, collect, init_with_factory, load_page_command,
}
use tarantula.PageLoader.Service.Process.Steps.{
  Step, Disturbs, Runs, Reachable, rests, steps, disturbs, receives, starts, stops, adds, advances,
  sends, reports, ends, fails, dies, submits, collects,
}
use tarantula.PageLoader.Service.Process.Tasks.{lookup-collect}
use tarantula.PageLoader.Service.Process.Picks.{All-Takes}
use tarantula.PageLoader.Service.Process.Registered.{is_begun, Advances-registered, Advances-begun}
use tarantula.PageLoader.Service.Process.Ordered.{IsOrdered-draw, IsOrdered-more}
use tarantula.PageLoader.Service.Process.Contexts.{
  IsRegistered, IsAddressed, IsLoopAddressed, put-same, IsAddressed-put, IsRegistered-put,
}
use tarantula.PageLoader.Service.Process.Kept.{
  IsKept, IsKept-put, IsKept-stage, IsKept-over, IsKept-end, IsUnmade-put,
}

module _ {W : Type 0} (crates : Crates) (client : HttpClient W) where
  pub IsKept-Step :
      (s t : Process crates) → IsKept crates s → Step crates client s t → IsKept crates t
  unfolding enqueue
  IsKept-Step s _ h (receives address load channel l e) =
      let q : All (IsAddressed crates s.contexts) (load_page_command address load ∷ channel) =
        subst (All (IsAddressed crates s.contexts)) e h.queued in
      record {
        ordered = IsOrdered-draw s.fresh _ s.crawls refl h.ordered;
        registered =
            (record { context = q.0.0; found = q.0.1; registered = λ b. cc }, h.registered);
        queued = q.1;
        first = h.first;
        unmade = λ a le. h.unmade a (omega (arith, le));
        tasks = h.tasks;
      }
  IsKept-Step s _ h (starts run_config uuid now channel c l e i) =
      let at = s.contexts in
      record {
        ordered = IsOrdered-more s.fresh s.crawls h.ordered;
        registered =
            All-mono
              (λ r k.
                IsRegistered-put crates at s.fresh c r
                  (λ c' found q.
                    (let no : none ≡ some c' = sym (h.unmade s.fresh (omega arith)) ∙ found in cc))
                  k)
              s.crawls h.registered;
        queued =
            All-mono (IsAddressed-put crates at s.fresh c) channel
              (subst (All (IsAddressed crates at)) e h.queued).1;
        first = (c, put-same crates at s.fresh c);
        unmade =
            IsUnmade-put crates at s.fresh (suc s.fresh) c (λ a le. h.unmade a (omega (arith, le)))
              (omega arith);
        tasks = h.tasks;
      }
  IsKept-Step s _ h (stops run_config uuid now channel l e i) = record {
    ordered = h.ordered;
    registered = h.registered;
    queued = (subst (All (IsAddressed crates s.contexts)) e h.queued).1;
    first = tt;
    unmade = h.unmade;
    tasks = h.tasks;
  }
  IsKept-Step s _ h (adds address uuid load l room) = record {
    ordered = h.ordered;
    registered = h.registered;
    queued =
        All-append _ s.channel _ h.queued (subst (IsLoopAddressed crates s.contexts) l h.first, tt);
    first = tt;
    unmade = h.unmade;
    tasks = insert-IsDistinct uuid address s.tasks h.tasks;
  }
  IsKept-Step s _ h (advances r rest c d stage t found a) =
      let g = All-Takes (IsRegistered crates s.contexts) r s.crawls rest t h.registered in
      let k : some g.0.context ≡ some c = sym g.0.found ∙ found in
      let same : g.0.context ≡ c = cc in
      IsKept-put crates s h r rest c d stage t found
        (λ uuid other k. Advances-registered crates client r.command c d r.stage stage uuid a k)
        (Advances-begun crates client r.command c d r.stage stage a (λ b.
          subst (λ (y : TaskContext crates). is_registered r.command.uuid y.crawl_commands ≡ true)
            same (g.0.registered b)))
  IsKept-Step s _ h (sends r rest load loads page t e alive room) =
      let g = All-Takes (IsRegistered crates s.contexts) r s.crawls rest t h.registered in
      IsKept-stage crates s h r rest (sending loads page) _ s.events t (ap is_begun e)
        (All-append _ s.channel _ h.queued ((g.0.context, g.0.found), tt))
  IsKept-Step s _ h (reports r rest page is_lost t e) =
      IsKept-stage crates s h r rest reported s.channel _ t (ap is_begun e) h.queued
  IsKept-Step s _ h (ends r rest c t found e) = IsKept-end crates s h r rest c t found
  IsKept-Step s _ h (fails r rest load loads page t e gone) = IsKept-over crates s h r rest t
  IsKept-Step s _ h (dies r rest c t found p) = IsKept-over crates s h r rest t

  pub IsKept-Disturbs :
      (Allowed : RunConfig → Type 0) (s t : Process crates)
      → IsKept crates s
      → Disturbs crates client Allowed s t
      → IsKept crates t
  unfolding enqueue collect
  IsKept-Disturbs Allowed s _ h (submits run_config uuid ok alive room) = record {
    ordered = h.ordered;
    registered = h.registered;
    queued = All-append _ s.channel _ h.queued (tt, tt);
    first = h.first;
    unmade = h.unmade;
    tasks = h.tasks;
  }
  IsKept-Disturbs Allowed s _ h (collects clock) = record {
    ordered = h.ordered;
    registered = h.registered;
    queued = h.queued;
    first = h.first;
    unmade = h.unmade;
    tasks = retain-IsDistinct _ s.tasks h.tasks;
  }

  pub IsKept-Runs :
      (Allowed : RunConfig → Type 0) (s t : Process crates)
      → IsKept crates s
      → Runs crates client Allowed s t
      → IsKept crates t
  IsKept-Runs Allowed s _ h rests = h
  IsKept-Runs Allowed s _ h (steps t u r e) = IsKept-Step t u (IsKept-Runs Allowed s t h r) e
  IsKept-Runs Allowed s _ h (disturbs t u r e) =
      IsKept-Disturbs Allowed t u (IsKept-Runs Allowed s t h r) e

  pub init-IsKept : (cpus : ℕ) → IsKept crates (init_with_factory crates cpus)
  unfolding init_with_factory
  init-IsKept cpus = record {
    ordered = record { below = tt; distinct = tt };
    registered = tt;
    queued = tt;
    first = tt;
    unmade = λ address le. refl;
    tasks = tt;
  }

  -- Whatever the interleaving, a collection of the service keeps every task of which a command runs
  -- that has registered itself: in every state that the service comes to, the task manager finds
  -- after the collection under its key what it found before.
  pub Reachable-collect :
      (Allowed : RunConfig → Type 0) (cpus : ℕ) (s : Process crates) (r : Crawl) (rest : List Crawl)
      (clock : ℕ → ℕ) (key : ℕ)
      → Reachable crates client Allowed cpus s
      → Takes r s.crawls rest
      → is_begun r.stage ≡ true
      → lookup key s.tasks ≡ some r.address
      → lookup key (collect crates clock s).tasks ≡ some r.address
  Reachable-collect Allowed cpus s r rest clock key reached t begun e =
      let h = IsKept-Runs Allowed _ s (init-IsKept cpus) reached in
      let g = (All-Takes (IsRegistered crates s.contexts) r s.crawls rest t h.registered).0 in
      lookup-collect crates clock s key r.address r.command.uuid g.context h.tasks e g.found
        (g.registered begun)
