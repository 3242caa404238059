-- ===== src/PageLoader/Service/Process/Leaked.antt =====
-- A spawned task of page_loader_service.rs that panics never unregisters its command.
use tarantula.Base.{
  ap, ℕ, ◌<◌, ◌≡◌, ◌≢◌, refl, sym, subst, ◌∙◌, inl, inr, true, List, none, some, All, arith, ◌==◌,
  ==_iff, Bool-cases,
}
use tarantula.Crates.{Crates}
use tarantula.Responses.RunConfig.{RunConfig}
use tarantula.PageLoader.HttpClient.{HttpClient}
use tarantula.PageLoader.TaskContext.{TaskContext, unregister_crawl_command}
use tarantula.PageLoader.TaskContext.Registrar.{is_registered, is_registered-retain}
use tarantula.PageLoader.PageCrawl.{PageCrawlCommand}
use tarantula.PageLoader.TaskManager.{lookup}
use tarantula.PageLoader.Service.Process.{Process, Crawl, Stage, Takes, put, enqueue, collect}
use tarantula.PageLoader.Service.Process.Steps.{
  Step, Runs, Reachable, rests, steps, disturbs, receives, starts, stops, adds, advances, sends,
  reports, ends, fails, dies, submits, collects, Panics, fetch_panics, list_panics,
}
use tarantula.PageLoader.Service.Process.Picks.{All-Takes}
use tarantula.PageLoader.Service.Process.Ordered.{IsOther, IsOrdered-Takes}
use tarantula.PageLoader.Service.Process.Registered.{is_begun, Advances-registered}
use tarantula.PageLoader.Service.Process.Contexts.{Contexts, IsRegistered, put-other}
use tarantula.PageLoader.Service.Process.Kept.{IsKept}
use tarantula.PageLoader.Service.Process.Tasks.{lookup-collect}
use tarantula.PageLoader.Service.Process.Collected.{
  IsKept-Step, IsKept-Disturbs, IsKept-Runs, init-IsKept,
}

none-ne-some : {crates : Crates} (c : TaskContext crates) → none ≢ some c
none-ne-some c e = cc

module _ {W : Type 0} (crates : Crates) (client : HttpClient W) (address uuid : ℕ) where
  abbrev HasCommand : Contexts crates → Type 0
  HasCommand contexts =
      (c : TaskContext crates) × (contexts address ≡ some c)
      × (is_registered uuid c.crawl_commands ≡ true)

  -- The command is registered at the address, and no crawl has it.
  pub record IsLeaked (s : Process crates) : Type 0 where
    pub kept : IsKept crates s
    pub drawn : uuid < s.fresh
    pub gone : All (IsOther uuid) s.crawls
    pub held : HasCommand s.contexts

  HasCommand-put :
      (contexts : Contexts crates) (other : ℕ) (c d : TaskContext crates)
      → contexts other ≡ some c
      → (is_registered uuid c.crawl_commands ≡ true → is_registered uuid d.crawl_commands ≡ true)
      → HasCommand contexts
      → HasCommand (put crates contexts other d)
  unfolding put
  HasCommand-put contexts other c d at keep (e, found, registered) =
      elim (Bool-cases (other == address)) [
        | inl hit ↦
            let same : some c ≡ some e =
              sym at ∙ ap contexts ((==_iff other address).0 hit) ∙ found in
            let eq : c ≡ e = cc in
            (
              d,
              rw hit refl,
              keep (
                  subst (λ (x : TaskContext crates). is_registered uuid x.crawl_commands ≡ true)
                    (sym eq) registered),
            )
        | inr miss ↦ (e, rw miss found, registered)
      ]

  unmade : (s : Process crates) → IsLeaked s → s.fresh ≢ address
  unmade s h same =
      let empty : none ≡ some h.held.0 =
        sym (h.kept.unmade address (omega (arith, same))) ∙ h.held.1 in
      none-ne-some h.held.0 empty

  taken :
      (s : Process crates) (r : Crawl) (rest : List Crawl)
      → Takes r s.crawls rest
      → IsLeaked s
      → IsOther uuid r × All (IsOther uuid) rest
  taken s r rest t h = All-Takes (IsOther uuid) r s.crawls rest t h.gone

  IsLeaked-Step : (s t : Process crates) → IsLeaked s → Step crates client s t → IsLeaked t
  unfolding enqueue unregister_crawl_command
  IsLeaked-Step s _ h (receives other load channel l e) = record {
    kept = IsKept-Step crates client s _ h.kept (receives other load channel l e);
    drawn = omega (arith, h.drawn);
    gone = ((λ same. omega (arith, h.drawn, same)), h.gone);
    held = h.held;
  }
  IsLeaked-Step s _ h (starts run_config key now channel c l e i) = record {
    kept = IsKept-Step crates client s _ h.kept (starts run_config key now channel c l e i);
    drawn = omega (arith, h.drawn);
    gone = h.gone;
    held =
        let old = h.held in
        (
          old.0,
          put-other crates s.contexts s.fresh c address (λ same. unmade s h same) ∙ old.1,
          old.2,
        );
  }
  IsLeaked-Step s _ h (stops run_config key now channel l e i) = record {
    kept = IsKept-Step crates client s _ h.kept (stops run_config key now channel l e i);
    drawn = h.drawn;
    gone = h.gone;
    held = h.held;
  }
  IsLeaked-Step s _ h (adds other key load l room) = record {
    kept = IsKept-Step crates client s _ h.kept (adds other key load l room);
    drawn = h.drawn;
    gone = h.gone;
    held = h.held;
  }
  IsLeaked-Step s _ h (advances r rest c d stage t found a) = record {
    kept = IsKept-Step crates client s _ h.kept (advances r rest c d stage t found a);
    drawn = h.drawn;
    gone = taken s r rest t h;
    held =
        HasCommand-put s.contexts r.address c d found
          (Advances-registered crates client r.command c d r.stage stage uuid a) h.held;
  }
  IsLeaked-Step s _ h (sends r rest load loads page t e alive room) = record {
    kept = IsKept-Step crates client s _ h.kept (sends r rest load loads page t e alive room);
    drawn = h.drawn;
    gone = taken s r rest t h;
    held = h.held;
  }
  IsLeaked-Step s _ h (reports r rest page is_lost t e) = record {
    kept = IsKept-Step crates client s _ h.kept (reports r rest page is_lost t e);
    drawn = h.drawn;
    gone = taken s r rest t h;
    held = h.held;
  }
  IsLeaked-Step s _ h (ends r rest c t found e) = record {
    kept = IsKept-Step crates client s _ h.kept (ends r rest c t found e);
    drawn = h.drawn;
    gone = (taken s r rest t h).1;
    held =
        HasCommand-put s.contexts r.address c (unregister_crawl_command crates c r.command.uuid)
          found
          (λ k.
            is_registered-retain uuid r.command.uuid c.crawl_commands
              (λ same. (taken s r rest t h).0 (sym same))
            ∙ k)
          h.held;
  }
  IsLeaked-Step s _ h (fails r rest load loads page t e open_end) = record {
    kept = IsKept-Step crates client s _ h.kept (fails r rest load loads page t e open_end);
    drawn = h.drawn;
    gone = (taken s r rest t h).1;
    held = h.held;
  }
  IsLeaked-Step s _ h (dies r rest c t found p) = record {
    kept = IsKept-Step crates client s _ h.kept (dies r rest c t found p);
    drawn = h.drawn;
    gone = (taken s r rest t h).1;
    held = h.held;
  }

  IsLeaked-Runs :
      (Allowed : RunConfig → Type 0) (s t : Process crates)
      → IsLeaked s
      → Runs crates client Allowed s t
      → IsLeaked t
  unfolding enqueue collect
  IsLeaked-Runs Allowed s _ h rests = h
  IsLeaked-Runs Allowed s _ h (steps t u r e) = IsLeaked-Step t u (IsLeaked-Runs Allowed s t h r) e
  IsLeaked-Runs Allowed s _ h (disturbs t _ r (submits run_config key ok alive room)) =
      let k = IsLeaked-Runs Allowed s t h r in
      record {
        kept =
            IsKept-Disturbs crates client Allowed t _ k.kept (submits run_config key ok alive room);
        drawn = k.drawn;
        gone = k.gone;
        held = k.held;
      }
  IsLeaked-Runs Allowed s _ h (disturbs t _ r (collects clock)) =
      let k = IsLeaked-Runs Allowed s t h r in
      record {
        kept = IsKept-Disturbs crates client Allowed t _ k.kept (collects clock);
        drawn = k.drawn;
        gone = k.gone;
        held = k.held;
      }

module _ {W : Type 0} (crates : Crates) (client : HttpClient W) where
  Panics-begun :
      (command : PageCrawlCommand) (c : TaskContext crates) (stage : Stage)
      → Panics crates client c command stage
      → is_begun stage ≡ true
  Panics-begun command c _ (fetch_panics w e) = refl
  Panics-begun command c _ (list_panics page e) = refl

  -- A task leaks: if one of its spawned tasks panics, in any state that the service comes to, then
  -- in every run from there no collection drops the task from under its key, whatever the time.
  pub Runs-leaked :
      (Allowed : RunConfig → Type 0) (cpus : ℕ) (s u : Process crates) (r : Crawl)
      (rest : List Crawl) (c : TaskContext crates) (clock : ℕ → ℕ) (key : ℕ)
      → Reachable crates client Allowed cpus s
      → Takes r s.crawls rest
      → s.contexts r.address ≡ some c
      → Panics crates client c r.command r.stage
      → Runs crates client Allowed (record s { crawls = rest }) u
      → lookup key u.tasks ≡ some r.address
      → lookup key (collect crates clock u).tasks ≡ some r.address
  Runs-leaked Allowed cpus s u r rest c clock key reached t found p run e =
      let h = IsKept-Runs crates client Allowed _ s (init-IsKept crates client cpus) reached in
      let g = (All-Takes (IsRegistered crates s.contexts) r s.crawls rest t h.registered).0 in
      let start : IsLeaked crates client r.address r.command.uuid (record s { crawls = rest }) =
        record {
          kept = IsKept-Step crates client s _ h (dies r rest c t found p);
          drawn = (All-Takes (λ x. x.command.uuid < s.fresh) r s.crawls rest t h.ordered.below).0;
          gone = (IsOrdered-Takes s.fresh r s.crawls rest t h.ordered).0;
          held = (g.context, g.found, g.registered (Panics-begun r.command c r.stage p));
        } in
      let k = IsLeaked-Runs crates client r.address r.command.uuid Allowed _ u start run in
      lookup-collect crates clock u key r.address r.command.uuid k.held.0 k.kept.tasks e k.held.1
        k.held.2
