-- ===== src/PageLoader/Service/Process/Preserved.antt =====
-- A claim that each step of one command keeps is an invariant of page_loader_service.rs.
use tarantula.Base.{ℕ, refl, subst, ◌∷◌, All, All-mono, All-append}
use tarantula.Crates.{Crates}
use tarantula.PageLoader.HttpClient.{HttpClient}
use tarantula.PageLoader.TaskContext.{unregister_crawl_command}
use tarantula.PageLoader.Service.Process.{
  Process, load_page_command, crawl_domain_command, enqueue, collect, init_with_factory,
}
use tarantula.PageLoader.Service.Process.Steps.{
  Step, Disturbs, Runs, Reachable, rests, steps, disturbs, receives, starts, stops, adds, advances,
  sends, reports, ends, fails, dies, submits, collects,
}
use tarantula.PageLoader.Service.Process.Picks.{All-Takes}
use tarantula.PageLoader.Service.Process.Contexts.{put-same}
use tarantula.PageLoader.Service.Process.Collected.{IsKept-Step, IsKept-Disturbs, init-IsKept}
use tarantula.PageLoader.Service.Process.Invariant.{
  IsSameTask, Advances-IsSameTask, Claim, IsClosed, IsSoundCrawl, IsSoundCommand, IsSoundLoop,
  IsInvariant,
}
use tarantula.PageLoader.Service.Process.Replaced.{
  IsSoundCrawl-put, IsSoundCommand-put, IsSoundLoop-put, fine-put, same_as, unmade, put_back,
}

module _ {W : Type 0} (crates : Crates) (client : HttpClient W) (k : Claim crates)
    (closed : IsClosed crates client k) where
  pub IsInvariant-Step :
      (s t : Process crates)
      → IsInvariant crates k s
      → Step crates client s t
      → IsInvariant crates k t
  unfolding enqueue unregister_crawl_command
  IsInvariant-Step s _ h (receives address load channel l e) =
      let q : All (IsSoundCommand crates k s.contexts) (load_page_command address load ∷ channel) =
        subst (All (IsSoundCommand crates k s.contexts)) e h.queued in
      record {
        kept = IsKept-Step crates client s _ h.kept (receives address load channel l e);
        crawls = (
          record {
            context = q.0.context;
            found = q.0.found;
            sound = closed.spawn q.0.context load s.fresh q.0.good;
          },
          h.crawls,
        );
        queued = q.1;
        first = h.first;
        fine = h.fine;
      }
  IsInvariant-Step s _ h (starts run_config uuid now channel c l e i) =
      let q : All (IsSoundCommand crates k s.contexts)
          (crawl_domain_command run_config uuid ∷ channel) =
        subst (All (IsSoundCommand crates k s.contexts)) e h.queued in
      let f = closed.first run_config uuid now c q.0 i in
      let same = unmade crates client k closed s h c in
      record {
        kept = IsKept-Step crates client s _ h.kept (starts run_config uuid now channel c l e i);
        crawls =
            All-mono (IsSoundCrawl-put crates client k closed s.contexts s.fresh c same) s.crawls
              h.crawls;
        queued =
            All-mono (IsSoundCommand-put crates client k closed s.contexts s.fresh c same) channel
              q.1;
        first = record { context = c; found = put-same crates s.contexts s.fresh c; good = f.1 };
        fine = fine-put crates client k closed s.contexts s.fresh c same h.fine f.0;
      }
  IsInvariant-Step s _ h (stops run_config uuid now channel l e i) = record {
    kept = IsKept-Step crates client s _ h.kept (stops run_config uuid now channel l e i);
    crawls = h.crawls;
    queued = (subst (All (IsSoundCommand crates k s.contexts)) e h.queued).1;
    first = tt;
    fine = h.fine;
  }
  IsInvariant-Step s _ h (adds address uuid load l room) = record {
    kept = IsKept-Step crates client s _ h.kept (adds address uuid load l room);
    crawls = h.crawls;
    queued =
        All-append _ s.channel _ h.queued (subst (IsSoundLoop crates k s.contexts) l h.first, tt);
    first = tt;
    fine = h.fine;
  }
  IsInvariant-Step s _ h (advances r rest c d stage t found a) =
      let (at, others) = put_back crates client k closed s h r rest c t found in
      let task = Advances-IsSameTask crates client r.command c d r.stage stage a in
      let same = same_as crates client k closed s.contexts r.address c d found task in
      let fine = h.fine r.address c found in
      record {
        kept = IsKept-Step crates client s _ h.kept (advances r rest c d stage t found a);
        crawls = (
          record {
            context = d;
            found = put-same crates s.contexts r.address d;
            sound = closed.advance r.command c d r.stage stage fine a at;
          },
          All-mono (IsSoundCrawl-put crates client k closed s.contexts r.address d same) rest
              others,
        );
        queued =
            All-mono (IsSoundCommand-put crates client k closed s.contexts r.address d same)
              s.channel h.queued;
        first = IsSoundLoop-put crates client k closed s.contexts r.address d same s.loop h.first;
        fine =
            fine-put crates client k closed s.contexts r.address d same h.fine
              (closed.fine_stable c d task fine);
      }
  IsInvariant-Step s _ h (sends r rest load loads page t e alive room) =
      let g = All-Takes (IsSoundCrawl crates k s.contexts) r s.crawls rest t h.crawls in
      let i =
        closed.send g.0.context r.command load loads page
          (subst (k.IsAt g.0.context r.command) e g.0.sound) in
      record {
        kept = IsKept-Step crates client s _ h.kept (sends r rest load loads page t e alive room);
        crawls = (record { context = g.0.context; found = g.0.found; sound = i.1 }, g.1);
        queued =
            All-append _ s.channel _ h.queued
              (record { context = g.0.context; found = g.0.found; good = i.0 }, tt);
        first = h.first;
        fine = h.fine;
      }
  IsInvariant-Step s _ h (reports r rest page is_lost t e) =
      let g = All-Takes (IsSoundCrawl crates k s.contexts) r s.crawls rest t h.crawls in
      let i =
        closed.report g.0.context r.command page
          (subst (k.IsAt g.0.context r.command) e g.0.sound) in
      record {
        kept = IsKept-Step crates client s _ h.kept (reports r rest page is_lost t e);
        crawls = (record { context = g.0.context; found = g.0.found; sound = i }, g.1);
        queued = h.queued;
        first = h.first;
        fine = h.fine;
      }
  IsInvariant-Step s _ h (ends r rest c t found e) =
      let (at, others) = put_back crates client k closed s h r rest c t found in
      let d = unregister_crawl_command crates c r.command.uuid in
      let task : IsSameTask c d = record { config = refl; checker = refl; key = refl } in
      let same = same_as crates client k closed s.contexts r.address c d found task in
      record {
        kept = IsKept-Step crates client s _ h.kept (ends r rest c t found e);
        crawls =
            All-mono (IsSoundCrawl-put crates client k closed s.contexts r.address d same) rest
              others;
        queued =
            All-mono (IsSoundCommand-put crates client k closed s.contexts r.address d same)
              s.channel h.queued;
        first = IsSoundLoop-put crates client k closed s.contexts r.address d same s.loop h.first;
        fine =
            fine-put crates client k closed s.contexts r.address d same h.fine
              (closed.fine_stable c d task (h.fine r.address c found));
      }
  IsInvariant-Step s _ h (fails r rest load loads page t e gone) = record {
    kept = IsKept-Step crates client s _ h.kept (fails r rest load loads page t e gone);
    crawls = (All-Takes _ r s.crawls rest t h.crawls).1;
    queued = h.queued;
    first = h.first;
    fine = h.fine;
  }
  IsInvariant-Step s _ h (dies r rest c t found p) = record {
    kept = IsKept-Step crates client s _ h.kept (dies r rest c t found p);
    crawls = (All-Takes _ r s.crawls rest t h.crawls).1;
    queued = h.queued;
    first = h.first;
    fine = h.fine;
  }

  IsInvariant-Disturbs :
      (s t : Process crates)
      → IsInvariant crates k s
      → Disturbs crates client k.Wanted s t
      → IsInvariant crates k t
  unfolding enqueue collect
  IsInvariant-Disturbs s _ h (submits run_config uuid ok alive room) = record {
    kept =
        IsKept-Disturbs crates client k.Wanted s _ h.kept (submits run_config uuid ok alive room);
    crawls = h.crawls;
    queued = All-append _ s.channel _ h.queued (ok, tt);
    first = h.first;
    fine = h.fine;
  }
  IsInvariant-Disturbs s _ h (collects clock) = record {
    kept = IsKept-Disturbs crates client k.Wanted s _ h.kept (collects clock);
    crawls = h.crawls;
    queued = h.queued;
    first = h.first;
    fine = h.fine;
  }

  pub IsInvariant-Runs :
      (s t : Process crates)
      → IsInvariant crates k s
      → Runs crates client k.Wanted s t
      → IsInvariant crates k t
  IsInvariant-Runs s _ h rests = h
  IsInvariant-Runs s _ h (steps t u r e) = IsInvariant-Step t u (IsInvariant-Runs s t h r) e
  IsInvariant-Runs s _ h (disturbs t u r e) = IsInvariant-Disturbs t u (IsInvariant-Runs s t h r) e

  pub Reachable-IsInvariant :
      (cpus : ℕ) (s : Process crates)
      → Reachable crates client k.Wanted cpus s
      → IsInvariant crates k s
  unfolding init_with_factory
  Reachable-IsInvariant cpus s reached =
      IsInvariant-Runs (init_with_factory crates cpus) s
        (record {
          kept = init-IsKept crates client cpus;
          crawls = tt;
          queued = tt;
          first = tt;
          fine = λ address c e. cc;
        })
        reached
