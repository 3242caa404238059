-- ===== src/PageLoader/Service/Process/Halting.antt =====
-- A crawl with a depth limit ends: page_loader_service.rs makes finitely many steps.
use tarantula.Base.{ap, ℕ, ◌<◌, ◌≡◌, refl, subst, List, [], ◌∷◌, All, arith}
use tarantula.Base.Descent.{Falls, Halts, Halts-count}
use tarantula.Crates.{Crates}
use tarantula.PageLoader.HttpClient.{HttpClient}
use tarantula.PageLoader.TaskContext.{TaskContext}
use tarantula.PageLoader.Service.Process.{
  LoadPage, Process, Crawl, Stage, sending, reported, Takes, load_page_command, enqueue,
}
use tarantula.PageLoader.Service.Process.Steps.{
  Step, Reachable, receives, starts, stops, adds, advances, sends, reports, ends, fails, dies,
  Panics, fetch_panics, list_panics,
}
use tarantula.PageLoader.Service.Process.Picks.{All-Takes}
use tarantula.PageLoader.Service.Process.Limits.{IsInTime, IsBelow}
use tarantula.PageLoader.Service.Process.Bounded.{
  IsLimited, IsBounded, depth_claim, depth-IsClosed, Reachable-IsBounded,
}
use tarantula.PageLoader.Service.Process.Invariant.{
  IsGoodAt, IsSoundCrawl, IsSoundCommand, IsSoundLoop,
}
use tarantula.PageLoader.Service.Process.Preserved.{IsInvariant-Step}
use tarantula.PageLoader.PageCrawl.{PageCrawlCommand}
use tarantula.PageLoader.Service.Process.Weights.{
  at_level-zero, crawl_weight-stage, count, Falls-at, total, total-append, total-Takes,
  crawl_weight, command_weight, loop_weight, stage_weight, pending, pending-below, Advances-weight,
}

module _ {W : Type 0} (crates : Crates) (client : HttpClient W) where
  depth_lt :
      (s : Process crates)
      → IsBounded crates s
      → (address : ℕ) (load : LoadPage)
      → IsGoodAt crates (depth_claim crates) s.contexts address load
      → load.current_depth < 65_536
  depth_lt s h address load w = omega (arith, w.good, (h.fine address w.context w.found).1)

  crawl_depth_lt :
      (s : Process crates)
      → IsBounded crates s
      → (r : Crawl) (rest : List Crawl) → Takes r s.crawls rest
      → r.command.current_depth < 65_536
  crawl_depth_lt s h r rest t =
      let g =
        (All-Takes (IsSoundCrawl crates (depth_claim crates) s.contexts) r s.crawls rest t
          h.crawls).0 in
      omega (arith, g.sound.0, (h.fine r.address g.context g.found).1)

  Panics-weight :
      (command : PageCrawlCommand) (c : TaskContext crates) (stage : Stage)
      → Panics crates client c command stage
      → (0 < stage_weight stage) × ((level : ℕ) → pending level stage ≡ 0)
  Panics-weight command c _ (fetch_panics w e) = (omega arith, λ level. refl)
  Panics-weight command c _ (list_panics page e) = (omega arith, λ level. refl)

  falls :
      (s t : Process crates)
      → IsBounded crates s
      → IsBounded crates t
      → Step crates client s t
      → Falls 65_536 (count s) (count t)
  unfolding enqueue
  falls s _ h k (receives address load channel l e) =
      let q : All (IsSoundCommand crates (depth_claim crates) s.contexts)
          (load_page_command address load ∷ channel) =
        subst (All (IsSoundCommand crates (depth_claim crates) s.contexts)) e h.queued in
      Falls-at _ _ load.current_depth 11 10 (depth_lt s h address load q.0) (omega arith)
        (λ level le. omega (arith, ap (total (command_weight level)) e))
  falls s _ h k (starts run_config uuid now channel c l e i) =
      Falls-at _ _ 0 13 12 (omega arith) (omega arith)
        (λ level le. omega (arith, ap (total (command_weight level)) e, ap (loop_weight level) l))
  falls s _ h k (stops run_config uuid now channel l e i) =
      Falls-at _ _ 0 13 0 (omega arith) (omega arith) (λ level le. omega (
        arith,
        ap (total (command_weight level)) e,
        ap (loop_weight level) l,
        at_level-zero level 0,
      ))
  falls s _ h k (adds address uuid load l room) =
      Falls-at _ _ load.current_depth 12 11
        (depth_lt s h address load
          (subst (IsSoundLoop crates (depth_claim crates) s.contexts) l h.first))
        (omega arith)
        (λ level le. omega (
          arith,
          total-append (command_weight level) s.channel (load_page_command address load),
          ap (loop_weight level) l,
        ))
  falls s _ h k (advances r rest c d stage t found a) =
      let w = Advances-weight crates client r.command c d r.stage stage a in
      Falls-at _ _ r.command.current_depth (stage_weight r.stage) (stage_weight stage)
        (crawl_depth_lt s h r rest t) w.0
        (λ level le. omega (
          arith,
          w.1 level,
          total-Takes (crawl_weight level) r s.crawls rest t,
          pending-below k.crawls.0.context.task_config.maximum_depth r.command.current_depth level
              stage le k.crawls.0.sound.1,
        ))
  falls s _ h k (sends r rest load loads page t e alive room) =
      let g =
        (All-Takes (IsSoundCrawl crates (depth_claim crates) s.contexts) r s.crawls rest t
          h.crawls).0 in
      let m = g.context.task_config.maximum_depth in
      let i : All (IsBelow m r.command.current_depth) (load ∷ loads) =
        subst (IsInTime m r.command.current_depth) e g.sound.1 in
      Falls-at _ _ load.current_depth 12 11
        (omega (arith, i.0.1, (h.fine r.address g.context g.found).1)) (omega arith)
        (λ level le. omega (
          arith,
          total-Takes (crawl_weight level) r s.crawls rest t,
          crawl_weight-stage level r (sending (load ∷ loads) page) e,
          total-append (command_weight level) s.channel (load_page_command r.address load),
        ))
  falls s _ h k (reports r rest page is_lost t e) =
      Falls-at _ _ r.command.current_depth 3 1 (crawl_depth_lt s h r rest t) (omega arith)
        (λ level le. omega (
          arith,
          total-Takes (crawl_weight level) r s.crawls rest t,
          crawl_weight-stage level r (sending [] page) e,
        ))
  falls s _ h k (ends r rest c t found e) =
      Falls-at _ _ r.command.current_depth 1 0 (crawl_depth_lt s h r rest t) (omega arith)
        (λ level le. omega (
          arith,
          total-Takes (crawl_weight level) r s.crawls rest t,
          crawl_weight-stage level r reported e,
          at_level-zero level r.command.current_depth,
        ))
  falls s _ h k (fails r rest load loads page t e gone) =
      let g =
        (All-Takes (IsSoundCrawl crates (depth_claim crates) s.contexts) r s.crawls rest t
          h.crawls).0 in
      let m = g.context.task_config.maximum_depth in
      Falls-at _ _ r.command.current_depth 3 0 (crawl_depth_lt s h r rest t) (omega arith)
        (λ level le. omega (
          arith,
          total-Takes (crawl_weight level) r s.crawls rest t,
          crawl_weight-stage level r (sending (load ∷ loads) page) e,
          pending-below m r.command.current_depth level (sending (load ∷ loads) page) le
              (subst (IsInTime m r.command.current_depth) e g.sound.1),
          at_level-zero level r.command.current_depth,
        ))
  falls s _ h k (dies r rest c t found p) =
      let w = Panics-weight r.command c r.stage p in
      Falls-at _ _ r.command.current_depth (stage_weight r.stage) 0 (crawl_depth_lt s h r rest t)
        w.0
        (λ level le. omega (
          arith,
          total-Takes (crawl_weight level) r s.crawls rest t,
          w.1 level,
          at_level-zero level r.command.current_depth,
        ))

  -- If every crawl that is asked for has a depth limit, under 16 bits, then from every state that
  -- the service comes to, it makes only finitely many steps if no crawl is asked for and nothing is
  -- collected, whatever the pages are, however its tasks interleave and wherever they panic.
  pub Reachable-Halts :
      (cpus : ℕ) (s : Process crates)
      → Reachable crates client IsLimited cpus s
      → Halts (Step crates client) s
  Reachable-Halts cpus s reached =
      Halts-count (Step crates client) (IsBounded crates) count 65_536
        (λ t u h e.
          let k =
            IsInvariant-Step crates client (depth_claim crates) (depth-IsClosed crates client) t u h
              e in
          (k, falls t u h k e))
        s (Reachable-IsBounded crates client cpus s reached)
