-- ===== src/PageLoader/Service/Process/Progress.antt =====
-- When page_loader_service.rs can make a step, and what its runs come to.
use tarantula.Base.{
  ap, ◌<◌, ◌≡◌, ◌≢◌, ◌⊎◌, refl, sym, subst, inl, inr, List, [], ◌∷◌, none, some, Outcome-cases, All,
  arith, length, Bool, ltb, Bool-cases,
}
use tarantula.Crates.{Crates}
use tarantula.Responses.PageResponse.{PageResponse}
use tarantula.PageLoader.HttpClient.{HttpClient}
use tarantula.PageLoader.TaskContext
use tarantula.PageLoader.TaskContext.{TaskContext}
use tarantula.PageLoader.PageCrawl.{
  Crawlability, already_known, already_tasked, crawlable, restricted_by_robots, max_depth_reached,
  perform_crawl_internal,
}
use tarantula.PageLoader.Service.{loads_of}
use tarantula.PageLoader.Service.Process.{
  Process, Crawl, Stage, spawned, registered, loading, verified, tasked, crawled, known, sending,
  reported, Takes, Loop, receiving, sending_first, stopped, load_page_command, crawl_domain_command,
  PageLoaderServiceCommand, HasRoom,
}
use tarantula.PageLoader.Service.Process.Steps.{
  Step, receives, starts, stops, adds, advances, sends, reports, ends, fails, dies, fetch_panics,
  list_panics, Advances, Panics, registers, touches, verifies, tasks, fetches, refuses, knows,
  skips, lists,
}
use tarantula.PageLoader.Service.Process.Contexts.{IsRegistered}
use tarantula.PageLoader.Service.Process.Refused.{crawl_as-answers}
use tarantula.PageLoader.Service.Process.Stuck.{IsStuck}

module _ {W : Type 0} (crates : Crates) (client : HttpClient W) where
  -- Nothing is left to do, or the loop has ended in a panic, or it is stuck.
  pub data IsFinal (s : Process crates) : Type 0 where
    over : s.loop ≡ receiving → s.channel ≡ [] → s.crawls ≡ [] → IsFinal s
    ended : s.loop ≡ stopped → s.crawls ≡ [] → IsFinal s
    stuck : IsStuck crates client s → IsFinal s

module _ {W : Type 0} (crates : Crates) (client : HttpClient W) (world : W) where
  abbrev pub CanStep : Process crates → Type 0
  CanStep s = (t : Process crates) × Step crates client s t

  -- A command can be sent, or the attempt fails at once.
  abbrev CanSend : Process crates → Type 0
  CanSend s = ((s.loop ≢ stopped) × HasRoom crates s) ⊎ (s.loop ≡ stopped)

  module _ (s : Process crates) (r : Crawl) (rest : List Crawl) (c : TaskContext crates)
      (e : s.crawls ≡ r ∷ rest) (found : s.contexts r.address ≡ some c) where
    taken : Takes r s.crawls rest
    taken = subst (λ xs. Takes r xs rest) (sym e) (Takes.here rest)

    advance :
        (from : Stage)
        → r.stage ≡ from
        → {d : TaskContext crates} {stage : Stage} → Advances crates client c r.command from d stage
        → CanStep s
    advance from at {d} {stage} a = (
      _,
      advances r rest c d stage taken found
          (subst (λ x. Advances crates client c r.command x d stage) (sym at) a),
    )

    die : (from : Stage) → r.stage ≡ from → Panics crates client c r.command from → CanStep s
    die from at p =
        (_, dies r rest c taken found (subst (Panics crates client c r.command) (sym at) p))

    refuse_step :
        (verdict : Crawlability) → r.stage ≡ verified verdict → verdict ≢ crawlable → CanStep s
    refuse_step verdict at n =
        let a =
          crawl_as-answers crates client c r.command c.task_config.robots_txt_info_url verdict
            c.uuid world n in
        advance (verified verdict) at (refuses verdict world a.2 a.0 a.1 n a.3)

    fetch_step : r.stage ≡ tasked → CanStep s
    fetch_step at =
        elim (Outcome-cases (
          perform_crawl_internal crates client c r.command c.task_config.robots_txt_info_url c.uuid
            world)) [
              | inl p ↦ die tasked at (fetch_panics world p)
              | inr ((page, w'), e) ↦ advance tasked at (fetches world w' page e)
            ]

    list_step : (page : PageResponse) → r.stage ≡ known page → CanStep s
    list_step page at = elim (Outcome-cases (loads_of crates c r.command page.links)) [
      | inl p ↦ die (known page) at (list_panics page p)
      | inr (loads, e) ↦ advance (known page) at (lists page loads e)
    ]

    crawl_steps : (stage : Stage) → r.stage ≡ stage → CanSend s → CanStep s
    crawl_steps spawned at room = advance spawned at registers
    crawl_steps registered at room = advance registered at (touches 0)
    crawl_steps loading at room = advance loading at verifies
    crawl_steps (verified crawlable) at room = advance (verified crawlable) at tasks
    crawl_steps (verified already_known) at room = refuse_step already_known at (λ e. cc)
    crawl_steps (verified already_tasked) at room = refuse_step already_tasked at (λ e. cc)
    crawl_steps (verified restricted_by_robots) at room =
        refuse_step restricted_by_robots at (λ e. cc)
    crawl_steps (verified max_depth_reached) at room = refuse_step max_depth_reached at (λ e. cc)
    crawl_steps tasked at room = fetch_step at
    crawl_steps (crawled none) at room = advance (crawled none) at skips
    crawl_steps (crawled (some page)) at room = advance (crawled (some page)) at (knows page)
    crawl_steps (known page) at room = list_step page at
    crawl_steps (sending [] page) at room = (_, reports r rest page Bool.false taken at)
    crawl_steps (sending (load ∷ loads) page) at (inl (alive, room)) =
        (_, sends r rest load loads page taken at alive room)
    crawl_steps (sending (load ∷ loads) page) at (inr gone) =
        (_, fails r rest load loads page taken at gone)
    crawl_steps reported at room = (_, ends r rest c taken found at)

  module _ (s : Process crates) (registers : All (IsRegistered crates s.contexts) s.crawls) where
    crawls_step :
        (crawls : List Crawl) → s.crawls ≡ crawls → CanSend s → (s.crawls ≡ []) ⊎ CanStep s
    crawls_step [] k room = inl k
    crawls_step (r ∷ rest) k room =
        let g = (subst (All (IsRegistered crates s.contexts)) k registers).0 in
        inr (crawl_steps s r rest g.context k g.found r.stage refl room)

    receive_step :
        (channel : List PageLoaderServiceCommand)
        → s.channel ≡ channel
        → s.loop ≡ receiving
        → 0 < s.buffer_size
        → IsFinal crates client s ⊎ CanStep s
    unfolding HasRoom
    receive_step [] e l room =
        elim (crawls_step s.crawls refl (inl ((λ q. cc), omega (arith, room, ap length e)))) [
          | inl none_left ↦ inl (over l e none_left)
          | inr step ↦ inr step
        ]
    receive_step (load_page_command address load ∷ channel) e l room =
        inr (_, receives address load channel l e)
    receive_step (crawl_domain_command run_config uuid ∷ channel) e l room =
        elim (Outcome-cases (TaskContext.init crates run_config uuid 0)) [
          | inl p ↦ inr (_, stops run_config uuid 0 channel l e p)
          | inr (c, made) ↦ inr (_, starts run_config uuid 0 channel c l e made)
        ]

    pub progress :
        (loop : Loop) → s.loop ≡ loop → 0 < s.buffer_size → IsFinal crates client s ⊎ CanStep s
    unfolding HasRoom
    progress receiving l room = receive_step s.channel refl l room
    progress (sending_first address uuid load) l room =
        elim (Bool-cases (ltb (length s.channel) s.buffer_size)) [
          | inl free ↦ inr (_, adds address uuid load l (ground (arith, free)))
          | inr full ↦ inl (
              stuck (record {
                address = address;
                uuid = uuid;
                load = load;
                sending = l;
                full = ground (arith, full);
              }))
        ]
    progress stopped l room = elim (crawls_step s.crawls refl (inr l)) [
      | inl none_left ↦ inl (ended l none_left)
      | inr step ↦ inr step
    ]
