-- ===== src/PageLoader/Service/Process/Early.antt =====
-- The collector of page_loader_service.rs and a command that waits.
use tarantula.Base.{
  ℕ, ◌+◌, ◌*◌, ◌<◌, ◌≡◌, refl, true, [], ◌∷◌, none, some, done, arith, ◌==◌, ==_iff,
}
use tarantula.Crates.{Crates}
use tarantula.Responses.RunConfig.{RunConfig}
use tarantula.PageLoader.HttpClient.{HttpClient}
use tarantula.PageLoader.CrawlerEvent.{complete_event}
use tarantula.PageLoader.TaskContext
use tarantula.PageLoader.TaskContext.{TaskContext, can_be_garbage_collected}
use tarantula.PageLoader.TaskContext.Registrar.{can_be_garbage_collected_of}
use tarantula.PageLoader.TaskManager.{lookup, insert, to_gc, gc_events}
use tarantula.PageLoader.Service.{LoadPage}
use tarantula.PageLoader.Service.Process.{
  Process, init_with_factory, HasRoom, enqueue, collect, put, buffer_size_of, tasks_of,
  load_page_command,
}
use tarantula.PageLoader.Service.Process.Steps.{
  Reachable, rests, steps, disturbs, starts, adds, submits,
}
use tarantula.PageLoader.Service.Process.Stuck.{two-le-buffer_size_of}
use tarantula.PageLoader.Service.Process.Bounded.{init-IsMade}

module _ {W : Type 0} (crates : Crates) (client : HttpClient W) where
  -- On a machine with any number of processors, if tasks can be made of a configuration, the
  -- service comes to a state in which the one command of a task waits in the channel, and the task
  -- manager has the task. A collection then, at a time that is later than the making of the task by
  -- more than the crawl delay and a minute, drops the task and sends its complete event.
  pub Reachable-early :
      (cpus uuid now later : ℕ) (run_config : RunConfig) (c : TaskContext crates)
      → TaskContext.init crates run_config uuid now ≡ done c
      → now + (c.task_config.crawl_delay_ms + 60_000) * 1_000_000 < later
      → (s : Process crates) × (address : ℕ) × (load : LoadPage) × Reachable crates client
          (λ other. other ≡ run_config)
          cpus
          s
        × (s.channel ≡ load_page_command address load ∷ [])
        × (lookup uuid s.tasks ≡ some address)
        × (lookup uuid (collect crates (λ key. later) s).tasks ≡ none)
        × ((collect crates (λ key. later) s).events ≡ complete_event uuid ∷ [])
  unfolding init_with_factory HasRoom enqueue collect insert lookup tasks_of put to_gc gc_events
  Reachable-early cpus uuid now later run_config c made long =
      let start = init_with_factory crates cpus in
      let free : 0 < buffer_size_of cpus = omega (arith, two-le-buffer_size_of cpus) in
      let m = init-IsMade crates run_config uuid now c made in
      let idle : can_be_garbage_collected crates c later 60_000 ≡ true =
        can_be_garbage_collected_of crates c later 60_000 m.idle
          (omega (arith, m.received, long)) in
      let asked = disturbs start _ rests (submits run_config uuid refl (λ e. cc) free) in
      let begun = steps _ _ asked (starts run_config uuid now [] c refl refl made) in
      let added = steps _ _ begun (adds 0 uuid _ refl free) in
      let self : (uuid == uuid) ≡ true = (==_iff uuid uuid).1 refl in
      (_, 0, _, added, refl, rw self refl, rw (idle, self) refl, rw (idle, m.uuid) refl)
