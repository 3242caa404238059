-- ===== src/Server/Http/Route.antt =====
-- server/src/http.rs: `rocket`, `crawl` and the start of `process`, on top of the service. The route
-- answers with a new uuid and spawns `process`, which sends the command to the service once there is
-- room, and panics if the service's loop has gone. What it does then is `process_events`.
use tarantula.Base.{ℕ, ◌≡◌, ◌≢◌, List, [], ◌∷◌, ◌++◌}
use tarantula.Crates.{Crates}
use tarantula.Responses.RunConfig.{RunConfig}
use tarantula.PageLoader.HttpClient.{HttpClient}
use tarantula.PageLoader.Service.Process.{
  Process, stopped, HasRoom, enqueue, collect, crawl_domain_command,
}
use tarantula.PageLoader.Service.Process.Steps.{Step}

-- A spawned `process`.
pub record Request : Type 0 where
  pub run_config : RunConfig
  pub task_context_uuid : ℕ

-- `status::Accepted`, with the new uuid as its body.
pub data Answer : Type 0 where
  accepted : (body : ℕ) → Answer

-- The service, the answers that were given, and the spawned tasks: those that have yet to send their
-- command, those that receive events, and those that have panicked on their `send`.
pub record Server (crates : Crates) : Type 0 where
  pub service : Process crates
  pub answers : List Answer
  pub waiting : List Request
  pub processing : List Request
  pub crashed : List Request

module _ (crates : Crates) where
  -- `rocket`, with the channel of a service.
  unfoldable pub rocket : Process crates → Server crates
  rocket service = record {
    service = service;
    answers = [];
    waiting = [];
    processing = [];
    crashed = [];
  }

  -- `crawl`: the answer does not wait for the spawned task.
  unfoldable pub crawl_route : Server crates → RunConfig → ℕ → Server crates
  crawl_route s run_config uuid = record s {
    answers = accepted uuid ∷ s.answers;
    waiting = record { run_config = run_config; task_context_uuid = uuid } ∷ s.waiting;
  }

  -- The commands of `process`: the channel takes it, or its receiver has gone.
  unfoldable pub send_command : Server crates → List Request → Request → Server crates
  unfolding enqueue
  send_command s waiting r = record s {
    service = enqueue crates s.service (crawl_domain_command r.run_config r.task_context_uuid);
    waiting = waiting;
    processing = r ∷ s.processing;
  }

  unfoldable pub crash : Server crates → List Request → Request → Server crates
  crash s waiting r = record s { waiting = waiting; crashed = r ∷ s.crashed }

  module _ {W : Type 0} (client : HttpClient W) where
    -- A step of the server: a request, a spawned task's `send`, or a step of the service or of its
    -- task manager's thread.
    pub data Serves (s : Server crates) : Server crates → Type 0 where
      puts : (run_config : RunConfig) (uuid : ℕ) → Serves s (crawl_route s run_config uuid)
      sends_command :
          (before after : List Request) (r : Request)
          → s.waiting ≡ before ++ r ∷ after
          → s.service.loop ≢ stopped
          → HasRoom crates s.service
          → Serves s (send_command s (before ++ after) r)
      crashes :
          (before after : List Request) (r : Request)
          → s.waiting ≡ before ++ r ∷ after
          → s.service.loop ≡ stopped
          → Serves s (crash s (before ++ after) r)
      works :
          (service : Process crates)
          → Step crates client s.service service
          → Serves s (record s { service = service })
      collects_tasks :
          (clock : ℕ → ℕ) → Serves s (record s { service = collect crates clock s.service })

    pub data Served (s : Server crates) : Server crates → Type 0 where
      idles : Served s s
      serves : (t u : Server crates) → Served s t → Serves t u → Served s u
