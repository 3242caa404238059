-- ===== src/Server/Http/Unserved.antt =====
-- The route of server/src/http.rs while the service's loop is blocked.
use tarantula.Base.{ℕ, ◌+◌, ◌≡◌, refl, List, ◌∷◌, ◌++◌, length, length-append, arith}
use tarantula.Crates.{Crates}
use tarantula.Responses.RunConfig.{RunConfig}
use tarantula.PageLoader.HttpClient.{HttpClient}
use tarantula.PageLoader.Service.Process.{HasRoom}
use tarantula.PageLoader.Service.Process.Steps.{Runs, rests, steps, disturbs, submits, collects}
use tarantula.PageLoader.Service.Process.Stuck.{IsBlocked, IsHeld-IsBlocked, Runs-IsBlocked}
use tarantula.Server.Http.Route.{
  Server, Request, accepted, Served, Serves, idles, serves, puts, sends_command, crashes, works,
  collects_tasks, crawl_route, send_command, crash,
}

abbrev IsAny : RunConfig → Type 0
IsAny run_config = Unit

length-among :
    (xs before after : List Request) (r : Request)
    → xs ≡ before ++ r ∷ after
    → length xs ≡ 1 + length (before ++ after)
length-among xs before after r e =
    rw (e, length-append before (r ∷ after), length-append before after) (omega arith)

module _ {W : Type 0} (crates : Crates) (client : HttpClient W) where
  -- The service under the server makes a run of its own.
  pub Served-Runs :
      (s t : Server crates)
      → Served crates client s t
      → Runs crates client IsAny s.service t.service
  unfolding crawl_route send_command crash
  Served-Runs s _ idles = rests
  Served-Runs s _ (serves t _ r (puts run_config uuid)) = Served-Runs s t r
  Served-Runs s _ (serves t _ r (sends_command before after x e alive room)) =
      disturbs t.service _ (Served-Runs s t r)
        (submits x.run_config x.task_context_uuid tt alive room)
  Served-Runs s _ (serves t _ r (crashes before after x e gone)) = Served-Runs s t r
  Served-Runs s _ (serves t _ r (works service e)) = steps t.service _ (Served-Runs s t r) e
  Served-Runs s _ (serves t _ r (collects_tasks clock)) =
      disturbs t.service _ (Served-Runs s t r) (collects clock)

  -- The tasks that receive events are the same, and each answer since is one of a task that waits or
  -- has panicked.
  pub record IsUnserved (s t : Server crates) : Type 0 where
    pub processing : t.processing ≡ s.processing
    pub answered :
        length t.waiting + length t.crashed + length s.answers
        ≡ length s.waiting + length s.crashed + length t.answers

  Serves-IsUnserved :
      (s t u : Server crates)
      → IsBlocked crates client t.service
      → IsUnserved s t
      → Serves crates client t u
      → IsUnserved s u
  unfolding crawl_route send_command crash HasRoom
  Serves-IsUnserved s t _ b h (puts run_config uuid) = record {
    processing = h.processing;
    answered = omega (arith, h.answered);
  }
  Serves-IsUnserved s t _ b h (sends_command before after r e alive room) =
      absurd (omega (arith, room, b.full alive))
  Serves-IsUnserved s t _ b h (crashes before after r e gone) = record {
    processing = h.processing;
    answered = omega (arith, h.answered, length-among t.waiting before after r e);
  }
  Serves-IsUnserved s t _ b h (works service e) = record {
    processing = h.processing;
    answered = h.answered;
  }
  Serves-IsUnserved s t _ b h (collects_tasks clock) = record {
    processing = h.processing;
    answered = h.answered;
  }

  Served-counts :
      (s t : Server crates)
      → IsBlocked crates client s.service
      → Served crates client s t
      → IsUnserved s t
  Served-counts s _ h idles = record { processing = refl; answered = refl }
  Served-counts s _ h (serves t u r e) =
      Serves-IsUnserved s t u
        (IsHeld-IsBlocked crates client s.service t.service h
          (Runs-IsBlocked crates client IsAny s.service t.service h (Served-Runs s t r)))
        (Served-counts s t h r) e

  -- The route takes one more request and answers it; the spawned task waits.
  pub record IsAnswering (t : Server crates) (run_config : RunConfig) (uuid : ℕ) : Type 0 where
    pub next : Server crates
    pub step : Serves crates client t next
    pub answers : next.answers ≡ accepted uuid ∷ t.answers
    pub waiting :
        next.waiting ≡ record { run_config = run_config; task_context_uuid = uuid } ∷ t.waiting
    pub processing : next.processing ≡ t.processing

  -- A service whose loop is blocked is not noticed by the clients of the server: if the loop waits
  -- to send on the full channel, or has ended in a panic, then in every state that the server comes
  -- to from there, the requests that are processed are the same as before, the tasks that wait to
  -- send or have panicked have grown by as many as the answers since, and any further request can be
  -- made at once, is answered as accepted with its uuid, and leaves a task that waits.
  pub Served-IsUnserved :
      (s t : Server crates) (run_config : RunConfig) (uuid : ℕ)
      → IsBlocked crates client s.service
      → Served crates client s t
      → IsUnserved s t × IsAnswering t run_config uuid
  unfolding crawl_route
  Served-IsUnserved s t run_config uuid h r = (
    Served-counts s t h r,
    record {
      next = crawl_route crates t run_config uuid;
      step = puts run_config uuid;
      answers = refl;
      waiting = refl;
      processing = refl;
    },
  )
