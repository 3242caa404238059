-- ===== src/PageLoader/Service/Process/Blocking.antt =====
-- How the loop of page_loader_service.rs comes to a state that it does not leave.
use tarantula.Base.{
  ◌<◌, ◌∙◌, sym, ◌≢◌, ◌≢◌, ◌+◌, suc, zero, done, [], ◌∷◌, length-append, ◌∙◌, ℕ, ◌≤◌, ◌≡◌, refl,
  length, arith,
}
use tarantula.PageLoader.Service.{LoadPage}
use tarantula.Crates.{Crates}
use tarantula.Responses.RunConfig.{RunConfig}
use tarantula.PageLoader.HttpClient.{HttpClient}
use tarantula.PageLoader.TaskContext.{TaskContext}
use tarantula.PageLoader.TaskContext
use tarantula.PageLoader.Service.{LoadPage}
use tarantula.PageLoader.Service.Process.{
  sending_first, Process, stopped, sending_first, HasRoom, enqueue, crawl_domain_command,
  init_with_factory, buffer_size_of,
}
use tarantula.PageLoader.Service.Process.Steps.{
  Runs, Reachable, rests, steps, disturbs, starts, submits,
}
use tarantula.PageLoader.Service.Process.Stuck.{IsStuck, two-le-buffer_size_of}

sending-ne-stopped :
    (address uuid : ℕ) (load : LoadPage) → sending_first address uuid load ≢ stopped
sending-ne-stopped address uuid load e = cc

module _ {W : Type 0} (crates : Crates) (client : HttpClient W) where
  Runs-trans :
      (Allowed : RunConfig → Type 0) (s t u : Process crates)
      → Runs crates client Allowed s t
      → Runs crates client Allowed t u
      → Runs crates client Allowed s u
  Runs-trans Allowed s t _ r rests = r
  Runs-trans Allowed s t _ r (steps v u q e) = steps v u (Runs-trans Allowed s t v r q) e
  Runs-trans Allowed s t _ r (disturbs v u q e) = disturbs v u (Runs-trans Allowed s t v r q) e

  submit :
      (Allowed : RunConfig → Type 0) (s : Process crates) (run_config : RunConfig) (uuid n : ℕ)
      → Allowed run_config
      → s.loop ≢ stopped
      → length s.channel + n ≤ s.buffer_size
      → (t : Process crates) × Runs crates client Allowed s t
        × (t.loop ≡ s.loop)
        × (length t.channel ≡ length s.channel + n)
        × (t.buffer_size ≡ s.buffer_size)
  unfolding HasRoom enqueue
  submit Allowed s run_config uuid zero ok alive le = (s, rests, refl, omega arith, refl)
  submit Allowed s run_config uuid (suc n) ok alive le =
      let (t, r, l, ch, b) = submit Allowed s run_config uuid n ok alive (omega (arith, le)) in
      let more = length-append t.channel (crawl_domain_command run_config uuid ∷ []) in
      (
        enqueue crates t (crawl_domain_command run_config uuid),
        disturbs t _ r
            (submits run_config uuid ok (λ e. alive (sym l ∙ e)) (omega (arith, le, ch, b))),
        l,
        omega (arith, more, ch),
        b,
      )

  -- On a machine with any number of processors, if tasks can be made of a configuration, there is a
  -- run with crawls of that configuration only, from the start of the service to a state in which
  -- the loop waits to send and the channel is full.
  pub Reachable-IsStuck :
      (cpus uuid now : ℕ) (run_config : RunConfig) (c : TaskContext crates)
      → TaskContext.init crates run_config uuid now ≡ done c
      → (s : Process crates) × Reachable crates client (λ other. other ≡ run_config) cpus s
        × IsStuck crates client s
  unfolding init_with_factory HasRoom enqueue buffer_size_of
  Reachable-IsStuck cpus uuid now run_config c made =
      let Only : RunConfig → Type 0 = λ other. other ≡ run_config in
      let start = init_with_factory crates cpus in
      let free : 0 < buffer_size_of cpus = omega (arith, two-le-buffer_size_of cpus) in
      let asked = disturbs start _ rests (submits run_config uuid refl (λ e. cc) free) in
      let begun = steps _ _ asked (starts run_config uuid now [] c refl refl made) in
      let (t, r, l, ch, b) =
        submit Only _ run_config uuid (buffer_size_of cpus) refl (sending-ne-stopped _ _ _)
          (omega arith) in
      (
        t,
        Runs-trans Only _ _ _ begun r,
        record { address = 0; uuid = uuid; load = _; sending = l; full = omega (arith, ch, b) },
      )
