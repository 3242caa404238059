-- ===== src/Tests/Depths.antt =====
-- A run of the service for a task whose maximum depth is 0, up to the verdict on its first URL.
use tarantula.Tests.Sample.{sample_crates, sample_client, host_of}
use tarantula.Tests.Callbacks.{config}
use tarantula.Tests.Processes.{receiving-ne-stopped, empty-HasRoom, started-HasRoom}
use tarantula.Base.{contains, split, ◌≡◌, refl, [], some, done}
use tarantula.Responses.RunConfig.{RunConfig}
use tarantula.LinkResult.LinkTypeChecker
use tarantula.PageLoader.TaskContext
use tarantula.PageLoader.TaskContext.{TaskContext}
use tarantula.PageLoader.TaskManager.{insert}
use tarantula.PageLoader.Service.{LoadPage}
use tarantula.PageLoader.Service.Process.{
  Process, Takes, HasRoom, enqueue, init_with_factory, buffer_size_of, put,
}
use tarantula.PageLoader.Service.Process.Steps.{
  Reachable, rests, steps, disturbs, receives, starts, adds, advances, registers, touches, verifies,
  submits,
}
use tarantula.PageLoader.Service.Process.Shallow.{IsUnlimited, IsShallow, Reachable-IsShallow}

abbrev unlimited : RunConfig
unlimited = record config { maximum_depth = some 0 }

abbrev unlimited_load : LoadPage
unlimited_load = record { url = config.url; raw_url = config.url; current_depth = 0 }

unlimited-made :
    (c : TaskContext sample_crates) × (TaskContext.init sample_crates unlimited 7 0 ≡ done c)
unfolding TaskContext.init TaskContext.new contains host_of split LinkTypeChecker.new
unlimited-made = (_, refl)

unlimited-run : (s : Process sample_crates) × Reachable sample_crates sample_client IsUnlimited 4 s
unfolding init_with_factory HasRoom enqueue buffer_size_of insert put
unlimited-run =
    let asked = disturbs _ _ rests (submits unlimited 7 refl receiving-ne-stopped empty-HasRoom) in
    let started =
      steps _ _ asked (starts unlimited 7 0 [] unlimited-made.0 refl refl unlimited-made.1) in
    let added = steps _ _ started (adds 0 7 unlimited_load refl started-HasRoom) in
    let begun = steps _ _ added (receives 0 unlimited_load [] refl refl) in
    let known =
      steps _ _ begun (advances _ [] unlimited-made.0 _ _ (Takes.here []) refl registers) in
    let loading = steps _ _ known (advances _ [] _ _ _ (Takes.here []) refl (touches 1)) in
    (_, steps _ _ loading (advances _ [] _ _ _ (Takes.here []) refl verifies))

Reachable-IsShallow_example : IsShallow sample_crates unlimited-run.0
Reachable-IsShallow_example =
    Reachable-IsShallow sample_crates sample_client 4 unlimited-run.0 unlimited-run.1
