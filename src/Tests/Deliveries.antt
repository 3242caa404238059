-- ===== src/Tests/Deliveries.antt =====
-- The server's loop over the event of a task that was collected, and a request to a server of which
-- the service is stuck.
use mathlib.Core.List.{Memᴰ}
use tarantula.Base.{◌≢◌, refl, [], ◌∷◌, panic, arith}
use tarantula.PageLoader.CrawlerEvent.{complete_event}
use tarantula.PageLoader.Service.Process.{Process, collect, enqueue, put, init_with_factory}
use tarantula.PageLoader.Service.Process.Steps.{Reachable, disturbs, collects}
use tarantula.PageLoader.TaskManager.{insert, gc_events}
use tarantula.PageLoader.TaskContext.{can_be_garbage_collected}
use tarantula.Server.Http.{process_events}
use tarantula.Server.Http.Delivered.{IsCounted, Reachable-process_events}
use tarantula.Tests.Sample.{sample_crates, sample_client}
use tarantula.Tests.Callbacks.{callback_client, config, config-IsPostable}
use tarantula.Server.Http.Route.{Server, rocket, crawl_route, serves, idles, puts}
use tarantula.Server.Http.Unserved.{IsUnserved, IsAnswering, Served-IsUnserved}
use tarantula.Tests.Processes.{full, full-IsBlocked, made, added, added-Reachable}

abbrev collected : Process sample_crates
collected = collect sample_crates (λ key. 900_000_000_000) added

collected-Reachable : Reachable sample_crates sample_client IsCounted 4 collected
collected-Reachable =
    disturbs added collected (added-Reachable sample_client IsCounted (ground arith))
      (collects (λ key. 900_000_000_000))

Reachable-process_events_example :
    process_events sample_crates callback_client config (complete_event 7 ∷ []) 0 ≢ panic
unfolding enqueue insert put collect init_with_factory gc_events can_be_garbage_collected made
Reachable-process_events_example =
    Reachable-process_events sample_crates sample_client callback_client config 4 collected
      (complete_event 7 ∷ []) 0 collected-Reachable (Memᴰ.head refl, tt) config-IsPostable

abbrev asked_again : Server sample_crates
asked_again = crawl_route sample_crates (rocket sample_crates full) config 8

Served-IsUnserved_example :
    IsUnserved sample_crates sample_client (rocket sample_crates full) asked_again
    × IsAnswering sample_crates sample_client asked_again config 9
unfolding rocket
Served-IsUnserved_example =
    Served-IsUnserved sample_crates sample_client (rocket sample_crates full) asked_again config 9
      full-IsBlocked (serves _ _ idles (puts config 8))
