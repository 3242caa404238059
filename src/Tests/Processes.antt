-- ===== src/Tests/Processes.antt =====
-- Runs of the service: one task from its request to its first crawl, a loop that is stuck, and a
-- request that ends the loop.
use tarantula.Tests.Sample.{sample_crates, sample_client, host_of}
use tarantula.Base.{contains, split, ℕ, ◌≡◌, ◌≢◌, refl, [], ◌∷◌, none, some, done, codes, arith}
use tarantula.Responses.RunConfig.{RunConfig}
use tarantula.PageLoader.TaskContext.{
  TaskContext, register_crawl_command, set_last_command_received,
}
use tarantula.PageLoader.TaskManager.{lookup, insert}
use tarantula.PageLoader.CrawlerEvent.{complete_event}
use tarantula.PageLoader.HttpClient.{HttpClient}
use tarantula.PageLoader.Service.{LoadPage}
use tarantula.PageLoader.Service.Process.{
  Process, Crawl, Takes, spawned, registered, receiving, stopped, sending_first, init_with_factory,
  enqueue, put, collect, crawl_domain_command, load_page_command, buffer_size_of, HasRoom,
}
use tarantula.PageLoader.Service.Process.Steps.{
  Step, Reachable, rests, steps, disturbs, receives, starts, adds, advances, registers, submits,
  collects,
}
use tarantula.PageLoader.Service.Process.Stuck.{
  IsStuck, IsBlocked, IsHeld, IsStuck-IsBlocked, Runs-IsBlocked,
}
use tarantula.PageLoader.Service.Process.Blocking.{Reachable-IsStuck}
use tarantula.PageLoader.Service.Process.Poisoned.{IsGone, Reachable-IsGone}
use tarantula.Base.{inl}
use tarantula.PageLoader.Service.Process.Collected.{Reachable-collect}
use tarantula.PageLoader.Service.Process.Bounded.{IsLimited, IsBounded, Reachable-IsBounded}
use tarantula.PageLoader.Service.Process.Halting.{Reachable-Halts}
use tarantula.PageLoader.Service.Process.Progress.{IsFinal}
use tarantula.PageLoader.Service.Process.Final.{Reachable-IsFinal}
use tarantula.PageLoader.Service.Process.Early.{Reachable-early}
use tarantula.PageLoader.Service.Process.Found.{Found}
use tarantula.PageLoader.Service.Process.Refined.{Reachable-Found}
use tarantula.Base.Descent.{Halts, Eventually}
use tarantula.Tests.Callbacks.{config}
use mathlib.Core.List.{Memᴰ}
use tarantula.PageLoader.Service.Process.Completed.{Reachable-complete}
use tarantula.LinkResult.LinkTypeChecker
use tarantula.PageLoader.TaskContext

unfoldable pub made :
    (c : TaskContext sample_crates) × (TaskContext.init sample_crates config 7 0 ≡ done c)
unfolding TaskContext.init TaskContext.new contains host_of split LinkTypeChecker.new
made = (_, refl)

abbrev first_load : LoadPage
first_load = record { url = config.url; raw_url = config.url; current_depth = 0 }

-- The request of a task, on a machine with four processors.
abbrev asked : Process sample_crates
asked = enqueue sample_crates (init_with_factory sample_crates 4) (crawl_domain_command config 7)

abbrev started : Process sample_crates
started = record asked {
  channel = [];
  loop = sending_first 0 7 first_load;
  contexts = put sample_crates (λ address. none) 0 made.0;
  fresh = 1;
}

abbrev pub added : Process sample_crates
added = record (enqueue sample_crates started (load_page_command 0 first_load)) {
  loop = receiving;
  tasks = insert 7 0 [];
}

abbrev pub first_crawl : Crawl
first_crawl = record {
  address = 0;
  command = record { url = config.url; raw_url = config.url; current_depth = 0; uuid = 1 };
  stage = registered;
}

abbrev begun : Process sample_crates
begun = record added {
  channel = [];
  crawls = record first_crawl { stage = spawned } ∷ [];
  fresh = 2;
}

abbrev pub running : Process sample_crates
running = record begun {
  contexts = put sample_crates begun.contexts 0 (register_crawl_command sample_crates made.0 1);
  crawls = first_crawl ∷ [];
}

pub config-IsLimited : IsLimited config
config-IsLimited = (ground arith, ground arith)

pub receiving-ne-stopped : (init_with_factory sample_crates 4).loop ≢ stopped
unfolding init_with_factory
receiving-ne-stopped e = cc

pub empty-HasRoom : HasRoom sample_crates (init_with_factory sample_crates 4)
unfolding HasRoom init_with_factory buffer_size_of
empty-HasRoom = omega arith

pub started-HasRoom : HasRoom sample_crates started
unfolding HasRoom enqueue init_with_factory buffer_size_of
started-HasRoom = omega arith

module _ (client : HttpClient ℕ) (Wanted : RunConfig → Type 0) (wanted : Wanted config) where
  unfoldable pub started-Reachable : Reachable sample_crates client Wanted 4 started
  unfolding init_with_factory HasRoom enqueue buffer_size_of
  started-Reachable =
      steps _ _ (disturbs _ _ rests (submits config 7 wanted receiving-ne-stopped empty-HasRoom))
        (starts config 7 0 [] made.0 refl refl made.1)

  unfoldable pub added-Reachable : Reachable sample_crates client Wanted 4 added
  unfolding init_with_factory HasRoom enqueue buffer_size_of insert put
  added-Reachable = steps started _ started-Reachable (adds 0 7 first_load refl started-HasRoom)

unfoldable pub running-Reachable :
    (client : HttpClient ℕ) → Reachable sample_crates client IsLimited 4 running
unfolding init_with_factory HasRoom enqueue buffer_size_of insert put
running-Reachable client =
    steps begun _
      (steps added _ (added-Reachable client IsLimited config-IsLimited)
        (receives 0 first_load [] refl refl))
      (advances (record first_crawl { stage = spawned }) [] made.0 _ registered (Takes.here []) refl
        registers)

Reachable-collect_example :
    lookup 7 (collect sample_crates (λ key. 900_000_000_000) running).tasks ≡ some 0
unfolding insert lookup
Reachable-collect_example =
    Reachable-collect sample_crates sample_client IsLimited 4 running first_crawl []
      (λ key. 900_000_000_000) 7 (running-Reachable sample_client) (Takes.here []) refl refl

Reachable-IsBounded_example : IsBounded sample_crates running
Reachable-IsBounded_example =
    Reachable-IsBounded sample_crates sample_client 4 running (running-Reachable sample_client)

Reachable-Halts_example : Halts (Step sample_crates sample_client) running
Reachable-Halts_example =
    Reachable-Halts sample_crates sample_client 4 running (running-Reachable sample_client)

Reachable-IsFinal_example :
    Eventually (Step sample_crates sample_client) (IsFinal sample_crates sample_client) running
Reachable-IsFinal_example =
    Reachable-IsFinal sample_crates sample_client 0 4 running (running-Reachable sample_client)

Reachable-early_example :
    (s : Process sample_crates) × (address : ℕ) × (load : LoadPage) × Reachable sample_crates
      sample_client
      (λ other. other ≡ config)
      4
      s
    × (s.channel ≡ load_page_command address load ∷ [])
    × (lookup 7 s.tasks ≡ some address)
    × (lookup 7 (collect sample_crates (λ key. 900_000_000_000) s).tasks ≡ none)
    × ((collect sample_crates (λ key. 900_000_000_000) s).events ≡ complete_event 7 ∷ [])
unfolding made
Reachable-early_example =
    Reachable-early sample_crates sample_client 4 7 0 900_000_000_000 config made.0 made.1
      (omega arith)

Reachable-IsStuck_example :
    (s : Process sample_crates) × Reachable sample_crates sample_client
      (λ other. other ≡ config)
      4
      s
    × IsStuck sample_crates sample_client s
Reachable-IsStuck_example = Reachable-IsStuck sample_crates sample_client 4 7 0 config made.0 made.1

-- A URL with a blank in it, which cannot be parsed.
abbrev bad_config : RunConfig
bad_config = record config { url = codes "https://example.com/a b" }

bad_url : sample_crates.parse_uri bad_config.url ≡ none
unfolding contains
bad_url = refl

abbrev poisoned : Process sample_crates
poisoned =
    enqueue sample_crates (init_with_factory sample_crates 4) (crawl_domain_command bad_config 7)

poisoned-Reachable : Reachable sample_crates sample_client IsLimited 4 poisoned
poisoned-Reachable =
    disturbs _ _ rests
      (submits bad_config 7 (ground arith, ground arith) receiving-ne-stopped empty-HasRoom)

Reachable-IsGone_example :
    Eventually (Step sample_crates sample_client) (IsGone sample_crates sample_client) poisoned
unfolding enqueue init_with_factory contains
Reachable-IsGone_example =
    Reachable-IsGone sample_crates sample_client bad_config 7 (inl bad_url) 0 4 poisoned
      poisoned-Reachable (inl refl)

-- The task that has started, with its command not sent and the channel full.
abbrev pub full : Process sample_crates
full = record started {
  buffer_size = 2;
  channel = crawl_domain_command config 8 ∷ crawl_domain_command config 9 ∷ [];
}

pub full-IsBlocked : IsBlocked sample_crates sample_client full
full-IsBlocked =
    IsStuck-IsBlocked sample_crates sample_client full
      (record { address = 0; uuid = 7; load = first_load; sending = refl; full = omega arith })

Runs-IsBlocked_example :
    IsHeld sample_crates sample_client full (collect sample_crates (λ key. 1) full)
Runs-IsBlocked_example =
    Runs-IsBlocked sample_crates sample_client IsLimited full
      (collect sample_crates (λ key. 1) full) full-IsBlocked
      (disturbs full _ rests (collects (λ key. 1)))

Reachable-Found_example :
    (c : TaskContext sample_crates) × (running.contexts 0 ≡ some c)
    × Found sample_crates sample_client IsLimited c.link_type_checker config.url 0
Reachable-Found_example =
    Reachable-Found sample_crates sample_client IsLimited 4 running first_crawl []
      (running-Reachable sample_client) (Takes.here [])

Reachable-complete_example :
    (lookup 7 (collect sample_crates (λ key. 900_000_000_000) added).tasks ≡ none)
    × Memᴰ (complete_event 7) (collect sample_crates (λ key. 900_000_000_000) added).events
unfolding made lookup insert put added-Reachable started-Reachable
Reachable-complete_example =
    Reachable-complete sample_crates sample_client IsLimited 4 added
      (added-Reachable sample_client IsLimited config-IsLimited) (λ key. 900_000_000_000) 7 0 made.0
      ((tt, tt), tt) tt refl refl (omega arith)
