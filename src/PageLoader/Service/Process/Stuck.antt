-- ===== src/PageLoader/Service/Process/Stuck.antt =====
-- The loop of page_loader_service.rs sends on the channel that it alone receives from.
use tarantula.Base.{
  ◌≢◌, sym, List, Option, length-retain-le, ◌∙◌, ℕ, ◌≤◌, ◌≡◌, refl, length, arith, List,
}
use tarantula.PageLoader.CrawlerEvent.{CrawlerEvent}
use tarantula.Crates.{Crates}
use tarantula.Responses.RunConfig.{RunConfig}
use tarantula.PageLoader.HttpClient.{HttpClient}
use tarantula.PageLoader.TaskContext.{TaskContext}
use tarantula.PageLoader.Service.{LoadPage}
use tarantula.PageLoader.Service.Process.{
  Process, Crawl, receiving, stopped, sending_first, HasRoom, enqueue, collect, buffer_size_of,
}
use tarantula.PageLoader.Service.Process.Steps.{
  Step, Disturbs, Runs, rests, steps, disturbs, receives, starts, stops, adds, advances, sends,
  reports, ends, fails, dies, submits, collects,
}
use tarantula.PageLoader.Service.Process.Picks.{Takes-length}

pub two-le-buffer_size_of : (cpus : ℕ) → 2 ≤ buffer_size_of cpus
unfolding buffer_size_of
two-le-buffer_size_of cpus = ground arith

module _ {W : Type 0} (crates : Crates) (client : HttpClient W) where
  -- The loop has the first command of a task to send, and there is no room for it.
  pub record IsStuck (s : Process crates) : Type 0 where
    pub address : ℕ
    pub uuid : ℕ
    pub load : LoadPage
    pub sending : s.loop ≡ sending_first address uuid load
    pub full : s.buffer_size ≤ length s.channel

  -- The loop does not receive, and the channel takes no command: it is full, or its receiver gone.
  pub record IsBlocked (s : Process crates) : Type 0 where
    pub busy : s.loop ≢ receiving
    pub full : s.loop ≢ stopped → s.buffer_size ≤ length s.channel

  pub IsStuck-IsBlocked : (s : Process crates) → IsStuck s → IsBlocked s
  IsStuck-IsBlocked s h = record { busy = λ e. cc; full = λ alive. h.full }

  pub stopped-IsBlocked : (s : Process crates) → s.loop ≡ stopped → IsBlocked s
  stopped-IsBlocked s h = record { busy = λ e. cc; full = λ alive. absurd (alive h) }

  -- The loop and the channel are as they were, and no crawl has begun.
  pub record IsHeld (s t : Process crates) : Type 0 where
    pub loop : t.loop ≡ s.loop
    pub channel : t.channel ≡ s.channel
    pub crawls : length t.crawls ≤ length s.crawls
    pub tasks : length t.tasks ≤ length s.tasks
    pub buffer_size : t.buffer_size ≡ s.buffer_size

  with_crawls :
      (s : Process crates) (crawls : List Crawl) (contexts : ℕ → Option (TaskContext crates))
      (events : List CrawlerEvent)
      → length crawls ≤ length s.crawls
      → IsHeld s (record s { crawls = crawls; contexts = contexts; events = events })
  with_crawls s crawls contexts events le = record {
    loop = refl;
    channel = refl;
    crawls = le;
    tasks = omega arith;
    buffer_size = refl;
  }

  Step-IsBlocked : (s t : Process crates) → IsBlocked s → Step crates client s t → IsHeld s t
  unfolding HasRoom enqueue
  Step-IsBlocked s _ h (receives address load channel l e) = absurd (h.busy l)
  Step-IsBlocked s _ h (starts run_config uuid now channel c l e i) = absurd (h.busy l)
  Step-IsBlocked s _ h (stops run_config uuid now channel l e i) = absurd (h.busy l)
  Step-IsBlocked s _ h (adds address uuid load l room) =
      absurd (omega (arith, room, h.full λ e. cc))
  Step-IsBlocked s _ h (sends r rest load loads page t e alive room) =
      absurd (omega (arith, room, h.full alive))
  Step-IsBlocked s _ h (advances r rest c d stage t e a) =
      with_crawls s _ _ _ (omega (arith, Takes-length r s.crawls rest t))
  Step-IsBlocked s _ h (reports r rest page is_lost t e) =
      with_crawls s _ _ _ (omega (arith, Takes-length r s.crawls rest t))
  Step-IsBlocked s _ h (ends r rest c t e g) =
      with_crawls s _ _ _ (omega (arith, Takes-length r s.crawls rest t))
  Step-IsBlocked s _ h (fails r rest load loads page t e alive) =
      with_crawls s _ _ _ (omega (arith, Takes-length r s.crawls rest t))
  Step-IsBlocked s _ h (dies r rest c t e p) =
      with_crawls s _ _ _ (omega (arith, Takes-length r s.crawls rest t))

  Disturbs-IsBlocked :
      (Allowed : RunConfig → Type 0) (s t : Process crates)
      → IsBlocked s
      → Disturbs crates client Allowed s t
      → IsHeld s t
  unfolding HasRoom enqueue collect
  Disturbs-IsBlocked Allowed s _ h (submits run_config uuid a alive room) =
      absurd (omega (arith, room, h.full alive))
  Disturbs-IsBlocked Allowed s _ h (collects clock) = record {
    loop = refl;
    channel = refl;
    crawls = omega arith;
    tasks = length-retain-le _ s.tasks;
    buffer_size = refl;
  }

  pub IsHeld-IsBlocked : (s t : Process crates) → IsBlocked s → IsHeld s t → IsBlocked t
  IsHeld-IsBlocked s t h k = record {
    busy = λ e. h.busy (sym k.loop ∙ e);
    full = λ alive. rw (k.buffer_size, k.channel) (h.full λ e. alive (k.loop ∙ e));
  }

  IsHeld-trans : (s t u : Process crates) → IsHeld s t → IsHeld t u → IsHeld s u
  IsHeld-trans s t u h k = record {
    loop = k.loop ∙ h.loop;
    channel = k.channel ∙ h.channel;
    crawls = omega (arith, h.crawls, k.crawls);
    tasks = omega (arith, h.tasks, k.tasks);
    buffer_size = k.buffer_size ∙ h.buffer_size;
  }

  -- The loop is never freed: if it waits to send the first command of a task and the channel is
  -- full, or it has ended in a panic, then in every run from there the loop and the channel stay as
  -- they are, no command is received, so that no crawl begins, and no task is added.
  pub Runs-IsBlocked :
      (Allowed : RunConfig → Type 0) (s t : Process crates)
      → IsBlocked s
      → Runs crates client Allowed s t
      → IsHeld s t
  Runs-IsBlocked Allowed s _ h rests = record {
    loop = refl;
    channel = refl;
    crawls = omega arith;
    tasks = omega arith;
    buffer_size = refl;
  }
  Runs-IsBlocked Allowed s _ h (steps t u r e) =
      let k = Runs-IsBlocked Allowed s t h r in
      IsHeld-trans s t u k (Step-IsBlocked t u (IsHeld-IsBlocked s t h k) e)
  Runs-IsBlocked Allowed s _ h (disturbs t u r e) =
      let k = Runs-IsBlocked Allowed s t h r in
      IsHeld-trans s t u k (Disturbs-IsBlocked Allowed t u (IsHeld-IsBlocked s t h k) e)
