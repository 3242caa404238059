-- ===== src/Server/Http/Delivered.antt =====
-- The events that page_loader_service.rs sends, as server/src/http.rs receives them.
use mathlib.Core.List.{Memᴰ}
use tarantula.Base.{
  ap, ℕ, ◌<◌, ◌≡◌, ◌≢◌, sym, subst, Bool, true, false, List, [], ◌∷◌, ◌++◌, Option, none, some,
  done, panic, All, All-mono, All-append, Bool-cases, inl, inr, if◌then◌else◌,
}
use tarantula.Crates.{Crates}
use tarantula.Responses.RunConfig.{RunConfig}
use tarantula.PageLoader.HttpClient.{HttpClient}
use tarantula.PageLoader.CrawlerEvent.{CrawlerEvent, page_event}
use tarantula.PageLoader.TaskContext
use tarantula.PageLoader.TaskContext.{TaskContext, unwrap_or_else, can_be_garbage_collected}
use tarantula.PageLoader.TaskManager.{gc_events}
use tarantula.PageLoader.PageCrawl.{Crawlability, PageCrawlCommand, crawl_as}
use tarantula.PageLoader.PageCrawl.Outcomes.{perform_crawl-Ensures, crawl_as-Ensures}
use tarantula.PageLoader.Service.Process.{
  Process, Stage, crawled, known, sending, enqueue, collect, init_with_factory,
}
use tarantula.PageLoader.Service.Process.Steps.{
  Step, Reachable, rests, steps, disturbs, receives, starts, stops, adds, advances, sends, reports,
  ends, fails, dies, submits, collects, Advances, registers, touches, verifies, tasks, fetches,
  refuses, knows, skips, lists,
}
use tarantula.PageLoader.Service.Process.Picks.{All-Takes}
use tarantula.PageLoader.Service.Process.Bounded.{init-IsMade}
use tarantula.PageLoader.Service.Process.Invariant.{Claim, IsClosed, IsInvariant, IsSoundCrawl}
use tarantula.PageLoader.Service.Process.Preserved.{Reachable-IsInvariant}
use tarantula.Server.Http.{PageResponse, page_to_string, process_events, CallbackClient}
use tarantula.Server.Http.Payloads.{page_to_string-ne-panic, IsOutcome-writable}
use tarantula.Server.Http.Total.{IsWritable, IsPostable, process_events-ne-panic}

-- The limit of redirects has eight bits; 10 is the default of `TaskConfig::new`.
abbrev pub IsCounted : RunConfig → Type 0
IsCounted run_config = unwrap_or_else run_config.maximum_redirects 10 < 256

-- The page at a stage can be turned into JSON.
abbrev IsWritableAt : Stage → Type 0
IsWritableAt (crawled (some page)) = page_to_string page ≢ panic
IsWritableAt (known page) = page_to_string page ≢ panic
IsWritableAt (sending loads page) = page_to_string page ≢ panic
IsWritableAt _ = Unit

module _ {W : Type 0} (crates : Crates) (client : HttpClient W) where
  abbrev write_claim : Claim crates
  write_claim = record {
    Wanted = IsCounted;
    IsFine = λ c. c.task_config.maximum_redirects < 256;
    IsGood = λ c load. Unit;
    IsAt = λ c command stage. IsWritableAt stage;
  }

  refused-IsWritableAt :
      (command : PageCrawlCommand) (c d : TaskContext crates) (verdict : Crawlability) (w w' : W)
      (page : Option PageResponse)
      → c.task_config.maximum_redirects < 256
      → crawl_as crates client c command c.task_config.robots_txt_info_url verdict c.uuid w
        ≡ done ((d, page), w')
      → IsWritableAt (crawled page)
  refused-IsWritableAt command c d verdict w w' none small e = tt
  refused-IsWritableAt command c d verdict w w' (some page) small e =
      IsOutcome-writable crates client c command c.task_config.robots_txt_info_url c.uuid verdict d
        page
        ((crawl_as-Ensures crates client c command c.task_config.robots_txt_info_url c.uuid verdict
            small).apply
          w w' (d, some page) e)

  Advances-IsWritableAt :
      (command : PageCrawlCommand) (c d : TaskContext crates) (stage stage' : Stage)
      → c.task_config.maximum_redirects < 256
      → Advances crates client c command stage d stage'
      → IsWritableAt stage
      → IsWritableAt stage'
  Advances-IsWritableAt command c _ _ _ small registers h = tt
  Advances-IsWritableAt command c _ _ _ small (touches now) h = tt
  Advances-IsWritableAt command c _ _ _ small verifies h = tt
  Advances-IsWritableAt command c _ _ _ small tasks h = tt
  Advances-IsWritableAt command c _ _ _ small (fetches w w' page e) h =
      page_to_string-ne-panic command c.uuid c.task_config.maximum_redirects page (
        (perform_crawl-Ensures crates client c command c.task_config.robots_txt_info_url c.uuid
            small).apply
          w w' page e)
  Advances-IsWritableAt command c d _ _ small (refuses verdict w w' _ page n e) h =
      refused-IsWritableAt command c d verdict w w' page small e
  Advances-IsWritableAt command c _ _ _ small (knows page) h = h
  Advances-IsWritableAt command c _ _ _ small skips h = tt
  Advances-IsWritableAt command c _ _ _ small (lists page loads e) h = h

  write-IsClosed : IsClosed crates client write_claim
  write-IsClosed = record {
    fine_stable = λ c d same h.
        subst (λ m. m < 256)
          (ap (λ (x : TaskContext.TaskConfig crates.Uri). x.maximum_redirects) same.config) h;
    good_stable = λ c d load same h. tt;
    at_stable = λ c d command stage same h. h;
    first = λ run_config uuid now c counted e. (
      subst (λ m. m < 256) (sym (init-IsMade crates run_config uuid now c e).redirects) counted,
      tt,
    );
    spawn = λ c load uuid h. tt;
    advance = λ command c d stage stage' fine a h.
        Advances-IsWritableAt command c d stage stage' fine a h;
    send = λ c command load loads page h. (tt, h);
    report = λ c command page h. tt;
  }

  gc_events-IsWritable :
      (clock : ℕ → ℕ) (timeout : ℕ) (entries : List (ℕ × TaskContext crates))
      → All IsWritable (gc_events crates clock timeout entries)
  unfolding gc_events
  gc_events-IsWritable clock timeout [] = tt
  gc_events-IsWritable clock timeout ((key, c) ∷ entries) =
      elim (Bool-cases (can_be_garbage_collected crates c (clock key) timeout)) [
        | inl old ↦ rw old (tt, gc_events-IsWritable clock timeout entries)
        | inr young ↦ rw young (gc_events-IsWritable clock timeout entries)
      ]

  All-lost :
      (events : List CrawlerEvent) (event : CrawlerEvent) (is_lost : Bool)
      → All IsWritable events
      → IsWritable event
      → All IsWritable (if is_lost then events else events ++ event ∷ [])
  All-lost events event true h k = h
  All-lost events event false h k = All-append _ events _ h (k, tt)

  events-Step :
      (s t : Process crates)
      → IsInvariant crates write_claim s
      → All IsWritable s.events
      → Step crates client s t
      → All IsWritable t.events
  unfolding enqueue
  events-Step s _ h k (receives address load channel l e) = k
  events-Step s _ h k (starts run_config key now channel c l e i) = k
  events-Step s _ h k (stops run_config key now channel l e i) = k
  events-Step s _ h k (adds address key load l room) = k
  events-Step s _ h k (advances r rest c d stage t found a) = k
  events-Step s _ h k (sends r rest load loads page t e alive room) = k
  events-Step s _ h k (reports r rest page is_lost t e) =
      let g =
        (All-Takes (IsSoundCrawl crates write_claim s.contexts) r s.crawls rest t h.crawls).0 in
      All-lost s.events (page_event page) is_lost k (subst IsWritableAt e g.sound)
  events-Step s _ h k (ends r rest c t found e) = k
  events-Step s _ h k (fails r rest load loads page t e gone) = k
  events-Step s _ h k (dies r rest c t found p) = k

  events-Runs :
      (cpus : ℕ) (s : Process crates)
      → Reachable crates client IsCounted cpus s
      → All IsWritable s.events
  unfolding enqueue collect init_with_factory
  events-Runs cpus _ rests = tt
  events-Runs cpus _ (steps t u r e) =
      events-Step t u (Reachable-IsInvariant crates client write_claim write-IsClosed cpus t r)
        (events-Runs cpus t r) e
  events-Runs cpus _ (disturbs t _ r (submits run_config key ok alive room)) = events-Runs cpus t r
  events-Runs cpus _ (disturbs t _ r (collects clock)) =
      All-append _ t.events _ (events-Runs cpus t r) (gc_events-IsWritable clock 60_000 _)

  All-among :
      (events among : List CrawlerEvent)
      → All IsWritable among
      → All (λ event. Memᴰ event among) events
      → All IsWritable events
  All-among events among h m = All-mono (λ event. find among h event) events m
    where
      find :
          (among : List CrawlerEvent)
          → All IsWritable among
          → (event : CrawlerEvent) → Memᴰ event among
          → IsWritable event
      find [] h event m = elim m [ ]
      find (x ∷ among) h event (Memᴰ.head e) = subst IsWritable (sym e) h.0
      find (x ∷ among) h event (Memᴰ.tail m) = find among h.1 event m

module _ {W V : Type 0} (crates : Crates) (client : HttpClient W) (callbacks : CallbackClient V)
    (run_config : RunConfig) where
  -- The server takes all that the service sends: if every crawl that is asked for has a limit of
  -- redirects of eight bits, the run configuration's user agent is a header's value, its callback
  -- URLs are URIs and its posts are answered, then the server's loop over events that the service
  -- has sent in any of its states, however many of them and in any order, does not panic.
  pub Reachable-process_events :
      (cpus : ℕ) (s : Process crates) (events : List CrawlerEvent) (v : V)
      → Reachable crates client IsCounted cpus s
      → All (λ event. Memᴰ event s.events) events
      → IsPostable crates callbacks run_config
      → process_events crates callbacks run_config events v ≢ panic
  Reachable-process_events cpus s events v reached among h =
      process_events-ne-panic crates callbacks run_config events v h
        (All-among crates client events s.events (events-Runs crates client cpus s reached) among)
