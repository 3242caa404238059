-- ===== src/PageLoader/Service/Process/Exhaustive.antt =====
-- page_loader_service.rs leaves no link of a page behind.
use mathlib.Core.List.{Memᴰ}
use tarantula.Base.{
  ◌≤◌, ◌≡◌, ◌∙◌, ℕ, refl, sym, subst, inl, inr, true, List, [], some, done, Any, ◌<◌, ◌⊎◌, Text,
  false,
}
use tarantula.Crates.{Crates}
use tarantula.Responses.RunConfig.{RunConfig}
use tarantula.Responses.Link.{Link}
use tarantula.Responses.PageResponse.{PageResponse}
use tarantula.PageLoader.HttpClient.{HttpClient}
use tarantula.PageLoader.TaskContext.{TaskContext, can_access}
use tarantula.PageLoader.Service.{LoadPage, is_followed, prepare_load_command, dedup_links}
use tarantula.PageLoader.Service.Process.{Process, Crawl, Takes, receiving, sending_first, crawled}
use tarantula.PageLoader.Service.Process.Steps.{Runs, Reachable}
use tarantula.PageLoader.Service.Process.Picks.{Takes-Any}
use tarantula.PageLoader.Service.Process.Kept.{made-lt}
use tarantula.PageLoader.Service.Process.Collected.{IsKept-Runs, init-IsKept}
use tarantula.PageLoader.Service.Process.Covered.{IsCalm}
use tarantula.PageLoader.Service.Process.Reported.{HasUrl}
use tarantula.PageLoader.Service.Process.Announced.{Reports, BringsFor, IsAnnounced, IsHeard}
use tarantula.PageLoader.Service.Process.Heard.{Reachable-IsAnnounced}
use tarantula.PageLoader.Service.Process.Settled.{
  IsSettled, is_crawled, is_tasked, is_too_deep, is_restricted,
}
use tarantula.PageLoader.Service.Process.Owed.{OwesAt}
use tarantula.PageLoader.Service.Process.Pending.{
  IsCommand, Owes, IsPending, queued, first, running,
}
use tarantula.PageLoader.Service.Process.Unlost.{IsOwed-Runs}

module _ {W : Type 0} (crates : Crates) (client : HttpClient W) where
  -- The service has nothing left to do.
  pub record IsIdle (s : Process crates) : Type 0 where
    pub loop : s.loop ≡ receiving
    pub channel : s.channel ≡ []
    pub crawls : s.crawls ≡ []

  -- A page is reported for the URL, or the depth reaches the limit, or the URL is restricted.
  abbrev pub IsReported : TaskContext crates → Process crates → Text → ℕ → Type 0
  IsReported d t url depth =
      Any (Reports d.uuid url) t.events
      ⊎ (((0 < d.task_config.maximum_depth) × (d.task_config.maximum_depth ≤ depth))
          ⊎ (can_access crates d url ≡ false))

  not_pending :
      (address : ℕ) (load : LoadPage) (c : TaskContext crates) (s : Process crates)
      → IsIdle s
      → IsPending crates client address load c s
      → ⊥
  not_pending address load c s h (queued m) =
      subst (Any (IsCommand crates client address load)) h.channel m
  not_pending address load c s h (first uuid e) =
      let no : receiving ≡ sending_first address uuid load = sym h.loop ∙ e in cc
  not_pending address load c s h (running m) =
      subst (Any (Owes crates client address load c)) h.crawls m

  -- A command for a task that is pending in a state that the service comes to is settled in every
  -- state after it in which nothing is left to do.
  pub Reachable-settles :
      (Allowed : RunConfig → Type 0) (cpus address : ℕ) (s t : Process crates) (load : LoadPage)
      (c : TaskContext crates)
      → Reachable crates client Allowed cpus s
      → s.contexts address ≡ some c
      → IsPending crates client address load c s
      → (run : Runs crates client Allowed s t) → IsCalm crates client run
      → IsIdle t
      → (d : TaskContext crates) × (t.contexts address ≡ some d)
        × IsSettled crates d load.url load.current_depth
  Reachable-settles Allowed cpus address s t load c reached found pending run calm idle =
      let k = IsKept-Runs crates client Allowed _ s (init-IsKept crates client cpus) reached in
      let h =
        IsOwed-Runs crates client address load Allowed s t
          (record {
            context = c;
            found = found;
            drawn = made-lt crates s.contexts address s.fresh k.unmade (c, found);
            state = inr pending;
          })
          run calm in
      (
        h.context,
        h.found,
        elim h.state [
          | inl settled ↦ settled
          | inr p ↦ absurd (not_pending address load h.context t idle p)
        ],
      )

  -- No link is left behind. Take a crawl, in any state that the service comes to, that has its page,
  -- of a depth that is at most the task's limit, and a link of the page, of neighbours with one URI
  -- the first, of a scope that is followed and from which a URL can be formed. In every state after
  -- it without a panic of a spawned task, in which the channel is empty, no crawl runs and the loop
  -- receives, the URL is crawled or tasked by the task, or its depth reaches the limit, or the
  -- robots service restricts it.
  pub Reachable-IsSettled :
      (Allowed : RunConfig → Type 0) (cpus : ℕ) (s t : Process crates) (r : Crawl)
      (rest : List Crawl) (c : TaskContext crates) (page : PageResponse) (links : List Link)
      (link : Link) (load : LoadPage)
      → Reachable crates client Allowed cpus s
      → Takes r s.crawls rest
      → s.contexts r.address ≡ some c
      → r.stage ≡ crawled (some page)
      → page.links ≡ some links
      → Memᴰ link (dedup_links links)
      → is_followed link.scope ≡ true
      → r.command.current_depth ≤ c.task_config.maximum_depth
      → prepare_load_command crates c r.command link ≡ done load
      → (run : Runs crates client Allowed s t) → IsCalm crates client run
      → IsIdle t
      → (d : TaskContext crates) × (t.contexts r.address ≡ some d)
        × IsSettled crates d load.url load.current_depth
  Reachable-IsSettled Allowed cpus s t r rest c page links link load reached taken found stage has
        member followed within prepared run calm idle =
      Reachable-settles Allowed cpus r.address s t load c reached found
        (running (
          Takes-Any (Owes crates client r.address load c) r s.crawls rest taken (
            refl,
            subst (OwesAt crates c load r.command) (sym stage) (record {
              links = links;
              link = link;
              has = has;
              member = member;
              followed = followed;
              within = within;
              prepared = prepared;
            }),
          )))
        run calm idle

  -- What is known to the task is reported, where no crawl is left.
  settled_reports :
      (d : TaskContext crates) (t : Process crates) (address : ℕ) (url : Text) (depth : ℕ)
      → IsAnnounced crates client t
      → t.contexts address ≡ some d
      → t.crawls ≡ []
      → IsSettled crates d url depth
      → IsReported d t url depth
  settled_reports d t address url depth h found over settled = elim settled [
    | is_crawled m ↦ inl (known_reports (inl m))
    | is_tasked m ↦ inl (known_reports (inr m))
    | is_too_deep some_limit deep ↦ inr (inl (some_limit, deep))
    | is_restricted e ↦ inr (inr e)
  ]
    where
      known_reports : HasUrl d url → Any (Reports d.uuid url) t.events
      known_reports has = elim (h address d url found has) [
        | inl m ↦ m
        | inr m ↦ absurd (subst (Any (BringsFor address url)) over m)
      ]

  -- The crawl is exhaustive. Take a crawl, in any state that the service comes to, that has its page,
  -- of a depth that is at most the task's limit, and a link of the page, of neighbours with one URI
  -- the first, of a scope that is followed and from which a URL can be formed. If no spawned task
  -- panics and no event of a page is lost, from the start of the service to a later state in which the
  -- channel is empty, no crawl runs and the loop receives, then an event has been sent with a page of
  -- the task that is for that URL or that redirects have led to it, or the depth below the page
  -- reaches the limit, or the robots service restricts the URL.
  pub Reachable-IsReported :
      (Allowed : RunConfig → Type 0) (cpus : ℕ) (s t : Process crates) (r : Crawl)
      (rest : List Crawl) (c : TaskContext crates) (page : PageResponse) (links : List Link)
      (link : Link) (load : LoadPage) (reached : Reachable crates client Allowed cpus s)
      → IsCalm crates client reached
      → IsHeard crates client reached
      → Takes r s.crawls rest
      → s.contexts r.address ≡ some c
      → r.stage ≡ crawled (some page)
      → page.links ≡ some links
      → Memᴰ link (dedup_links links)
      → is_followed link.scope ≡ true
      → r.command.current_depth ≤ c.task_config.maximum_depth
      → prepare_load_command crates c r.command link ≡ done load
      → (run : Runs crates client Allowed s t) → IsCalm crates client run
      → IsHeard crates client run
      → IsIdle t
      → (d : TaskContext crates) × (t.contexts r.address ≡ some d)
        × IsReported d t load.url load.current_depth
  Reachable-IsReported Allowed cpus s t r rest c page links link load reached calm heard taken found
        stage has member followed within prepared run calm' heard' idle =
      let (d, at, settled) =
        Reachable-IsSettled Allowed cpus s t r rest c page links link load reached taken found stage
          has member followed within prepared run calm' idle in
      (
        d,
        at,
        settled_reports d t r.address load.url load.current_depth
            (Reachable-IsAnnounced crates client Allowed cpus s t reached calm heard run calm'
              heard')
            at idle.crawls settled,
      )
