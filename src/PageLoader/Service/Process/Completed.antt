-- ===== src/PageLoader/Service/Process/Completed.antt =====
-- The end of a task of page_loader_service.rs: its collection, and its complete event.
use mathlib.Core.List.{Memᴰ}
use tarantula.Base.{
  arith, All, ℕ, ◌+◌, ◌*◌, ◌<◌, ◌≡◌, ◌≢◌, refl, sym, ◌∙◌, inl, inr, true, false, List, [], ◌∷◌,
  ◌++◌, none, some, any, ◌==◌, ==_iff, Bool-cases, Option-cases,
}
use tarantula.Crates.{Crates}
use tarantula.Responses.RunConfig.{RunConfig}
use tarantula.PageLoader.HttpClient.{HttpClient}
use tarantula.PageLoader.CrawlerEvent.{CrawlerEvent, complete_event}
use tarantula.PageLoader.TaskContext.{TaskContext, can_be_garbage_collected}
use tarantula.PageLoader.TaskContext.Registrar.{can_be_garbage_collected_of, unregistered-eq-nil}
use tarantula.PageLoader.TaskManager.{lookup, has_key, to_gc, gc_events}
use tarantula.PageLoader.TaskManager.Collection.{lookup-retain}
use tarantula.PageLoader.Service.Process.{Crawl, Process, collect, tasks_of, init_with_factory}
use tarantula.PageLoader.Service.Process.Steps.{Reachable}
use tarantula.PageLoader.Service.Process.Contexts.{Contexts}
use tarantula.PageLoader.Service.Process.Tasks.{has_key-tasks_of}
use tarantula.PageLoader.Service.Process.Collected.{IsKept-Runs, init-IsKept}
use tarantula.PageLoader.Service.Process.Covered.{is_for, IsCalm, IsCovered, IsCovered-Runs}

Memᴰ-append :
    (event : CrawlerEvent) (xs ys : List CrawlerEvent) → Memᴰ event ys → Memᴰ event (xs ++ ys)
Memᴰ-append event [] ys m = m
Memᴰ-append event (x ∷ xs) ys m = Memᴰ.tail (Memᴰ-append event xs ys m)

none-ne-some : (address : ℕ) → none ≢ some address
none-ne-some address e = cc

false-ne-true : false ≢ true
false-ne-true e = cc

module _ (crates : Crates) (contexts : Contexts crates) (clock : ℕ → ℕ) where
  -- The complete event of a task that may be collected is among those that are sent.
  Memᴰ-gc_events :
      (key address : ℕ) (tasks : List (ℕ × ℕ)) (c : TaskContext crates)
      → lookup key tasks ≡ some address
      → contexts address ≡ some c
      → can_be_garbage_collected crates c (clock key) 60_000 ≡ true
      → Memᴰ
          (complete_event c.uuid)
          (gc_events crates clock 60_000 (tasks_of crates contexts tasks))
  unfolding lookup tasks_of gc_events
  Memᴰ-gc_events key address [] c e found idle = absurd (none-ne-some address e)
  Memᴰ-gc_events key address ((k, a) ∷ tasks) c e found idle = elim (Bool-cases (k == key)) [
    | inl hit ↦
        let same : some a ≡ some address = rw hit at e in
        let eq : a ≡ address = cc in rw (eq, found, (==_iff k key).0 hit, idle) (Memᴰ.head refl)
    | inr miss ↦
        let m = Memᴰ-gc_events key address tasks c (rw miss at e) found idle in
        elim (Option-cases (contexts a)) [
          | inl empty ↦ rw empty m
          | inr (d, there) ↦
              elim (Bool-cases (can_be_garbage_collected crates d (clock k) 60_000)) [
                | inl old ↦ rw (there, old) (Memᴰ.tail m)
                | inr young ↦ rw (there, young) m
              ]
        ]
  ]

module _ {W : Type 0} (crates : Crates) (client : HttpClient W) where
  init-IsCovered : (cpus : ℕ) → IsCovered crates client (init_with_factory crates cpus)
  unfolding init_with_factory
  init-IsCovered cpus address uuid c at registered = cc

  -- No crawl of the list is one of the task at the address.
  abbrev pub IsLeft : ℕ → List Crawl → Type 0
  IsLeft address crawls = All (λ r. r.address ≢ address) crawls

  none_for :
      (address uuid : ℕ) (crawls : List Crawl)
      → IsLeft address crawls
      → any (is_for address uuid) crawls ≡ false
  none_for address uuid [] h = refl
  none_for address uuid (r ∷ crawls) h =
      ground (arith, h.0, none_for address uuid crawls h.1, ==_iff r.address address)

  -- A task ends, whatever other tasks do: in every state that the service comes to without a panic
  -- of a spawned task, a collection drops each task of the manager's of which no crawl runs and that
  -- has received no command for longer than its crawl delay and a minute, and sends its complete
  -- event.
  pub Reachable-complete :
      (Allowed : RunConfig → Type 0) (cpus : ℕ) (s : Process crates)
      (run : Reachable crates client Allowed cpus s) (clock : ℕ → ℕ) (key address : ℕ)
      (c : TaskContext crates)
      → IsCalm crates client run
      → IsLeft address s.crawls
      → lookup key s.tasks ≡ some address
      → s.contexts address ≡ some c
      → c.last_command_received + (c.task_config.crawl_delay_ms + 60_000) * 1_000_000 < clock key
      → (lookup key (collect crates clock s).tasks ≡ none)
        × Memᴰ (complete_event c.uuid) (collect crates clock s).events
  unfolding collect
  Reachable-complete Allowed cpus s run clock key address c calm over e found long =
      let h = IsKept-Runs crates client Allowed _ s (init-IsKept crates client cpus) run in
      let covered = IsCovered-Runs crates client Allowed _ s (init-IsCovered cpus) run calm in
      let idle = unregistered-eq-nil c.crawl_commands λ uuid registered.
        false-ne-true
          (sym (none_for address uuid s.crawls over) ∙ covered address uuid c found registered) in
      let old = can_be_garbage_collected_of crates c (clock key) 60_000 idle long in
      let dropped =
        has_key-tasks_of crates s.contexts clock key address s.tasks c h.tasks e found true old in
      (
        lookup-retain key
              (λ k. has_key k (to_gc crates clock 60_000 (tasks_of crates s.contexts s.tasks)))
              s.tasks
            ∙ rw dropped refl,
        Memᴰ-append _ s.events _
            (Memᴰ-gc_events crates s.contexts clock key address s.tasks c e found old),
      )
