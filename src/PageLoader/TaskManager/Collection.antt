-- ===== src/PageLoader/TaskManager/Collection.antt =====
-- The garbage collection of task_context_manager/mod.rs.
use tarantula.Base.{
  All-retain, inr, inl, Bool-cases, ℕ, ◌≡◌, refl, Bool, false, not, List, [], ◌∷◌, Option, none,
  some, arith, ◌==◌, if◌then◌else◌, retain, map, All,
}
use tarantula.Crates.{Crates}
use tarantula.PageLoader.CrawlerEvent.{complete_event}
use tarantula.PageLoader.TaskContext.{TaskContext, can_be_garbage_collected}
use tarantula.PageLoader.TaskManager.{
  TaskManager, lookup, insert, has_key, add_task, to_gc, gc_events, do_garbage_collection,
}

-- Every key stands once.
abbrev pub IsDistinct {ℓ} : {V : Type ℓ} → List (ℕ × V) → Type ℓ
IsDistinct [] = Unit
IsDistinct (e ∷ entries) = (lookup e.0 entries ≡ none) × IsDistinct entries

module _ {ℓ} {V : Type ℓ} where
  pub lookup-insert :
      (key other : ℕ) (value : V) (entries : List (ℕ × V))
      → lookup other (insert key value entries)
        ≡ (if key == other then some value else lookup other entries)
  unfolding lookup insert
  lookup-insert key other value [] = refl
  lookup-insert key other value ((k, v) ∷ entries) =
      ground (arith, lookup-insert key other value entries)

  pub insert-IsDistinct :
      (key : ℕ) (value : V) (entries : List (ℕ × V))
      → IsDistinct entries
      → IsDistinct (insert key value entries)
  unfolding insert lookup
  insert-IsDistinct key value [] h = (refl, tt)
  insert-IsDistinct key value ((k, v) ∷ entries) h = elim (Bool-cases (k == key)) [
    | inl hit ↦ rw hit ((ground arith), h.1)
    | inr miss ↦
        rw miss (
          ground (arith, lookup-insert key k value entries),
          insert-IsDistinct key value entries h.1,
        )
  ]

  pub lookup-retain :
      (key : ℕ) (p : ℕ → Bool) (entries : List (ℕ × V))
      → lookup key (retain (λ e. not (p e.0)) entries)
        ≡ (if p key then none else lookup key entries)
  unfolding lookup
  lookup-retain key p [] = ground arith
  lookup-retain key p ((k, v) ∷ entries) = ground (arith, lookup-retain key p entries)

  pub retain-IsDistinct :
      (p : ℕ → Bool) (tasks : List (ℕ × V))
      → IsDistinct tasks
      → IsDistinct (retain (λ e. not (p e.0)) tasks)
  retain-IsDistinct p [] h = tt
  retain-IsDistinct p ((k, v) ∷ tasks) h = elim (Bool-cases (p k)) [
    | inl drop ↦ rw drop (retain-IsDistinct p tasks h.1)
    | inr keep ↦ rw keep (rw (lookup-retain k p tasks, keep) h.0, retain-IsDistinct p tasks h.1)
  ]

module _ (crates : Crates) where
  -- The map's keys are distinct, and are the tasks' own.
  pub record IsValid (m : TaskManager crates) : Type 0 where
    pub distinct : IsDistinct m.tasks
    pub keyed : All (λ e. e.0 ≡ e.1.uuid) m.tasks

  insert-keyed :
      (task : TaskContext crates) (tasks : List (ℕ × TaskContext crates))
      → All (λ e. e.0 ≡ e.1.uuid) tasks
      → All (λ e. e.0 ≡ e.1.uuid) (insert task.uuid task tasks)
  unfolding insert
  insert-keyed task [] h = (refl, tt)
  insert-keyed task ((k, v) ∷ tasks) h = elim (Bool-cases (k == task.uuid)) [
    | inl hit ↦ rw hit (refl, h.1)
    | inr miss ↦ rw miss (h.0, insert-keyed task tasks h.1)
  ]

  IsValid-add_task :
      (m : TaskManager crates) (task : TaskContext crates)
      → IsValid m
      → IsValid (add_task crates m task)
  unfolding add_task
  IsValid-add_task m task h = record {
    distinct = insert-IsDistinct task.uuid task m.tasks h.distinct;
    keyed = insert-keyed task m.tasks h.keyed;
  }

module _ (crates : Crates) (clock : ℕ → ℕ) where
  -- Whether the task of a key is there and may be collected.
  abbrev pub collectable : ℕ → ℕ → Option (TaskContext crates) → Bool
  collectable timeout key none = false
  collectable timeout key (some task) = can_be_garbage_collected crates task (clock key) timeout

  pub has_key-to_gc :
      (timeout key : ℕ) (tasks : List (ℕ × TaskContext crates))
      → IsDistinct tasks
      → has_key key (to_gc crates clock timeout tasks) ≡ collectable timeout key (lookup key tasks)
  unfolding to_gc lookup
  has_key-to_gc timeout key [] h = refl
  has_key-to_gc timeout key ((k, v) ∷ tasks) h = ground (arith, has_key-to_gc timeout key tasks h.1)

  gc_events-eq :
      (timeout : ℕ) (tasks : List (ℕ × TaskContext crates))
      → All (λ e. e.0 ≡ e.1.uuid) tasks
      → gc_events crates clock timeout tasks ≡ map complete_event (to_gc crates clock timeout tasks)
  unfolding gc_events to_gc
  gc_events-eq timeout [] h = refl
  gc_events-eq timeout ((k, v) ∷ tasks) h = ground (arith, gc_events-eq timeout tasks h.1)

  -- A collection keeps the map in order.
  do_garbage_collection-IsValid :
      (m : TaskManager crates)
      → IsValid crates m
      → IsValid crates (do_garbage_collection crates clock m).0
  unfolding do_garbage_collection
  do_garbage_collection-IsValid m h = record {
    distinct = retain-IsDistinct _ m.tasks h.distinct;
    keyed = All-retain _ _ m.tasks h.keyed;
  }

  -- A collection drops exactly the tasks that may be collected when they are looked at, and keeps
  -- every other task as it is. It sends one complete event for each dropped task, with its uuid,
  -- and no other. The map stays in order.
  pub do_garbage_collection_lem :
      (m : TaskManager crates)
      → IsValid crates m
      → IsValid crates (do_garbage_collection crates clock m).0
        × ((key : ℕ)
            → lookup key (do_garbage_collection crates clock m).0.tasks ≡ (
                if collectable m.gc_timeout_ms key (lookup key m.tasks)
                then none
                else lookup key m.tasks))
        × ((do_garbage_collection crates clock m).1
            ≡ map complete_event (to_gc crates clock m.gc_timeout_ms m.tasks))
        × ((key : ℕ)
            → has_key key (to_gc crates clock m.gc_timeout_ms m.tasks)
              ≡ collectable m.gc_timeout_ms key (lookup key m.tasks))
  unfolding do_garbage_collection
  do_garbage_collection_lem m h = (
    do_garbage_collection-IsValid m h,
    λ key.
        rw (← (has_key-to_gc m.gc_timeout_ms key m.tasks h.distinct))
          (lookup-retain key (λ k. has_key k (to_gc crates clock m.gc_timeout_ms m.tasks)) m.tasks),
    gc_events-eq m.gc_timeout_ms m.tasks h.keyed,
    λ key. has_key-to_gc m.gc_timeout_ms key m.tasks h.distinct,
  )
