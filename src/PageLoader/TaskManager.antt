-- ===== src/PageLoader/TaskManager.antt =====
-- page_loader/src/task_context_manager/mod.rs: the tasks, and the collector that drops idle ones.
-- A task's key is the text of its uuid, which determines the uuid; here it is the uuid.
pub mod Collection
use tarantula.Base.{
  ℕ, Bool, not, List, [], ◌∷◌, Option, none, some, any, ◌==◌, if◌then◌else◌, length, retain, map,
}
use tarantula.Crates.{Crates}
use tarantula.PageLoader.CrawlerEvent.{CrawlerEvent, complete_event}
use tarantula.PageLoader.TaskContext.{TaskContext, can_be_garbage_collected}

-- The map of tasks, by uuid.
module _ {ℓ} {V : Type ℓ} where
  unfoldable pub lookup : ℕ → List (ℕ × V) → Option V
  lookup key [] = none
  lookup key ((k, v) ∷ entries) = if k == key then some v else lookup key entries

  unfoldable pub insert : ℕ → V → List (ℕ × V) → List (ℕ × V)
  insert key value [] = (key, value) ∷ []
  insert key value ((k, v) ∷ entries) =
      if k == key then (key, value) ∷ entries else (k, v) ∷ insert key value entries

abbrev pub has_key : ℕ → List ℕ → Bool
has_key key = any (λ k. k == key)

pub record TaskManager (crates : Crates) : Type 0 where
  pub tasks : List (ℕ × TaskContext crates)
  pub gc_timeout_ms : ℕ

module _ (crates : Crates) where
  unfoldable pub init : ℕ → TaskManager crates
  init gc_timeout_ms = record { tasks = []; gc_timeout_ms = gc_timeout_ms }

  unfoldable pub add_task : TaskManager crates → TaskContext crates → TaskManager crates
  add_task m task = record m { tasks = insert task.uuid task m.tasks }

  unfoldable pub get_number_of_tasks : TaskManager crates → ℕ
  get_number_of_tasks m = length m.tasks

  module _ (clock : ℕ → ℕ) (gc_timeout_ms : ℕ) where
    -- The loop over the tasks: the keys to drop and the events sent. The clock says when the task
    -- of a key is looked at; that an event could not be sent is only logged.
    unfoldable pub to_gc : List (ℕ × TaskContext crates) → List ℕ
    to_gc [] = []
    to_gc ((key, value) ∷ tasks) =
        let rest = to_gc tasks in
        if can_be_garbage_collected crates value (clock key) gc_timeout_ms then key ∷ rest else rest

    unfoldable pub gc_events : List (ℕ × TaskContext crates) → List CrawlerEvent
    gc_events [] = []
    gc_events ((key, value) ∷ tasks) =
        let rest = gc_events tasks in
        if can_be_garbage_collected crates value (clock key) gc_timeout_ms
        then complete_event value.uuid ∷ rest
        else rest

  unfoldable pub do_garbage_collection :
      (ℕ → ℕ) → TaskManager crates → TaskManager crates × List CrawlerEvent
  unfolding to_gc gc_events
  do_garbage_collection clock m = (
    record m {
      tasks = retain (λ e. not (has_key e.0 (to_gc clock m.gc_timeout_ms m.tasks))) m.tasks;
    },
    gc_events clock m.gc_timeout_ms m.tasks,
  )
