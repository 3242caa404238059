-- ===== src/PageLoader/Service/Process/Tasks.antt =====
-- The task manager's map in page_loader_service.rs, with the contexts at their addresses.
use tarantula.Base.{
  Bool, ==_iff, ap, ℕ, ◌≡◌, refl, sym, subst, ◌∙◌, inl, inr, true, false, List, [], ◌∷◌, Option,
  none, some, ◌==◌, Bool-cases, Option-cases,
}
use tarantula.Crates.{Crates}
use tarantula.PageLoader.TaskContext.{TaskContext, can_be_garbage_collected}
use tarantula.PageLoader.TaskContext.Registrar.{is_registered, busy_of}
use tarantula.PageLoader.TaskManager.{lookup, has_key, to_gc}
use tarantula.PageLoader.TaskManager.Collection.{
  IsDistinct, has_key-to_gc, collectable, lookup-retain,
}
use tarantula.PageLoader.Service.Process.{Process, collect, tasks_of}
use tarantula.PageLoader.Service.Process.Contexts.{Contexts}

module _ (crates : Crates) (contexts : Contexts crates) where
  abbrev context_at : Option ℕ → Option (TaskContext crates)
  context_at none = none
  context_at (some address) = contexts address

  lookup-tasks_of :
      (key : ℕ) (tasks : List (ℕ × ℕ))
      → IsDistinct tasks
      → lookup key (tasks_of crates contexts tasks) ≡ context_at (lookup key tasks)
  unfolding lookup tasks_of
  lookup-tasks_of key [] d = refl
  lookup-tasks_of key ((k, a) ∷ tasks) d = elim (Bool-cases (k == key)) [
    | inl hit ↦ elim (Option-cases (contexts a)) [
      | inl e ↦
          rw (hit, e)
            (lookup-tasks_of key tasks d.1
              ∙ ap context_at (subst (λ x. lookup x tasks ≡ none) ((==_iff k key).0 hit) d.0))
      | inr (c, e) ↦ rw (e, hit) (sym e)
    ]
    | inr miss ↦ elim (Option-cases (contexts a)) [
      | inl e ↦ rw (e, miss) (lookup-tasks_of key tasks d.1)
      | inr (c, e) ↦ rw (e, miss) (lookup-tasks_of key tasks d.1)
    ]
  ]

  tasks_of-IsDistinct :
      (tasks : List (ℕ × ℕ)) → IsDistinct tasks → IsDistinct (tasks_of crates contexts tasks)
  unfolding tasks_of
  tasks_of-IsDistinct [] d = tt
  tasks_of-IsDistinct ((k, a) ∷ tasks) d = elim (Option-cases (contexts a)) [
    | inl e ↦ rw e (tasks_of-IsDistinct tasks d.1)
    | inr (c, e) ↦
        rw e (lookup-tasks_of k tasks d.1 ∙ ap context_at d.0, tasks_of-IsDistinct tasks d.1)
  ]

  pub has_key-tasks_of :
      (clock : ℕ → ℕ) (key address : ℕ) (tasks : List (ℕ × ℕ)) (c : TaskContext crates)
      → IsDistinct tasks
      → lookup key tasks ≡ some address
      → contexts address ≡ some c
      → (collected : Bool) → can_be_garbage_collected crates c (clock key) 60_000 ≡ collected
      → has_key key (to_gc crates clock 60_000 (tasks_of crates contexts tasks)) ≡ collected
  has_key-tasks_of clock key address tasks c d e found collected busy =
      has_key-to_gc crates clock 60_000 key _ (tasks_of-IsDistinct tasks d)
      ∙ ap (collectable crates clock 60_000 key)
          (lookup-tasks_of key tasks d ∙ ap context_at e ∙ found)
      ∙ busy

module _ (crates : Crates) (clock : ℕ → ℕ) where
  -- A task with a registered command is kept by a collection.
  pub lookup-collect :
      (s : Process crates) (key address uuid : ℕ) (c : TaskContext crates)
      → IsDistinct s.tasks
      → lookup key s.tasks ≡ some address
      → s.contexts address ≡ some c
      → is_registered uuid c.crawl_commands ≡ true
      → lookup key (collect crates clock s).tasks ≡ some address
  unfolding collect
  lookup-collect s key address uuid c d e found registered =
      let busy = busy_of crates c.crawl_commands c (clock key) 60_000 uuid refl registered in
      let free =
        has_key-tasks_of crates s.contexts clock key address s.tasks c d e found false busy in
      lookup-retain key
        (λ k. has_key k (to_gc crates clock 60_000 (tasks_of crates s.contexts s.tasks))) s.tasks
      ∙ rw (free, e) refl
