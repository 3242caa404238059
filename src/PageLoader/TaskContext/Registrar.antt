-- ===== src/PageLoader/TaskContext/Registrar.antt =====
-- The registered commands of a task, and when the task may be thrown away (task_context.rs).
use tarantula.Base.{
  ap, ℕ, ◌+◌, ◌*◌, ◌%◌, ◌<◌, ◌≡◌, ◌≢◌, refl, ◌↔◌, Bool, true, false, not, List, [], ◌∷◌, ◌++◌,
  arith, any, ◌==◌, All, retain, ◌⊎◌, inl, inr, Bool-cases,
}
use tarantula.Crates.{Crates}
use tarantula.PageLoader.TaskContext.{
  TaskContext, can_be_garbage_collected, register_crawl_command, unregister_crawl_command,
}

pub data Change : Type 0 where
  registers : ℕ → Change
  unregisters : ℕ → Change

abbrev pub is_registered : ℕ → List ℕ → Bool
is_registered uuid commands = any (λ value. value == uuid) commands

pub any-append :
    (uuid : ℕ) (xs : List ℕ) (y : ℕ)
    → is_registered uuid xs ≡ true
    → is_registered uuid (xs ++ y ∷ []) ≡ true
any-append uuid [] y h = cc
any-append uuid (x ∷ xs) y h = ground (arith, any-append uuid xs y)

pub is_registered-retain :
    (uuid other : ℕ) (xs : List ℕ)
    → uuid ≢ other
    → is_registered uuid (retain (λ value. not (value == other)) xs) ≡ is_registered uuid xs
is_registered-retain uuid other [] h = refl
is_registered-retain uuid other (x ∷ xs) h = ground (arith, is_registered-retain uuid other xs h)

pub is_registered-append_inv :
    (uuid : ℕ) (xs : List ℕ) (y : ℕ)
    → is_registered uuid (xs ++ y ∷ []) ≡ true
    → (is_registered uuid xs ≡ true) ⊎ (y ≡ uuid)
is_registered-append_inv uuid [] y h = ground (arith, h)
is_registered-append_inv uuid (x ∷ xs) y h = ground (arith, h, is_registered-append_inv uuid xs y)

pub is_registered-retain_inv :
    (uuid other : ℕ) (xs : List ℕ)
    → is_registered uuid (retain (λ value. not (value == other)) xs) ≡ true
    → (is_registered uuid xs ≡ true) × (other ≢ uuid)
is_registered-retain_inv uuid other [] h = absurd (ground (arith, h))
is_registered-retain_inv uuid other (x ∷ xs) h = elim (Bool-cases (x == other)) [
  | inl drop ↦
      let k = is_registered-retain_inv uuid other xs (rw drop at h) in (ground (arith, k.0), k.1)
  | inr keep ↦ elim (Bool-cases (x == uuid)) [
    | inl hit ↦ (ground (arith, hit), λ same. ground (arith, hit, keep, same))
    | inr miss ↦
        let k = is_registered-retain_inv uuid other xs (rw (keep, miss) at h) in
        (ground (arith, k.0), k.1)
  ]
]

pub unregistered-eq-nil : (xs : List ℕ) → ((uuid : ℕ) → is_registered uuid xs ≢ true) → xs ≡ []
unregistered-eq-nil [] h = refl
unregistered-eq-nil (x ∷ xs) h = absurd (h x (ground arith))

retain-register :
    (uuid : ℕ) (xs : List ℕ)
    → is_registered uuid xs ≡ false
    → retain (λ value. not (value == uuid)) (xs ++ uuid ∷ []) ≡ xs
retain-register uuid [] h = ground arith
retain-register uuid (x ∷ xs) h = ground (arith, retain-register uuid xs)

-- With a command left, the first test of the collector fails.
pub busy_of :
    (crates : Crates) (commands : List ℕ) (d : TaskContext crates) (now timeout uuid : ℕ)
    → d.crawl_commands ≡ commands
    → is_registered uuid d.crawl_commands ≡ true
    → can_be_garbage_collected crates d now timeout ≡ false
unfolding can_be_garbage_collected
busy_of crates [] d now timeout uuid e h = absurd (ground arith)
busy_of crates (x ∷ commands) d now timeout uuid e h = ground arith

module _ (crates : Crates) where
  pub change : TaskContext crates → Change → TaskContext crates
  change c (registers uuid) = register_crawl_command crates c uuid
  change c (unregisters uuid) = unregister_crawl_command crates c uuid

  pub changes : TaskContext crates → List Change → TaskContext crates
  unfolding change
  changes c [] = c
  changes c (next ∷ rest) = changes (change c next) rest

  is_registered-changes :
      (uuid : ℕ) (c : TaskContext crates) (cs : List Change)
      → is_registered uuid c.crawl_commands ≡ true
      → All (λ next. next ≢ unregisters uuid) cs
      → is_registered uuid (changes c cs).crawl_commands ≡ true
  unfolding changes register_crawl_command unregister_crawl_command
  is_registered-changes uuid c [] h k = h
  is_registered-changes uuid c (registers new ∷ cs) h k =
      is_registered-changes uuid (register_crawl_command crates c new) cs
        (any-append uuid c.crawl_commands new h) k.1
  is_registered-changes uuid c (unregisters old ∷ cs) h k =
      is_registered-changes uuid (unregister_crawl_command crates c old) cs
        (rw (is_registered-retain uuid old c.crawl_commands (λ e. k.0 (rw e))) h) k.1

  -- A task with a registered command is not collected, whatever other commands come and go, however
  -- long it takes.
  pub can_be_garbage_collected-registered :
      (uuid : ℕ) (c : TaskContext crates) (cs : List Change) (now gc_timeout_ms : ℕ)
      → is_registered uuid c.crawl_commands ≡ true
      → All (λ next. next ≢ unregisters uuid) cs
      → can_be_garbage_collected crates (changes c cs) now gc_timeout_ms ≡ false
  can_be_garbage_collected-registered uuid c cs now timeout h k =
      busy_of crates _ (changes c cs) now timeout uuid refl (is_registered-changes uuid c cs h k)

  -- A task may be collected exactly when no command is registered and more than the crawl delay and
  -- the collector's timeout, added as u64, has passed since the last command.
  pub can_be_garbage_collected_iff :
      (c : TaskContext crates) (now gc_timeout_ms : ℕ)
      → (can_be_garbage_collected crates c now gc_timeout_ms ≡ true) ↔ (
          (c.crawl_commands ≡ [])
          × (c.last_command_received
                + (c.task_config.crawl_delay_ms + gc_timeout_ms)
                  % 18_446_744_073_709_551_616
                  * 1_000_000
              < now))
  unfolding can_be_garbage_collected
  can_be_garbage_collected_iff c now timeout = ground arith

  -- It is collected, too, after the sum of the two delays as numbers, since the u64 is not larger.
  pub can_be_garbage_collected_of :
      (c : TaskContext crates) (now gc_timeout_ms : ℕ)
      → c.crawl_commands ≡ []
      → c.last_command_received + (c.task_config.crawl_delay_ms + gc_timeout_ms) * 1_000_000 < now
      → can_be_garbage_collected crates c now gc_timeout_ms ≡ true
  can_be_garbage_collected_of c now timeout idle long =
      (can_be_garbage_collected_iff c now timeout).1 (idle, omega (arith, long))

  -- Unregistering a command that was not registered before undoes its registration.
  pub unregister-register :
      (c : TaskContext crates) (uuid : ℕ)
      → is_registered uuid c.crawl_commands ≡ false
      → unregister_crawl_command crates (register_crawl_command crates c uuid) uuid ≡ c
  unfolding unregister_crawl_command register_crawl_command
  unregister-register c uuid h =
      ap (λ commands. record c { crawl_commands = commands })
        (retain-register uuid c.crawl_commands h)
