-- ===== src/PageLoader/Service/Process/Weights.antt =====
-- How much is left to do at each depth while page_loader_service.rs crawls.
use tarantula.Base.{
  ap, ℕ, ◌+◌, ◌≤◌, ◌<◌, ◌≡◌, refl, List, [], ◌∷◌, ◌++◌, All, arith, ◌==◌, if◌then◌else◌,
}
use tarantula.Base.Descent.{Falls}
use tarantula.Crates.{Crates}
use tarantula.PageLoader.HttpClient.{HttpClient}
use tarantula.PageLoader.TaskContext.{TaskContext}
use tarantula.PageLoader.PageCrawl.{PageCrawlCommand}
use tarantula.PageLoader.Service.{LoadPage}
use tarantula.PageLoader.Service.Process.{
  Crawl, Stage, spawned, registered, loading, verified, tasked, crawled, known, sending, reported,
  Loop, sending_first, Process, PageLoaderServiceCommand, load_page_command, crawl_domain_command,
  Takes,
}
use tarantula.PageLoader.Service.Process.Steps.{
  Advances, registers, touches, verifies, tasks, fetches, refuses, knows, skips, lists,
}
use tarantula.PageLoader.Service.Process.Limits.{IsBelow, IsInTime}

abbrev pub total {ℓ} : {A : Type ℓ} → (A → ℕ) → List A → ℕ
total f [] = 0
total f (x ∷ xs) = f x + total f xs

pub total-append {ℓ} :
    {A : Type ℓ} (f : A → ℕ) (xs : List A) (y : A) → total f (xs ++ y ∷ []) ≡ total f xs + f y
total-append f [] y = omega arith
total-append f (x ∷ xs) y = omega (arith, total-append f xs y)

pub total-Takes :
    (f : Crawl → ℕ) (r : Crawl) (xs rest : List Crawl)
    → Takes r xs rest
    → total f xs ≡ f r + total f rest
total-Takes f r _ _ (Takes.here rest) = refl
total-Takes f r _ _ (Takes.there x xs rest t) = omega (arith, total-Takes f r xs rest t)

-- A weight that counts at one depth.
unfoldable pub at_level : ℕ → ℕ → ℕ → ℕ
at_level level depth weight = if depth == level then weight else 0

pub at_level_self : (depth weight : ℕ) → at_level depth depth weight ≡ weight
unfolding at_level
at_level_self depth weight = ground arith

pub at_level-before : (level depth weight : ℕ) → level < depth → at_level level depth weight ≡ 0
unfolding at_level
at_level-before level depth weight lt = ground (arith, lt)

pub at_level-zero : (level depth : ℕ) → at_level level depth 0 ≡ 0
unfolding at_level
at_level-zero level depth = ground arith

-- The steps that are left to a crawl, but for those for its commands to send.
abbrev pub stage_weight : Stage → ℕ
stage_weight spawned = 10
stage_weight registered = 9
stage_weight loading = 8
stage_weight (verified verdict) = 7
stage_weight tasked = 6
stage_weight (crawled page) = 5
stage_weight (known page) = 4
stage_weight (sending loads page) = 3
stage_weight reported = 1

abbrev pub loads_weight : ℕ → List LoadPage → ℕ
loads_weight level = total (λ load. at_level level load.current_depth 12)

abbrev pub pending : ℕ → Stage → ℕ
pending level (sending loads page) = loads_weight level loads
pending level _ = 0

abbrev pub crawl_weight : ℕ → Crawl → ℕ
crawl_weight level r =
    at_level level r.command.current_depth (stage_weight r.stage) + pending level r.stage

abbrev pub command_weight : ℕ → PageLoaderServiceCommand → ℕ
command_weight level (load_page_command address load) = at_level level load.current_depth 11
command_weight level (crawl_domain_command run_config uuid) = at_level level 0 13

abbrev pub loop_weight : ℕ → Loop → ℕ
loop_weight level (sending_first address uuid load) = at_level level load.current_depth 12
loop_weight level _ = 0

abbrev pub count : {crates : Crates} → Process crates → ℕ → ℕ
count s level =
    total (command_weight level) s.channel
    + loop_weight level s.loop
    + total (crawl_weight level) s.crawls

pub crawl_weight-stage :
    (level : ℕ) (r : Crawl) (stage : Stage)
    → r.stage ≡ stage
    → crawl_weight level r
      ≡ at_level level r.command.current_depth (stage_weight stage) + pending level stage
crawl_weight-stage level r stage e =
    ap (λ x. at_level level r.command.current_depth (stage_weight x) + pending level x) e

loads_weight-below :
    (limit depth level : ℕ) (loads : List LoadPage)
    → level ≤ depth
    → All (IsBelow limit depth) loads
    → loads_weight level loads ≡ 0
loads_weight-below limit depth level [] le h = refl
loads_weight-below limit depth level (load ∷ loads) le h = omega (
  arith,
  loads_weight-below limit depth level loads le h.1,
  at_level-before level load.current_depth 12 (omega (arith, le, h.0.0)),
)

pub pending-below :
    (limit depth level : ℕ) (stage : Stage)
    → level ≤ depth
    → IsInTime limit depth stage
    → pending level stage ≡ 0
pending-below limit depth level spawned le h = refl
pending-below limit depth level registered le h = refl
pending-below limit depth level loading le h = refl
pending-below limit depth level (verified verdict) le h = refl
pending-below limit depth level tasked le h = refl
pending-below limit depth level (crawled page) le h = refl
pending-below limit depth level (known page) le h = refl
pending-below limit depth level (sending loads page) le h =
    loads_weight-below limit depth level loads le h
pending-below limit depth level reported le h = refl

module _ {W : Type 0} (crates : Crates) (client : HttpClient W) where
  pub Advances-weight :
      (command : PageCrawlCommand) (c d : TaskContext crates) (stage stage' : Stage)
      → Advances crates client c command stage d stage'
      → (stage_weight stage' < stage_weight stage) × ((level : ℕ) → pending level stage ≡ 0)
  Advances-weight command c _ _ _ registers = (omega arith, λ level. refl)
  Advances-weight command c _ _ _ (touches now) = (omega arith, λ level. refl)
  Advances-weight command c _ _ _ verifies = (omega arith, λ level. refl)
  Advances-weight command c _ _ _ tasks = (omega arith, λ level. refl)
  Advances-weight command c _ _ _ (fetches w w' page e) = (omega arith, λ level. refl)
  Advances-weight command c _ _ _ (refuses verdict w w' d page n e) = (omega arith, λ level. refl)
  Advances-weight command c _ _ _ (knows page) = (omega arith, λ level. refl)
  Advances-weight command c _ _ _ skips = (omega arith, λ level. refl)
  Advances-weight command c _ _ _ (lists page loads e) = (omega arith, λ level. refl)

-- A weight that falls at one depth, where nothing changes above it.
pub Falls-at :
    (f g : ℕ → ℕ) (depth weight weight' : ℕ)
    → depth < 65_536
    → weight' < weight
    → ((level : ℕ)
        → level ≤ depth
        → g level + at_level level depth weight ≡ f level + at_level level depth weight')
    → Falls 65_536 f g
Falls-at f g depth weight weight' small less balance = record {
  level = depth;
  below = small;
  less = omega (
    arith,
    less,
    balance depth (omega arith),
    at_level_self depth weight,
    at_level_self depth weight',
  );
  same = λ before lt. omega (
    arith,
    balance before (omega (arith, lt)),
    at_level-before before depth weight lt,
    at_level-before before depth weight' lt,
  );
}
