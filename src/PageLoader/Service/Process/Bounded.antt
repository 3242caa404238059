-- ===== src/PageLoader/Service/Process/Bounded.antt =====
-- The depth of every command of page_loader_service.rs, wherever it is.
use tarantula.Base.{
  [], arith, subst, ap, ℕ, ◌≤◌, ◌<◌, ◌≡◌, sym, ◌∙◌, done, unwrap, >>=-eq-done, done-injective,
}
use tarantula.Crates.{Crates}
use tarantula.Responses.RunConfig.{RunConfig}
use tarantula.LinkResult.LinkTypeChecker
use tarantula.PageLoader.TaskContext
use tarantula.PageLoader.TaskContext.{TaskContext, unwrap_or_else}
use tarantula.PageLoader.Service.Process.{Process}
use tarantula.PageLoader.HttpClient.{HttpClient}
use tarantula.PageLoader.Service.Process.Steps.{Reachable}
use tarantula.PageLoader.Service.Process.Invariant.{
  Claim, IsClosed, IsInvariant, IsSameTask, Advances-IsSameTask,
}
use tarantula.PageLoader.Service.Process.Preserved.{Reachable-IsInvariant}
use tarantula.PageLoader.Service.Process.Limits.{Advances-IsInTime, IsInTime}

-- A configuration with a depth limit; 16 is the default of `TaskConfig::new`.
abbrev pub limit_in : RunConfig → ℕ
limit_in run_config = unwrap_or_else run_config.maximum_depth 16

abbrev pub IsLimited : RunConfig → Type 0
IsLimited run_config = (0 < limit_in run_config) × (limit_in run_config < 65_536)

module _ (crates : Crates) where
  -- What is read of a context that has just been made.
  pub record IsMade (run_config : RunConfig) (key now : ℕ) (c : TaskContext crates) : Type 0 where
    pub limit : c.task_config.maximum_depth ≡ limit_in run_config
    pub redirects : c.task_config.maximum_redirects ≡ unwrap_or_else run_config.maximum_redirects 10
    pub uuid : c.uuid ≡ key
    pub received : c.last_command_received ≡ now
    pub idle : c.crawl_commands ≡ []
    pub uncrawled : c.all_crawled_links ≡ []
    pub untasked : c.all_tasked_links ≡ []

  pub init-IsMade :
      (run_config : RunConfig) (uuid now : ℕ) (c : TaskContext crates)
      → TaskContext.init crates run_config uuid now ≡ done c
      → IsMade run_config uuid now c
  unfolding TaskContext.init TaskContext.new
  init-IsMade run_config uuid now c e =
      let a = >>=-eq-done (unwrap (crates.parse_uri run_config.url)) _ e in
      let b = >>=-eq-done (TaskContext.new crates run_config) _ a.2 in
      let f = >>=-eq-done (unwrap (crates.host a.0)) _ b.2 in
      let g = >>=-eq-done (LinkTypeChecker.new crates f.0) _ f.2 in
      let k = >>=-eq-done (unwrap (crates.parse_uri run_config.url)) _ b.1 in
      let made = sym (done-injective _ c g.2) in
      record {
        limit =
            ap (λ (x : TaskContext crates). x.task_config.maximum_depth) made
            ∙ ap (λ (x : TaskContext.TaskConfig crates.Uri). x.maximum_depth)
                (sym (done-injective _ b.0 k.2));
        redirects =
            ap (λ (x : TaskContext crates). x.task_config.maximum_redirects) made
            ∙ ap (λ (x : TaskContext.TaskConfig crates.Uri). x.maximum_redirects)
                (sym (done-injective _ b.0 k.2));
        uuid = ap (λ (x : TaskContext crates). x.uuid) made;
        received = ap (λ (x : TaskContext crates). x.last_command_received) made;
        idle = ap (λ (x : TaskContext crates). x.crawl_commands) made;
        uncrawled = ap (λ (x : TaskContext crates). x.all_crawled_links) made;
        untasked = ap (λ (x : TaskContext crates). x.all_tasked_links) made;
      }

  -- A task has a limit; what is queued for it is within the limit, and a crawl is as far as its
  -- depth allows.
  abbrev pub depth_claim : Claim crates
  depth_claim = record {
    Wanted = IsLimited;
    IsFine = λ c. (0 < c.task_config.maximum_depth) × (c.task_config.maximum_depth < 65_536);
    IsGood = λ c load. load.current_depth ≤ c.task_config.maximum_depth;
    IsAt = λ c command stage.
        (command.current_depth ≤ c.task_config.maximum_depth)
        × IsInTime c.task_config.maximum_depth command.current_depth stage;
  }

  abbrev pub IsBounded : Process crates → Type 0
  IsBounded s = IsInvariant crates depth_claim s

  same_limit :
      (c d : TaskContext crates)
      → IsSameTask c d
      → c.task_config.maximum_depth ≡ d.task_config.maximum_depth
  same_limit c d h = ap (λ (x : TaskContext.TaskConfig crates.Uri). x.maximum_depth) h.config

module _ {W : Type 0} (crates : Crates) (client : HttpClient W) where
  pub depth-IsClosed : IsClosed crates client (depth_claim crates)
  depth-IsClosed = record {
    fine_stable = λ c d same h. subst (λ m. (0 < m) × (m < 65_536)) (same_limit crates c d same) h;
    good_stable =
        λ c d load same h. subst (λ m. load.current_depth ≤ m) (same_limit crates c d same) h;
    at_stable = λ c d command stage same h.
        subst (λ m. (command.current_depth ≤ m) × IsInTime m command.current_depth stage)
          (same_limit crates c d same) h;
    first = λ run_config uuid now c limited e. (
      subst (λ m. (0 < m) × (m < 65_536)) (sym (init-IsMade crates run_config uuid now c e).limit)
          limited,
      omega arith,
    );
    spawn = λ c load uuid h. (h, tt);
    advance = λ command c d stage stage' fine a h.
        subst (λ m. (command.current_depth ≤ m) × IsInTime m command.current_depth stage')
          (same_limit crates c d (Advances-IsSameTask crates client command c d stage stage' a))
          (h.0, Advances-IsInTime crates client command c d stage stage' fine.0 fine.1 a h.1);
    send = λ c command load loads page h. (h.1.0.1, (h.0, h.1.1));
    report = λ c command page h. (h.0, tt);
  }

  -- If every crawl that is asked for has a depth limit, under 16 bits, then in every state that the
  -- service comes to, everything that waits in the channel or at the loop or is being crawled is
  -- within the limit of its task, and a command at the limit has no links to follow.
  pub Reachable-IsBounded :
      (cpus : ℕ) (s : Process crates)
      → Reachable crates client IsLimited cpus s
      → IsBounded crates s
  Reachable-IsBounded cpus s reached =
      Reachable-IsInvariant crates client (depth_claim crates) depth-IsClosed cpus s reached
