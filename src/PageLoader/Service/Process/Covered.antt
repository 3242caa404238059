-- ===== src/PageLoader/Service/Process/Covered.antt =====
-- While no spawned task of page_loader_service.rs panics, only the commands that run are registered.
use tarantula.Base.{
  ap, ℕ, ◌≡◌, ◌≢◌, ◌⊎◌, refl, sym, subst, ◌∙◌, inl, inr, Bool, true, false, ◌&&◌, ◌||◌, List, [],
  ◌∷◌, some, any, arith, ◌==◌, ==_iff, Bool-cases,
}
use tarantula.Crates.{Crates}
use tarantula.Responses.RunConfig.{RunConfig}
use tarantula.PageLoader.HttpClient.{HttpClient}
use tarantula.PageLoader.TaskContext.{
  TaskContext, register_crawl_command, set_last_command_received, unregister_crawl_command,
}
use tarantula.PageLoader.TaskContext.Registrar.{
  is_registered, is_registered-append_inv, is_registered-retain_inv,
}
use tarantula.PageLoader.PageCrawl.{PageCrawlCommand, push_tasked_link}
use tarantula.PageLoader.Service.{know_page}
use tarantula.PageLoader.Service.Process.{
  sending, reported, Process, Crawl, Stage, Takes, put, enqueue, collect,
}
use tarantula.PageLoader.Service.Process.Steps.{
  Step, Runs, rests, steps, disturbs, receives, starts, stops, adds, advances, sends, reports, ends,
  fails, dies, submits, collects, Advances, registers, touches, verifies, tasks, fetches, refuses,
  knows, skips, lists,
}
use tarantula.PageLoader.Service.Process.Refused.{crawl_as-refused}
use tarantula.PageLoader.Service.Process.Bounded.{init-IsMade}

-- The crawl of the command with that uuid, for the task at that address.
abbrev pub is_for : ℕ → ℕ → Crawl → Bool
is_for address uuid r = (r.address == address) && (r.command.uuid == uuid)

any-Takes :
    (p : Crawl → Bool) (r : Crawl) (xs rest : List Crawl)
    → Takes r xs rest
    → any p xs ≡ (p r || any p rest)
any-Takes p r _ _ (Takes.here rest) = refl
any-Takes p r _ _ (Takes.there x xs rest t) = ground (arith, any-Takes p r xs rest t)

false-ne-true : false ≢ true
false-ne-true e = cc

module _ {W : Type 0} (crates : Crates) (client : HttpClient W) where
  Advances-inv :
      (command : PageCrawlCommand) (c d : TaskContext crates) (stage stage' : Stage) (uuid : ℕ)
      → Advances crates client c command stage d stage'
      → is_registered uuid d.crawl_commands ≡ true
      → (is_registered uuid c.crawl_commands ≡ true) ⊎ (command.uuid ≡ uuid)
  unfolding register_crawl_command set_last_command_received push_tasked_link know_page
  Advances-inv command c _ _ _ uuid registers h =
      is_registered-append_inv uuid c.crawl_commands command.uuid h
  Advances-inv command c _ _ _ uuid (touches now) h = inl h
  Advances-inv command c _ _ _ uuid verifies h = inl h
  Advances-inv command c _ _ _ uuid tasks h = inl h
  Advances-inv command c _ _ _ uuid (fetches w w' page e) h = inl h
  Advances-inv command c d _ _ uuid (refuses verdict w w' _ page n e) h = inl (
      subst (λ (x : TaskContext crates). is_registered uuid x.crawl_commands ≡ true)
        (crawl_as-refused crates client c command c.task_config.robots_txt_info_url verdict c.uuid w
          w' d page n e).0
        h)
  Advances-inv command c _ _ _ uuid (knows page) h = inl h
  Advances-inv command c _ _ _ uuid skips h = inl h
  Advances-inv command c _ _ _ uuid (lists page loads e) h = inl h

  -- No spawned task panics.
  abbrev pub IsCalmStep : {s t : Process crates} → Step crates client s t → Type 0
  IsCalmStep (fails r rest load loads page t e gone) = ⊥
  IsCalmStep (dies r rest c t found p) = ⊥
  IsCalmStep _ = Unit

  abbrev pub IsCalm :
      {Allowed : RunConfig → Type 0} {s t : Process crates}
      → Runs crates client Allowed s t
      → Type 0
  IsCalm rests = Unit
  IsCalm (steps t u r e) = IsCalm r × IsCalmStep e
  IsCalm (disturbs t u r e) = IsCalm r

  -- Every registered command runs.
  abbrev pub IsCovered : Process crates → Type 0
  IsCovered s =
      (address uuid : ℕ) (c : TaskContext crates)
      → s.contexts address ≡ some c
      → is_registered uuid c.crawl_commands ≡ true
      → any (is_for address uuid) s.crawls ≡ true

  covered_other :
      (s : Process crates) (r : Crawl) (rest : List Crawl) (address uuid : ℕ)
      → Takes r s.crawls rest
      → is_for address uuid r ≡ false
      → any (is_for address uuid) s.crawls ≡ true
      → any (is_for address uuid) rest ≡ true
  covered_other s r rest address uuid t other h =
      rw other at (sym (any-Takes (is_for address uuid) r s.crawls rest t) ∙ h)

  covered_stage :
      (s : Process crates) (r : Crawl) (rest : List Crawl) (stage : Stage) (address uuid : ℕ)
      → Takes r s.crawls rest
      → any (is_for address uuid) s.crawls ≡ true
      → any (is_for address uuid) (record r { stage = stage } ∷ rest) ≡ true
  covered_stage s r rest stage address uuid t h =
      sym (any-Takes (is_for address uuid) r s.crawls rest t) ∙ h

  IsCovered-advances :
      (s : Process crates) (r : Crawl) (rest : List Crawl) (c d : TaskContext crates)
      (stage : Stage)
      → IsCovered s
      → Takes r s.crawls rest
      → s.contexts r.address ≡ some c
      → Advances crates client c r.command r.stage d stage
      → IsCovered (record s {
        contexts = put crates s.contexts r.address d;
        crawls = record r { stage = stage } ∷ rest;
      })
  unfolding put
  IsCovered-advances s r rest c d stage h t found a address uuid e at registered =
      elim (Bool-cases (r.address == address)) [
        | inl hit ↦
            let same : some d ≡ some e = rw hit at at in
            let eq : d ≡ e = cc in
            let here : s.contexts address ≡ some c =
              ap s.contexts (sym ((==_iff r.address address).0 hit)) ∙ found in
            elim (Advances-inv r.command c d r.stage stage uuid a (
              subst (λ (x : TaskContext crates). is_registered uuid x.crawl_commands ≡ true)
                (sym eq) registered)) [
                  | inl before ↦
                      covered_stage s r rest stage address uuid t (h address uuid c here before)
                  | inr own ↦ ground (arith, hit, own)
                ]
        | inr miss ↦
            covered_stage s r rest stage address uuid t
              (h address uuid e (rw miss at at) registered)
      ]

  IsCovered-ends :
      (s : Process crates) (r : Crawl) (rest : List Crawl) (c : TaskContext crates)
      → IsCovered s
      → Takes r s.crawls rest
      → s.contexts r.address ≡ some c
      → IsCovered (record s {
        contexts =
            put crates s.contexts r.address (unregister_crawl_command crates c r.command.uuid);
        crawls = rest;
      })
  unfolding put unregister_crawl_command
  IsCovered-ends s r rest c h t found address uuid e at registered =
      elim (Bool-cases (r.address == address)) [
        | inl hit ↦
            let same : some (unregister_crawl_command crates c r.command.uuid) ≡ some e =
              rw hit at at in
            let eq : unregister_crawl_command crates c r.command.uuid ≡ e = cc in
            let here : s.contexts address ≡ some c =
              ap s.contexts (sym ((==_iff r.address address).0 hit)) ∙ found in
            let k = is_registered-retain_inv uuid r.command.uuid c.crawl_commands (
              subst (λ (x : TaskContext crates). is_registered uuid x.crawl_commands ≡ true)
                (sym eq) registered) in
            covered_other s r rest address uuid t (ground (arith, hit, k.1))
              (h address uuid c here k.0)
        | inr miss ↦
            covered_other s r rest address uuid t (ground (arith, miss))
              (h address uuid e (rw miss at at) registered)
      ]

  IsCovered-Step :
      (s t : Process crates)
      → IsCovered s
      → (e : Step crates client s t) → IsCalmStep e
      → IsCovered t
  unfolding enqueue put
  IsCovered-Step s _ h (receives other load channel l e) calm =
      λ address uuid c at registered. ground (arith, h address uuid c at registered)
  IsCovered-Step s _ h (starts run_config key now channel c l e i) calm =
      λ address uuid d at registered. elim (Bool-cases (s.fresh == address)) [
        | inl hit ↦
            let same : some c ≡ some d = rw hit at at in
            let eq : c ≡ d = cc in
            let idle : d.crawl_commands ≡ [] =
              ap (λ (x : TaskContext crates). x.crawl_commands) (sym eq)
              ∙ (init-IsMade crates run_config key now c i).idle in
            absurd (false-ne-true (sym (ap (is_registered uuid) idle) ∙ registered))
        | inr miss ↦ h address uuid d (rw miss at at) registered
      ]
  IsCovered-Step s _ h (stops run_config key now channel l e i) calm = h
  IsCovered-Step s _ h (adds other key load l room) calm = h
  IsCovered-Step s _ h (advances r rest c d stage t found a) calm =
      IsCovered-advances s r rest c d stage h t found a
  IsCovered-Step s _ h (sends r rest load loads page t e alive room) calm =
      λ address uuid c at registered.
        covered_stage s r rest (sending loads page) address uuid t (h address uuid c at registered)
  IsCovered-Step s _ h (reports r rest page is_lost t e) calm = λ address uuid c at registered.
      covered_stage s r rest reported address uuid t (h address uuid c at registered)
  IsCovered-Step s _ h (ends r rest c t found e) calm = IsCovered-ends s r rest c h t found
  IsCovered-Step s _ h (fails r rest load loads page t e gone) calm = absurd calm
  IsCovered-Step s _ h (dies r rest c t found p) calm = absurd calm

  pub IsCovered-Runs :
      (Allowed : RunConfig → Type 0) (s t : Process crates)
      → IsCovered s
      → (run : Runs crates client Allowed s t) → IsCalm run
      → IsCovered t
  unfolding enqueue collect
  IsCovered-Runs Allowed s _ h rests calm = h
  IsCovered-Runs Allowed s _ h (steps t u r e) calm =
      IsCovered-Step t u (IsCovered-Runs Allowed s t h r calm.0) e calm.1
  IsCovered-Runs Allowed s _ h (disturbs t _ r (submits run_config key ok alive room)) calm =
      IsCovered-Runs Allowed s t h r calm
  IsCovered-Runs Allowed s _ h (disturbs t _ r (collects clock)) calm =
      IsCovered-Runs Allowed s t h r calm
