-- ===== src/PageLoader/Service/Process/Kept.antt =====
-- Between the start of the service of page_loader_service.rs and any of its states: the commands
-- that run are registered, and the task manager keeps their tasks.
use tarantula.Base.{
  ℕ, ◌<◌, ◌≡◌, ◌≢◌, sym, subst, ◌∙◌, inl, inr, true, List, [], ◌∷◌, none, some, All, All-mono,
  arith, Bool-cases, ltb,
}
use tarantula.PageLoader.CrawlerEvent.{CrawlerEvent}
use tarantula.Crates.{Crates}
use tarantula.PageLoader.TaskContext.{TaskContext, unregister_crawl_command}
use tarantula.PageLoader.TaskContext.Registrar.{is_registered, is_registered-retain}
use tarantula.PageLoader.TaskManager.Collection.{IsDistinct}
use tarantula.PageLoader.Service.Process.{
  Process, Crawl, Stage, Takes, put, PageLoaderServiceCommand,
}
use tarantula.PageLoader.Service.Process.Picks.{All-Takes}
use tarantula.PageLoader.Service.Process.Registered.{is_begun}
use tarantula.PageLoader.Service.Process.Ordered.{IsOrdered, IsOrdered-Takes, IsOther}
use tarantula.PageLoader.Service.Process.Contexts.{
  Contexts, HasContext, IsRegistered, IsAddressed, IsLoopAddressed, IsUnmade, put-same, put-other,
  IsAddressed-put, IsLoopAddressed-put, IsRegistered-put,
}

module _ (crates : Crates) where
  pub record IsKept (s : Process crates) : Type 0 where
    pub ordered : IsOrdered s.fresh s.crawls
    pub registered : All (IsRegistered crates s.contexts) s.crawls
    pub queued : All (IsAddressed crates s.contexts) s.channel
    pub first : IsLoopAddressed crates s.contexts s.loop
    pub unmade : IsUnmade crates s.contexts s.fresh
    pub tasks : IsDistinct s.tasks

  -- A context that is put where there is one, or at a new address.
  pub IsUnmade-put :
      (contexts : Contexts crates) (address fresh : ℕ) (d : TaskContext crates)
      → IsUnmade crates contexts fresh
      → address < fresh
      → IsUnmade crates (put crates contexts address d) fresh
  IsUnmade-put contexts address fresh d h lt other le =
      put-other crates contexts address d other (λ e. omega (arith, lt, le, e)) ∙ h other le

  pub made-lt :
      (contexts : Contexts crates) (address fresh : ℕ)
      → IsUnmade crates contexts fresh
      → HasContext crates contexts address
      → address < fresh
  made-lt contexts address fresh h (c, e) = elim (Bool-cases (ltb address fresh)) [
    | inl lt ↦ ground (arith, lt)
    | inr ge ↦ let no : none ≡ some c = sym (h address (ground (arith, ge))) ∙ e in cc
  ]

  -- A context is changed; the commands of the others that run are still registered in it.
  rest_put :
      (contexts : Contexts crates) (r : Crawl) (c d : TaskContext crates) (rest : List Crawl)
      → contexts r.address ≡ some c
      → ((uuid : ℕ)
          → uuid ≢ r.command.uuid
          → is_registered uuid c.crawl_commands ≡ true
          → is_registered uuid d.crawl_commands ≡ true)
      → All (IsOther r.command.uuid) rest
      → All (IsRegistered crates contexts) rest
      → All (IsRegistered crates (put crates contexts r.address d)) rest
  rest_put contexts r c d [] found keep o g = tt
  rest_put contexts r c d (x ∷ rest) found keep o g = (
    IsRegistered-put crates contexts r.address d x
        (λ c' e q. keep x.command.uuid o.0 (
          let same : c' ≡ c = cc in
          subst (λ (y : TaskContext crates). is_registered x.command.uuid y.crawl_commands ≡ true)
            same q))
        g.0,
    rest_put contexts r c d rest found keep o.1 g.1,
  )

  module _ (s : Process crates) (h : IsKept s) where
    -- A crawl that gets on, with its context changed.
    pub IsKept-put :
        (r : Crawl) (rest : List Crawl) (c d : TaskContext crates) (stage : Stage)
        → Takes r s.crawls rest
        → s.contexts r.address ≡ some c
        → ((uuid : ℕ)
            → uuid ≢ r.command.uuid
            → is_registered uuid c.crawl_commands ≡ true
            → is_registered uuid d.crawl_commands ≡ true)
        → is_registered r.command.uuid d.crawl_commands ≡ true
        → IsKept (record s {
          contexts = put crates s.contexts r.address d;
          crawls = record r { stage = stage } ∷ rest;
        })
    IsKept-put r rest c d stage t found keep own =
        let o = IsOrdered-Takes s.fresh r s.crawls rest t h.ordered in
        let g = All-Takes (IsRegistered crates s.contexts) r s.crawls rest t h.registered in
        record {
          ordered = o.2 stage;
          registered = (
            record {
              context = d;
              found = put-same crates s.contexts r.address d;
              registered = λ b. own;
            },
            rest_put s.contexts r c d rest found keep o.0 g.1,
          );
          queued = All-mono (IsAddressed-put crates s.contexts r.address d) s.channel h.queued;
          first = IsLoopAddressed-put crates s.contexts r.address d s.loop h.first;
          unmade =
              IsUnmade-put s.contexts r.address s.fresh d h.unmade
                (made-lt s.contexts r.address s.fresh h.unmade (c, found));
          tasks = h.tasks;
        }

    -- A crawl that gets on, with its context as it is.
    pub IsKept-stage :
        (r : Crawl) (rest : List Crawl) (stage : Stage) (channel : List PageLoaderServiceCommand)
        (events : List CrawlerEvent)
        → Takes r s.crawls rest
        → is_begun r.stage ≡ true
        → All (IsAddressed crates s.contexts) channel
        → IsKept (record s {
          channel = channel;
          crawls = record r { stage = stage } ∷ rest;
          events = events;
        })
    IsKept-stage r rest stage channel events t begun q =
        let o = IsOrdered-Takes s.fresh r s.crawls rest t h.ordered in
        let g = All-Takes (IsRegistered crates s.contexts) r s.crawls rest t h.registered in
        record {
          ordered = o.2 stage;
          registered = (
            record {
              context = g.0.context;
              found = g.0.found;
              registered = λ b. g.0.registered begun;
            },
            g.1,
          );
          queued = q;
          first = h.first;
          unmade = h.unmade;
          tasks = h.tasks;
        }

    -- A crawl that is over, with its context as it is, or without its command.
    pub IsKept-over :
        (r : Crawl) (rest : List Crawl)
        → Takes r s.crawls rest
        → IsKept (record s { crawls = rest })
    IsKept-over r rest t = record {
      ordered = (IsOrdered-Takes s.fresh r s.crawls rest t h.ordered).1;
      registered = (All-Takes (IsRegistered crates s.contexts) r s.crawls rest t h.registered).1;
      queued = h.queued;
      first = h.first;
      unmade = h.unmade;
      tasks = h.tasks;
    }

    pub IsKept-end :
        (r : Crawl) (rest : List Crawl) (c : TaskContext crates)
        → Takes r s.crawls rest
        → s.contexts r.address ≡ some c
        → IsKept (record s {
          contexts =
              put crates s.contexts r.address (unregister_crawl_command crates c r.command.uuid);
          crawls = rest;
        })
    unfolding unregister_crawl_command
    IsKept-end r rest c t found =
        let d = unregister_crawl_command crates c r.command.uuid in
        let o = IsOrdered-Takes s.fresh r s.crawls rest t h.ordered in
        let g = All-Takes (IsRegistered crates s.contexts) r s.crawls rest t h.registered in
        record {
          ordered = o.1;
          registered =
              rest_put s.contexts r c d rest found
                (λ uuid other k.
                  is_registered-retain uuid r.command.uuid c.crawl_commands other ∙ k)
                o.0 g.1;
          queued = All-mono (IsAddressed-put crates s.contexts r.address d) s.channel h.queued;
          first = IsLoopAddressed-put crates s.contexts r.address d s.loop h.first;
          unmade =
              IsUnmade-put s.contexts r.address s.fresh d h.unmade
                (made-lt s.contexts r.address s.fresh h.unmade (c, found));
          tasks = h.tasks;
        }
