-- ===== src/PageLoader/Service/Process/Contexts.antt =====
-- The contexts that the crawls and commands of page_loader_service.rs hold.
use tarantula.Base.{
  ap, ◌∙◌, ℕ, ◌≤◌, ◌≡◌, ◌≢◌, refl, ◌∙◌, inl, inr, true, Option, none, some, arith, ◌==◌, ==_iff,
  Bool-cases,
}
use tarantula.Crates.{Crates}
use tarantula.PageLoader.TaskContext.{TaskContext}
use tarantula.PageLoader.TaskContext.Registrar.{is_registered}
use tarantula.PageLoader.Service.Process.{
  Crawl, PageLoaderServiceCommand, load_page_command, crawl_domain_command, Loop, receiving,
  sending_first, stopped, put,
}
use tarantula.PageLoader.Service.Process.Registered.{is_begun}

module _ (crates : Crates) where
  abbrev pub Contexts : Type 0
  Contexts = ℕ → Option (TaskContext crates)

  abbrev pub HasContext : Contexts → ℕ → Type 0
  HasContext contexts address = (c : TaskContext crates) × (contexts address ≡ some c)

  -- The context of the crawl is there, and its command is registered once it has begun.
  pub record IsRegistered (contexts : Contexts) (r : Crawl) : Type 0 where
    pub context : TaskContext crates
    pub found : contexts r.address ≡ some context
    pub registered :
        is_begun r.stage ≡ true → is_registered r.command.uuid context.crawl_commands ≡ true

  abbrev pub IsAddressed : Contexts → PageLoaderServiceCommand → Type 0
  IsAddressed contexts (load_page_command address load) = HasContext contexts address
  IsAddressed contexts (crawl_domain_command run_config uuid) = Unit

  abbrev pub IsLoopAddressed : Contexts → Loop → Type 0
  IsLoopAddressed contexts (sending_first address uuid load) = HasContext contexts address
  IsLoopAddressed contexts _ = Unit

  module _ (contexts : Contexts) (address : ℕ) (d : TaskContext crates) where
    pub put-same : put crates contexts address d address ≡ some d
    unfolding put
    put-same = ground arith

    pub put-other :
        (other : ℕ) → address ≢ other → put crates contexts address d other ≡ contexts other
    unfolding put
    put-other other h = ground (arith, h)

    pub HasContext-put :
        (other : ℕ) → HasContext contexts other → HasContext (put crates contexts address d) other
    unfolding put
    HasContext-put other (c, e) = elim (Bool-cases (address == other)) [
      | inl same ↦ (d, rw same refl)
      | inr differs ↦ (c, rw differs e)
    ]

    pub IsAddressed-put :
        (command : PageLoaderServiceCommand)
        → IsAddressed contexts command
        → IsAddressed (put crates contexts address d) command
    IsAddressed-put (load_page_command other load) h = HasContext-put other h
    IsAddressed-put (crawl_domain_command run_config uuid) h = tt

    pub IsLoopAddressed-put :
        (loop : Loop)
        → IsLoopAddressed contexts loop
        → IsLoopAddressed (put crates contexts address d) loop
    IsLoopAddressed-put receiving h = tt
    IsLoopAddressed-put (sending_first other uuid load) h = HasContext-put other h
    IsLoopAddressed-put stopped h = tt

    pub IsRegistered-put :
        (r : Crawl)
        → ((c : TaskContext crates)
            → contexts address ≡ some c
            → is_registered r.command.uuid c.crawl_commands ≡ true
            → is_registered r.command.uuid d.crawl_commands ≡ true)
        → IsRegistered contexts r
        → IsRegistered (put crates contexts address d) r
    unfolding put
    IsRegistered-put r keep h = elim (Bool-cases (address == r.address)) [
      | inl same ↦ record {
        context = d;
        found = rw same refl;
        registered = λ b.
            keep h.context (ap contexts ((==_iff address r.address).0 same) ∙ h.found)
              (h.registered b);
      }
      | inr differs ↦ record {
        context = h.context;
        found = rw differs h.found;
        registered = h.registered;
      }
    ]

  -- No context is made yet at the addresses from `fresh` on.
  abbrev pub IsUnmade : Contexts → ℕ → Type 0
  IsUnmade contexts fresh = (address : ℕ) → fresh ≤ address → contexts address ≡ none
