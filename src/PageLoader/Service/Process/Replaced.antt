-- ===== src/PageLoader/Service/Process/Replaced.antt =====
-- Claims on the tasks of page_loader_service.rs when the context of one is changed.
use tarantula.Base.{
  ap, ℕ, ◌≡◌, refl, sym, subst, ◌∙◌, inl, inr, true, List, none, some, All, arith, ◌==◌, ==_iff,
  Bool-cases,
}
use tarantula.Crates.{Crates}
use tarantula.PageLoader.HttpClient.{HttpClient}
use tarantula.PageLoader.TaskContext.{TaskContext}
use tarantula.PageLoader.Service.{LoadPage}
use tarantula.PageLoader.Service.Process.{
  Process, Crawl, PageLoaderServiceCommand, load_page_command, crawl_domain_command, Loop, Takes,
  receiving, sending_first, stopped, put,
}
use tarantula.PageLoader.Service.Process.Picks.{All-Takes}
use tarantula.PageLoader.Service.Process.Contexts.{Contexts}
use tarantula.PageLoader.Service.Process.Invariant.{
  IsSameTask, Claim, IsClosed, IsGoodAt, IsSoundCrawl, IsSoundCommand, IsSoundLoop, IsInvariant,
}

module _ {W : Type 0} (crates : Crates) (client : HttpClient W) (k : Claim crates)
    (closed : IsClosed crates client k) where
  module _ (contexts : Contexts crates) (address : ℕ) (d : TaskContext crates)
      (same : (c : TaskContext crates) → contexts address ≡ some c → IsSameTask c d) where
    same_at :
        (other : ℕ) (c : TaskContext crates)
        → (address == other) ≡ true
        → contexts other ≡ some c
        → IsSameTask c d
    same_at other c hit found = same c (ap contexts ((==_iff address other).0 hit) ∙ found)

    pub IsGoodAt-put :
        (other : ℕ) (load : LoadPage)
        → IsGoodAt crates k contexts other load
        → IsGoodAt crates k (put crates contexts address d) other load
    unfolding put
    IsGoodAt-put other load h = elim (Bool-cases (address == other)) [
      | inl hit ↦ record {
        context = d;
        found = rw hit refl;
        good = closed.good_stable h.context d load (same_at other h.context hit h.found) h.good;
      }
      | inr miss ↦ record { context = h.context; found = rw miss h.found; good = h.good }
    ]

    pub IsSoundCrawl-put :
        (r : Crawl)
        → IsSoundCrawl crates k contexts r
        → IsSoundCrawl crates k (put crates contexts address d) r
    unfolding put
    IsSoundCrawl-put r h = elim (Bool-cases (address == r.address)) [
      | inl hit ↦ record {
        context = d;
        found = rw hit refl;
        sound =
            closed.at_stable h.context d r.command r.stage (same_at r.address h.context hit h.found)
              h.sound;
      }
      | inr miss ↦ record { context = h.context; found = rw miss h.found; sound = h.sound }
    ]

    pub IsSoundCommand-put :
        (command : PageLoaderServiceCommand)
        → IsSoundCommand crates k contexts command
        → IsSoundCommand crates k (put crates contexts address d) command
    IsSoundCommand-put (load_page_command other load) h = IsGoodAt-put other load h
    IsSoundCommand-put (crawl_domain_command run_config uuid) h = h

    pub IsSoundLoop-put :
        (loop : Loop)
        → IsSoundLoop crates k contexts loop
        → IsSoundLoop crates k (put crates contexts address d) loop
    IsSoundLoop-put receiving h = tt
    IsSoundLoop-put (sending_first other uuid load) h = IsGoodAt-put other load h
    IsSoundLoop-put stopped h = tt

    pub fine-put :
        ((other : ℕ) (c : TaskContext crates) → contexts other ≡ some c → k.IsFine c)
        → k.IsFine d
        → (other : ℕ) (c : TaskContext crates) → put crates contexts address d other ≡ some c
        → k.IsFine c
    unfolding put
    fine-put h fine other c e = elim (Bool-cases (address == other)) [
      | inl hit ↦
          let at : some d ≡ some c = rw hit at e in let eq : d ≡ c = cc in subst k.IsFine eq fine
      | inr miss ↦ h other c (rw miss at e)
    ]

  -- The context at an address is the one that is found there.
  pub same_as :
      (contexts : Contexts crates) (address : ℕ) (c d : TaskContext crates)
      → contexts address ≡ some c
      → IsSameTask c d
      → (other : TaskContext crates) → contexts address ≡ some other
      → IsSameTask other d
  same_as contexts address c d found same other h =
      let at : some c ≡ some other = sym found ∙ h in
      let eq : c ≡ other = cc in subst (λ x. IsSameTask x d) eq same

  pub unmade :
      (s : Process crates)
      → IsInvariant crates k s
      → (d c : TaskContext crates) → s.contexts s.fresh ≡ some c
      → IsSameTask c d
  unmade s h d c e = let empty : none ≡ some c = sym (h.kept.unmade s.fresh (omega arith)) ∙ e in cc

  -- A crawl that has got on, in place of the one that is taken.
  pub put_back :
      (s : Process crates) (h : IsInvariant crates k s) (r : Crawl) (rest : List Crawl)
      (c : TaskContext crates)
      → Takes r s.crawls rest
      → s.contexts r.address ≡ some c
      → k.IsAt c r.command r.stage × All (IsSoundCrawl crates k s.contexts) rest
  put_back s h r rest c t found =
      let g = All-Takes (IsSoundCrawl crates k s.contexts) r s.crawls rest t h.crawls in
      let at : some g.0.context ≡ some c = sym g.0.found ∙ found in
      let eq : g.0.context ≡ c = cc in (subst (λ x. k.IsAt x r.command r.stage) eq g.0.sound, g.1)
