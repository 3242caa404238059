-- ===== src/PageLoader/Service/Process/Pending.antt =====
-- Where the command for a URL is while page_loader_service.rs still owes the URL a crawl, and what a
-- step that changes a task's context does to this.
use tarantula.Base.{
  ℕ, ◌<◌, ◌≡◌, ◌⊎◌, ◌∙◌, refl, sym, ap, subst, inl, inr, List, ◌∷◌, some, Any, Any-mono, arith,
  ◌==◌, ==_iff, Bool-cases,
}
use tarantula.Crates.{Crates}
use tarantula.PageLoader.HttpClient.{HttpClient}
use tarantula.PageLoader.TaskContext.{TaskContext, unregister_crawl_command}
use tarantula.PageLoader.Service.{LoadPage}
use tarantula.PageLoader.Service.Process.{
  Process, Crawl, Stage, Takes, sending_first, reported, PageLoaderServiceCommand,
  load_page_command, put,
}
use tarantula.PageLoader.Service.Process.Picks.{Any-Takes}
use tarantula.PageLoader.Service.Process.Contexts.{Contexts}
use tarantula.PageLoader.Service.Process.Settled.{IsGrown, IsGrown-refl, IsSettled-grown}
use tarantula.PageLoader.Service.Process.Owed.{OwesAt, OwesAt-grown, IsDone}

module _ {W : Type 0} (crates : Crates) (client : HttpClient W) (address : ℕ)
    (load : LoadPage) where
  abbrev pub IsCommand : PageLoaderServiceCommand → Type 0
  IsCommand command = command ≡ load_page_command address load

  abbrev pub Owes : TaskContext crates → Crawl → Type 0
  Owes c r = (r.address ≡ address) × OwesAt crates c load r.command r.stage

  -- Where the command is: in the channel, about to be sent by the loop, or with a crawl of the task,
  -- which has yet to verify it, to send it, or to list the links of its page.
  pub data IsPending (c : TaskContext crates) (s : Process crates) : Type 0 where
    queued : Any IsCommand s.channel → IsPending c s
    first : (uuid : ℕ) → s.loop ≡ sending_first address uuid load → IsPending c s
    running : Any (Owes c) s.crawls → IsPending c s

  pub record IsOwed (s : Process crates) : Type 0 where
    pub context : TaskContext crates
    pub found : s.contexts address ≡ some context
    pub drawn : address < s.fresh
    pub state : IsDone crates context load ⊎ IsPending context s

  Owes-grown : (c d : TaskContext crates) (r : Crawl) → IsGrown c d → Owes c r → Owes d r
  Owes-grown c d r g h = (h.0, OwesAt-grown crates c d load r.command r.stage g h.1)

  -- The context of the task after one context is replaced.
  record IsReplaced (contexts : Contexts crates) (other : ℕ) (c d e : TaskContext crates)
      : Type 0 where
    context : TaskContext crates
    found : put crates contexts other d address ≡ some context
    grown : IsGrown e context
    same : other ≡ address → (e ≡ c) × (context ≡ d)

  put-IsReplaced :
      (contexts : Contexts crates) (other : ℕ) (c d e : TaskContext crates)
      → contexts other ≡ some c
      → IsGrown c d
      → contexts address ≡ some e
      → IsReplaced contexts other c d e
  unfolding put
  put-IsReplaced contexts other c d e at g found = elim (Bool-cases (other == address)) [
    | inl hit ↦
        let eq : some e ≡ some c =
          sym found ∙ ap contexts (sym ((==_iff other address).0 hit)) ∙ at in
        let e_eq : e ≡ c = cc in
        record {
          context = d;
          found = rw hit refl;
          grown = subst (λ x. IsGrown x d) (sym e_eq) g;
          same = λ p. (e_eq, refl);
        }
    | inr miss ↦ record {
      context = e;
      found = rw miss found;
      grown = IsGrown-refl e;
      same = λ p. absurd (ground (arith, miss, p));
    }
  ]

  pub advanced :
      (s : Process crates) (r : Crawl) (rest : List Crawl) (c d : TaskContext crates)
      (stage : Stage)
      → Takes r s.crawls rest
      → s.contexts r.address ≡ some c
      → IsGrown c d
      → (OwesAt crates c load r.command r.stage
          → IsDone crates d load ⊎ OwesAt crates d load r.command stage)
      → IsOwed s
      → IsOwed (record s {
        contexts = put crates s.contexts r.address d;
        crawls = record r { stage = stage } ∷ rest;
      })
  advanced s r rest c d stage t at g step h =
      let p = put-IsReplaced s.contexts r.address c d h.context at g h.found in
      record {
        context = p.context;
        found = p.found;
        drawn = h.drawn;
        state = elim h.state [
          | inl k ↦
              inl (IsSettled-grown crates h.context p.context load.url load.current_depth p.grown k)
          | inr (queued m) ↦ inr (queued m)
          | inr (first uuid l) ↦ inr (first uuid l)
          | inr (running m) ↦ elim (Any-Takes (Owes h.context) r s.crawls rest t m) [
            | inl own ↦
                let same = p.same own.0 in
                elim (step (subst (λ x. OwesAt crates x load r.command r.stage) same.0 own.1)) [
                  | inl k ↦ inl (subst (λ x. IsDone crates x load) (sym same.1) k)
                  | inr k ↦ inr (
                      running (
                        inl (
                          own.0,
                          subst (λ x. OwesAt crates x load r.command stage) (sym same.1) k,
                        )))
                ]
            | inr others ↦ inr (
                running
                  (inr (Any-mono (λ x. Owes-grown h.context p.context x p.grown) rest others)))
          ]
        ];
      }

  pub ended :
      (s : Process crates) (r : Crawl) (rest : List Crawl) (c : TaskContext crates)
      → Takes r s.crawls rest
      → s.contexts r.address ≡ some c
      → r.stage ≡ reported
      → IsOwed s
      → IsOwed (record s {
        contexts =
            put crates s.contexts r.address (unregister_crawl_command crates c r.command.uuid);
        crawls = rest;
      })
  unfolding unregister_crawl_command
  ended s r rest c t at e h =
      let g : IsGrown c (unregister_crawl_command crates c r.command.uuid) = record {
        config = refl;
        checker = refl;
        robots = refl;
        crawled = λ url k. k;
        tasked = λ url k. k;
      } in
      let p = put-IsReplaced s.contexts r.address c _ h.context at g h.found in
      record {
        context = p.context;
        found = p.found;
        drawn = h.drawn;
        state = elim h.state [
          | inl k ↦
              inl (IsSettled-grown crates h.context p.context load.url load.current_depth p.grown k)
          | inr (queued m) ↦ inr (queued m)
          | inr (first uuid l) ↦ inr (first uuid l)
          | inr (running m) ↦ elim (Any-Takes (Owes h.context) r s.crawls rest t m) [
            | inl own ↦ absurd (subst (OwesAt crates h.context load r.command) e own.1)
            | inr others ↦
                inr (running (Any-mono (λ x. Owes-grown h.context p.context x p.grown) rest others))
          ]
        ];
      }
