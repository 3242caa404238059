-- ===== src/PageLoader/Service/Links.antt =====
-- Which commands page_loader_service.rs sends for the links of a page.
use mathlib.Core.List.{Memᴰ}
use tarantula.Base.{
  ◌≢◌, ap, ◌+◌, ◌%◌, ◌>>=◌, ◌∙◌, sym, not, subst, ◌≡◌, refl, ◌⊎◌, inl, inr, Bool, true, false, List,
  [], ◌∷◌, some, Outcome, done, panic, All, Bool-cases, >>=-eq-done, if◌then◌else◌, Text, mem,
}
use tarantula.Crates.{Crates}
use tarantula.Responses.Link.{Link}
use tarantula.PageLoader.TaskContext.{TaskContext}
use tarantula.PageLoader.PageCrawl.{PageCrawlCommand}
use tarantula.PageLoader.Service.{
  form_full_url, get_host, get_protocol, LoadPage, is_followed, prepare_load_command, send_links,
}

pub All-map :
    (P Q : LoadPage → Type 0)
    → ((load : LoadPage) → P load → Q load)
    → (loads : List LoadPage) → All P loads
    → All Q loads
All-map P Q f [] h = tt
All-map P Q f (load ∷ loads) h = (f load h.0, All-map P Q f loads h.1)

module _ (crates : Crates) (c : TaskContext crates) (command : PageCrawlCommand) where
  -- The command is for one of the links, which is followed, and its URL is not known.
  pub record IsLoadOf (known : List Text) (links : List Link) (load : LoadPage) : Type 0 where
    pub link : Link
    pub member : Memᴰ link links
    pub followed : is_followed link.scope ≡ true
    pub prepared : prepare_load_command crates c command link ≡ done load
    pub unknown : mem load.url known ≡ false

  weaken :
      (known : List Text) (links links' : List Link) (loads : List LoadPage)
      → ((link : Link) → Memᴰ link links → Memᴰ link links')
      → All (IsLoadOf known links) loads
      → All (IsLoadOf known links') loads
  weaken known links links' loads f h = All-map _ _ step loads h
    where
      step : (load : LoadPage) → IsLoadOf known links load → IsLoadOf known links' load
      step load r = record {
        link = r.link;
        member = f r.link r.member;
        followed = r.followed;
        prepared = r.prepared;
        unknown = r.unknown;
      }

  pub prepare_load_command_lem :
      (link : Link) (load : LoadPage)
      → prepare_load_command crates c command link ≡ done load
      → (load.raw_url ≡ link.uri) × (load.current_depth ≡ (command.current_depth + 1) % 65_536)
  unfolding prepare_load_command
  prepare_load_command_lem link load h =
      let a = >>=-eq-done (get_protocol crates command.url) _ h in
      let b = >>=-eq-done (get_host crates command.url) _ a.2 in
      let d =
        >>=-eq-done (form_full_url crates c.link_type_checker a.0 link.uri b.0 (some command.url)) _
          b.2 in
      let result : record {
        url = crates.uri_to_string d.0;
        raw_url = link.uri;
        current_depth = (command.current_depth + 1) % 65_536;
      }
          ≡ load =
        cc in
      (
        ap (λ (l : LoadPage). l.raw_url) (sym result),
        ap (λ (l : LoadPage). l.current_depth) (sym result),
      )

  -- A link that is sent, if it is new, before the rest.
  pub record IsStep (known : List Text) (link : Link) (links : List Link) (loads : List LoadPage)
      : Type 0 where
    pub load : LoadPage
    pub rest : List LoadPage
    pub followed : is_followed link.scope ≡ true
    pub prepared : prepare_load_command crates c command link ≡ done load
    pub remaining : send_links crates c command known links ≡ done rest
    pub result : loads ≡ (if not (mem load.url known) then load ∷ rest else rest)

  pub send_links-cons :
      (known : List Text) (link : Link) (links : List Link) (loads : List LoadPage)
      → send_links crates c command known (link ∷ links) ≡ done loads
      → ((is_followed link.scope ≡ false) × (send_links crates c command known links ≡ done loads))
        ⊎ IsStep known link links loads
  unfolding send_links
  send_links-cons known link links loads h =
      go (is_followed link.scope) refl (prepare_load_command crates c command link) refl
        (send_links crates c command known links) refl h
    where
      go :
          (b : Bool)
          → is_followed link.scope ≡ b
          → (m : Outcome LoadPage) → prepare_load_command crates c command link ≡ m
          → (r : Outcome (List LoadPage)) → send_links crates c command known links ≡ r
          → elim b [
            | false ↦ r
            | true ↦ m >>= λ load.
                r >>= λ rest. done (if not (mem load.url known) then load ∷ rest else rest)
          ]
            ≡ done loads
          → ((is_followed link.scope ≡ false) × (r ≡ done loads)) ⊎ IsStep known link links loads
      go false e m f r g k = inl (e, k)
      go true e panic f r g k = cc
      go true e (done load) f panic g k = cc
      go true e (done load) f (done rest) g k = inr (record {
        load = load;
        rest = rest;
        followed = e;
        prepared = f;
        remaining = g;
        result = cc;
      })

  pub All-send :
      (P : LoadPage → Type 0) (known : List Text) (load : LoadPage) (rest loads : List LoadPage)
      → loads ≡ (if not (mem load.url known) then load ∷ rest else rest)
      → (mem load.url known ≡ false → P load)
      → All P rest
      → All P loads
  All-send P known load rest loads h p k =
      subst (All P) (sym h) (elim (Bool-cases (mem load.url known)) [
        | inl old ↦ rw old k
        | inr new ↦ rw new (p new, k)
      ])

  pub send_links-IsLoadOf :
      (known : List Text) (links : List Link) (loads : List LoadPage)
      → send_links crates c command known links ≡ done loads
      → All (IsLoadOf known links) loads
  unfolding send_links
  send_links-IsLoadOf known [] [] h = tt
  send_links-IsLoadOf known [] (load ∷ loads) h = cc
  send_links-IsLoadOf known (link ∷ links) loads h =
      elim (send_links-cons known link links loads h) [
        | inl k ↦
            weaken known links (link ∷ links) loads (λ _ m. Memᴰ.tail m)
              (send_links-IsLoadOf known links loads k.1)
        | inr s ↦
            All-send _ known s.load s.rest loads s.result
              (λ new. record {
                link = link;
                member = Memᴰ.head refl;
                followed = s.followed;
                prepared = s.prepared;
                unknown = new;
              })
              (weaken known links (link ∷ links) s.rest (λ _ m. Memᴰ.tail m)
                (send_links-IsLoadOf known links s.rest s.remaining))
      ]

  Memᴰ-new :
      (known : List Text) (load : LoadPage) (rest loads : List LoadPage)
      → loads ≡ (if not (mem load.url known) then load ∷ rest else rest)
      → mem load.url known ≡ false
      → Memᴰ load loads
  Memᴰ-new known load rest loads h new = subst (Memᴰ load) (sym h) (rw new (Memᴰ.head refl))

  Memᴰ-rest :
      (known : List Text) (load other : LoadPage) (rest loads : List LoadPage)
      → loads ≡ (if not (mem load.url known) then load ∷ rest else rest)
      → Memᴰ other rest
      → Memᴰ other loads
  Memᴰ-rest known load other rest loads h m =
      subst (Memᴰ other) (sym h) (elim (Bool-cases (mem load.url known)) [
        | inl old ↦ rw old m
        | inr new ↦ rw new (Memᴰ.tail m)
      ])

  -- The command for a link is sent if its URL is not known.
  abbrev pub IsServed : List Text → List LoadPage → Link → Type 0
  IsServed known loads link =
      (load : LoadPage) × (prepare_load_command crates c command link ≡ done load)
      × (mem load.url known ≡ false → Memᴰ load loads)

  pub send_links-IsServed :
      (known : List Text) (link : Link) (links : List Link) (loads : List LoadPage)
      → Memᴰ link links
      → is_followed link.scope ≡ true
      → send_links crates c command known links ≡ done loads
      → IsServed known loads link
  send_links-IsServed known link [] loads m followed h = elim m [ ]
  send_links-IsServed known link (a ∷ links) loads (Memᴰ.head e) followed h =
      subst (IsServed known loads) (sym e) (elim (send_links-cons known a links loads h) [
        | inl k ↦
            absurd (true-ne-false (sym followed ∙ ap (λ (l : Link). is_followed l.scope) e ∙ k.0))
        | inr s ↦ (s.load, s.prepared, Memᴰ-new known s.load s.rest loads s.result)
      ])
    where
      true-ne-false : true ≢ false
      true-ne-false p = cc
  send_links-IsServed known link (a ∷ links) loads (Memᴰ.tail m) followed h =
      elim (send_links-cons known a links loads h) [
        | inl k ↦ send_links-IsServed known link links loads m followed k.1
        | inr s ↦
            let r = send_links-IsServed known link links s.rest m followed s.remaining in
            (r.0, r.1, λ new. Memᴰ-rest known s.load r.0 s.rest loads s.result (r.2 new))
      ]
