-- ===== src/PageLoader/Service/Distinct.antt =====
-- The links of a sorted page are followed once each by page_loader_service.rs.
use tarantula.Base.{
  mem, leb, not, if◌then◌else◌, subst, sym, ◌∙◌, ◌≡◌, ◌≢◌, inl, inr, Bool, true, false, List, [],
  ◌∷◌, some, done, arith, All, Text, text_eq, text_eq_iff, Bool-cases, retain, All-retain,
}
use tarantula.Crates.{Crates}
use tarantula.Responses.Link.{Link}
use tarantula.Responses.PageResponse.{PageResponse}
use tarantula.DomParser.{text_leb}
use tarantula.DomParser.Sorted.{IsSorted, text_leb_trans, text_leb_antisymm}
use tarantula.PageLoader.TaskContext.{TaskContext}
use tarantula.PageLoader.PageCrawl.{PageCrawlCommand}
use tarantula.PageLoader.Service.{
  know_page, LoadPage, Sent, dedup_after, dedup_links, has_scope, send_links, loads_of,
  consume_crawl_result,
}
use tarantula.PageLoader.Service.Links.{prepare_load_command_lem, send_links-cons, All-send}
use tarantula.PageLoader.Service.Allowed.{consume_crawl_result-eq-done}

-- A URI below that of the link, and another one.
abbrev IsBelow : Text → Link → Type 0
IsBelow uri b = (text_leb uri b.uri ≡ true) × (uri ≢ b.uri)

abbrev IsStrict : List Link → Type 0
IsStrict [] = Unit
IsStrict (a ∷ links) = All (IsBelow a.uri) links × IsStrict links

All-IsBelow :
    (uri uri' : Text) (links : List Link)
    → text_leb uri uri' ≡ true
    → All (IsBelow uri') links
    → All (IsBelow uri) links
All-IsBelow uri uri' [] h k = tt
All-IsBelow uri uri' (b ∷ links) h k = (
  (
    text_leb_trans uri uri' b.uri h k.0.0,
    λ e. k.0.1 (text_leb_antisymm uri' b.uri k.0.0 (subst (λ t. text_leb t uri' ≡ true) e h)),
  ),
  All-IsBelow uri uri' links h k.1,
)

dedup_after-IsStrict :
    (uri : Text) (links : List Link)
    → All (λ b. text_leb uri b.uri ≡ true) links
    → IsSorted links
    → All (IsBelow uri) (dedup_after uri links) × IsStrict (dedup_after uri links)
unfolding dedup_after
dedup_after-IsStrict uri [] h k = (tt, tt)
dedup_after-IsStrict uri (a ∷ links) h k = elim (Bool-cases (text_eq a.uri uri)) [
  | inl same ↦ rw same (dedup_after-IsStrict uri links h.1 k.1)
  | inr other ↦
      let rest = dedup_after-IsStrict a.uri links k.0 k.1 in
      let differs : uri ≢ a.uri = λ e. ground (arith, other, text_eq_iff a.uri uri, sym e) in
      rw other (((h.0, differs), All-IsBelow uri a.uri _ h.0 rest.0), rest)
]

dedup_links-IsStrict : (links : List Link) → IsSorted links → IsStrict (dedup_links links)
unfolding dedup_links
dedup_links-IsStrict [] h = tt
dedup_links-IsStrict (a ∷ links) h = dedup_after-IsStrict a.uri links h.0 h.1

retain-IsStrict : (p : Link → Bool) (links : List Link) → IsStrict links → IsStrict (retain p links)
retain-IsStrict p [] h = tt
retain-IsStrict p (a ∷ links) h = elim (Bool-cases (p a)) [
  | inl keep ↦ rw keep (All-retain _ p links h.0, retain-IsStrict p links h.1)
  | inr drop ↦ rw drop (retain-IsStrict p links h.1)
]

-- No two commands are for the same raw URL.
abbrev pub IsDistinct : List LoadPage → Type 0
IsDistinct [] = Unit
IsDistinct (a ∷ loads) = All (λ b. a.raw_url ≢ b.raw_url) loads × IsDistinct loads

module _ (crates : Crates) (c : TaskContext crates) (command : PageCrawlCommand) where
  send_links-All :
      (uri : Text) (known : List Text) (links : List Link) (loads : List LoadPage)
      → send_links crates c command known links ≡ done loads
      → All (IsBelow uri) links
      → All (λ b. uri ≢ b.raw_url) loads
  unfolding send_links
  send_links-All uri known [] [] h k = tt
  send_links-All uri known [] (load ∷ loads) h k = cc
  send_links-All uri known (link ∷ links) loads h k =
      elim (send_links-cons crates c command known link links loads h) [
        | inl e ↦ send_links-All uri known links loads e.1 k.1
        | inr s ↦
            All-send crates c command _ known s.load s.rest loads s.result
              (λ _ e.
                k.0.1 (e ∙ (prepare_load_command_lem crates c command link s.load s.prepared).0))
              (send_links-All uri known links s.rest s.remaining k.1)
      ]

  send_links-IsDistinct :
      (known : List Text) (links : List Link) (loads : List LoadPage)
      → send_links crates c command known links ≡ done loads
      → IsStrict links
      → IsDistinct loads
  unfolding send_links
  send_links-IsDistinct known [] [] h k = tt
  send_links-IsDistinct known [] (load ∷ loads) h k = cc
  send_links-IsDistinct known (link ∷ links) loads h k =
      elim (send_links-cons crates c command known link links loads h) [
        | inl e ↦ send_links-IsDistinct known links loads e.1 k.1
        | inr s ↦ subst IsDistinct (sym s.result) (
            go s.load s.rest
              (subst (λ r. All (λ b. r ≢ b.raw_url) s.rest)
                (sym (prepare_load_command_lem crates c command link s.load s.prepared).0)
                (send_links-All link.uri known links s.rest s.remaining k.0))
              (send_links-IsDistinct known links s.rest s.remaining k.1) (mem s.load.url known))
      ]
    where
      go :
          (load : LoadPage) (rest : List LoadPage)
          → All (λ b. load.raw_url ≢ b.raw_url) rest
          → IsDistinct rest
          → (old : Bool) → IsDistinct (if not old then load ∷ rest else rest)
      go load rest a d false = (a, d)
      go load rest a d true = d

  loads_of-IsDistinct :
      (links : List Link) (loads : List LoadPage)
      → IsSorted links
      → loads_of crates c command (some links) ≡ done loads
      → IsDistinct loads
  unfolding loads_of
  loads_of-IsDistinct links loads sorted h =
      elim (Bool-cases (leb command.current_depth c.task_config.maximum_depth)) [
        | inl below ↦
            send_links-IsDistinct _ _ loads (rw below at h)
              (retain-IsStrict has_scope _ (dedup_links-IsStrict links sorted))
        | inr above ↦ let none_sent : loads ≡ [] = cc in subst IsDistinct (sym none_sent) tt
      ]

module _ (crates : Crates) (c : TaskContext crates) (command : PageCrawlCommand) where
  -- Where a page whose links are sorted by URI, as the parser returns them, is consumed without a
  -- panic, the commands that are sent have distinct raw URLs.
  pub consume_crawl_result-IsDistinct :
      (is_open : Bool) (page : PageResponse) (links : List Link) (sent : Sent crates)
      → page.links ≡ some links
      → IsSorted links
      → consume_crawl_result crates c command is_open page ≡ done sent
      → IsDistinct sent.loads
  consume_crawl_result-IsDistinct is_open page links sent has sorted e =
      let k = (consume_crawl_result-eq-done crates c command is_open page links sent has e).2 in
      loads_of-IsDistinct crates (know_page crates c page) command links sent.loads sorted k
