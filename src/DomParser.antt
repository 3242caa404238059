-- ===== src/DomParser.antt =====
-- dom_parser/src/lib.rs: the links of an HTML document.
pub mod Sorted
use tarantula.Base.{
  ℕ, Bool, true, false, List, [], ◌∷◌, Option, none, some, Outcome, done, panic, ◌>>=◌,
  if◌then◌else◌, ltb, ◌==◌, Text, codes, mem, trim,
}
use tarantula.Crates.{Crates}
use tarantula.Responses.Link.{Link}
use tarantula.LinkResult.LinkTypeChecker
use tarantula.LinkResult.LinkTypeChecker.{LinkTypeChecker}

-- linkresult/src/uri_result.rs.
pub record UriResult : Type 0 where
  pub parse_complete_time : ℕ
  pub links : List Link

-- `a.cmp(b) != Greater` for `String`: the order of the code points, which is that of their UTF-8
-- bytes.
unfoldable pub text_leb : Text → Text → Bool
text_leb [] t = true
text_leb (c ∷ s) [] = false
text_leb (c ∷ s) (d ∷ t) = if c == d then text_leb s t else ltb c d

-- `sort_by`, which is stable: a link goes before the first link that is not below it.
unfoldable pub insert_link : Link → List Link → List Link
insert_link a [] = a ∷ []
insert_link a (b ∷ links) = if text_leb a.uri b.uri then a ∷ b ∷ links else b ∷ insert_link a links

unfoldable pub sort_links : List Link → List Link
unfolding insert_link
sort_links [] = []
sort_links (a ∷ links) = insert_link a (sort_links links)

abbrev link_attribute_identifiers : List Text
link_attribute_identifiers = codes "href" ∷ codes "src" ∷ codes "data-src" ∷ []

-- `attrs().find(…)`: the value of the first attribute that names a link.
unfoldable pub find_link : List (Text × Text) → Option Text
find_link [] = none
find_link ((name, value) ∷ attrs) =
    if mem name link_attribute_identifiers then some value else find_link attrs

module _ (crates : Crates) (checker : LinkTypeChecker crates.Regex)
    (parent_protocol host : Text) where
  open crates use {Element, attrs, debug_element, parse_document}

  -- The link of an element, whose scope and protocol are those of the text before it is trimmed.
  unfoldable pub make_link : Element → Text → Outcome Link
  make_link element link = do
    scope ← LinkTypeChecker.get_uri_scope crates checker host link
    protocol ← LinkTypeChecker.get_uri_protocol crates checker parent_protocol link
    done (record {
      uri = trim link;
      scope = scope;
      protocol = protocol;
      source_tag = some (debug_element element);
    })

  unfoldable pub extract_links : List (Option Element) → Outcome (List Link)
  unfolding make_link find_link
  extract_links [] = done []
  extract_links (none ∷ nodes) = extract_links nodes
  extract_links (some element ∷ nodes) = elim (find_link (attrs element)) [
    | none ↦ extract_links nodes
    | some link ↦ do first ← make_link element link; rest ← extract_links nodes; done (first ∷ rest)
  ]

  -- `now` is the clock's reading after the extraction.
  unfoldable pub get_links : ℕ → Text → Outcome (Option UriResult)
  unfolding extract_links sort_links
  get_links now body = do
    links ← extract_links (parse_document body)
    done (some (record { parse_complete_time = now; links = sort_links links }))
