-- ===== src/DomParser/Sorted.antt =====
-- The order of the links that the parser returns.
use mathlib.Core.List.{Perm}
use mathlib.Core.List.Perm
use tarantula.Base.{
  ℕ, ◌≡◌, refl, true, false, List, [], ◌∷◌, some, done, arith, Bool-cases, inl, inr, Text, All,
}
use tarantula.Crates.{Crates}
use tarantula.Responses.Link.{Link}
use tarantula.LinkResult.LinkTypeChecker.{LinkTypeChecker}
use tarantula.DomParser.{UriResult, text_leb, insert_link, sort_links, extract_links, get_links}

pub text_leb_trans :
    (s t u : Text) → text_leb s t ≡ true → text_leb t u ≡ true → text_leb s u ≡ true
unfolding text_leb
text_leb_trans [] t u h k = refl
text_leb_trans (c ∷ s) [] u h k = cc
text_leb_trans (c ∷ s) (d ∷ t) [] h k = cc
text_leb_trans (c ∷ s) (d ∷ t) (e ∷ u) h k = ground (arith, text_leb_trans s t u)

pub text_leb_total : (s t : Text) → text_leb s t ≡ false → text_leb t s ≡ true
unfolding text_leb
text_leb_total [] t h = cc
text_leb_total (c ∷ s) [] h = refl
text_leb_total (c ∷ s) (d ∷ t) h = ground (arith, text_leb_total s t)

pub text_leb_antisymm : (s t : Text) → text_leb s t ≡ true → text_leb t s ≡ true → s ≡ t
unfolding text_leb
text_leb_antisymm [] [] h k = refl
text_leb_antisymm [] (d ∷ t) h k = cc
text_leb_antisymm (c ∷ s) [] h k = cc
text_leb_antisymm (c ∷ s) (d ∷ t) h k = ground (arith, text_leb_antisymm s t)

-- Every link is below all that follow it.
abbrev pub IsSorted : List Link → Type 0
IsSorted [] = Unit
IsSorted (a ∷ links) = All (λ b. text_leb a.uri b.uri ≡ true) links × IsSorted links

All-insert_link :
    (P : Link → Type 0) (a : Link) (links : List Link)
    → P a
    → All P links
    → All P (insert_link a links)
unfolding insert_link
All-insert_link P a [] p h = (p, tt)
All-insert_link P a (b ∷ links) p h = elim (Bool-cases (text_leb a.uri b.uri)) [
  | inl below ↦ rw below (p, h)
  | inr above ↦ rw above (h.0, All-insert_link P a links p h.1)
]

All-above :
    (a b : Link) (links : List Link)
    → text_leb a.uri b.uri ≡ true
    → All (λ c. text_leb b.uri c.uri ≡ true) links
    → All (λ c. text_leb a.uri c.uri ≡ true) links
All-above a b [] h k = tt
All-above a b (c ∷ links) h k = (text_leb_trans a.uri b.uri c.uri h k.0, All-above a b links h k.1)

insert_link-IsSorted :
    (a : Link) (links : List Link) → IsSorted links → IsSorted (insert_link a links)
unfolding insert_link
insert_link-IsSorted a [] h = (tt, tt)
insert_link-IsSorted a (b ∷ links) h = elim (Bool-cases (text_leb a.uri b.uri)) [
  | inl below ↦ rw below ((below, All-above a b links below h.0), h)
  | inr above ↦ rw above (
    All-insert_link _ a links (text_leb_total a.uri b.uri above) h.0,
    insert_link-IsSorted a links h.1,
  )
]

sort_links-IsSorted : (links : List Link) → IsSorted (sort_links links)
unfolding sort_links
sort_links-IsSorted [] = tt
sort_links-IsSorted (a ∷ links) = insert_link-IsSorted a _ (sort_links-IsSorted links)

insert_link-perm : (a : Link) (links : List Link) → Perm (insert_link a links) (a ∷ links)
unfolding insert_link
insert_link-perm a [] = Perm.refl _
insert_link-perm a (b ∷ links) = elim (Bool-cases (text_leb a.uri b.uri)) [
  | inl below ↦ rw below (Perm.refl _)
  | inr above ↦ rw above (Perm.trans (Perm.cons b (insert_link-perm a links)) (Perm.swap a b links))
]

sort_links-perm : (links : List Link) → Perm (sort_links links) links
unfolding sort_links
sort_links-perm [] = Perm.refl _
sort_links-perm (a ∷ links) =
    Perm.trans (insert_link-perm a (sort_links links)) (Perm.cons a (sort_links-perm links))

-- Unless a regular expression panics, the parser returns a result, and its links are those of the
-- document in the order of their URIs.
pub get_links-IsSorted :
    (crates : Crates) (checker : LinkTypeChecker crates.Regex) (protocol host : Text) (now : ℕ)
    (body : Text) (links : List Link)
    → extract_links crates checker protocol host (crates.parse_document body) ≡ done links
    → (r : UriResult) × (get_links crates checker protocol host now body ≡ done (some r))
      × IsSorted r.links
      × Perm r.links links
unfolding get_links
get_links-IsSorted crates checker protocol host now body links h = (
  record { parse_complete_time = now; links = sort_links links },
  rw h,
  sort_links-IsSorted links,
  sort_links-perm links,
)
