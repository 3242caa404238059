-- ===== src/LinkResult/UriService/Dots.antt =====
-- `normalize_url` of uri_service.rs: what it does with ".." parts.
use tarantula.Base.{
  ℕ, ◌≡◌, ◌≢◌, sym, ◌∙◌, ap, true, List, [], ◌∷◌, ◌++◌, Option, some, arith, All, All-append,
  All-pop, Text, codes, text_eq, text_eq_iff, contains, ends_with, starts_with, split, join,
  Bool-cases, inl, inr, subst,
}
use mathlib.Core.List.{append-nil, append_assoc, reverse-append}
use tarantula.TextLaws.Split.{
  IsFreeOf, join-split, split-join, split-append, split-IsFreeOf, split-eq-cons,
}
use tarantula.LinkResult.UriService.{
  push_part, push_parts, modified_parent_uri, normalize_url, normalized, create_uri_string,
  prefix_uri_with_forward_slash,
}

-- The part is no step to the parent directory.
abbrev pub IsPlain : Text → Type 0
IsPlain part = part ≢ codes ".."

push_part_of_IsPlain :
    (out : List Text) (part : Text) → IsPlain part → push_part out part ≡ out ++ part ∷ []
unfolding push_part
push_part_of_IsPlain out part h = ground (arith, text_eq_iff part (codes ".."))

push_parts_of_IsPlain :
    (out parts : List Text) → All IsPlain parts → push_parts out parts ≡ out ++ parts
unfolding push_parts
push_parts_of_IsPlain out [] h = sym (append-nil out)
push_parts_of_IsPlain out (part ∷ parts) h =
    rw (push_part_of_IsPlain out part h.0)
      (push_parts_of_IsPlain (out ++ part ∷ []) parts h.1 ∙ append_assoc out (part ∷ []) parts)

push_part-All :
    (P : Text → Type 0) (out : List Text) (part : Text)
    → All P out
    → P part
    → All P (push_part out part)
unfolding push_part
push_part-All P out part h k = elim (Bool-cases (text_eq part (codes ".."))) [
  | inl up ↦ rw up (All-pop P out h)
  | inr down ↦ rw down (All-append P out (part ∷ []) h (k, tt))
]

push_part-All-IsPlain :
    (out : List Text) (part : Text) → All IsPlain out → All IsPlain (push_part out part)
unfolding push_part
push_part-All-IsPlain out part h = elim (Bool-cases (text_eq part (codes ".."))) [
  | inl up ↦ rw up (All-pop IsPlain out h)
  | inr down ↦
      rw down
        (All-append IsPlain out (part ∷ []) h (ground (arith, text_eq_iff part (codes "..")), tt))
]

push_parts-All :
    (P : Text → Type 0) (out parts : List Text)
    → All P out
    → All P parts
    → All P (push_parts out parts)
unfolding push_parts
push_parts-All P out [] h k = h
push_parts-All P out (part ∷ parts) h k =
    push_parts-All P (push_part out part) parts (push_part-All P out part h k.0) k.1

push_parts-IsPlain : (out parts : List Text) → All IsPlain out → All IsPlain (push_parts out parts)
unfolding push_parts
push_parts-IsPlain out [] h = h
push_parts-IsPlain out (part ∷ parts) h =
    push_parts-IsPlain (push_part out part) parts (push_part-All-IsPlain out part h)

split-join-IsPlain :
    (parts : List Text)
    → All (IsFreeOf b'/') parts
    → All IsPlain parts
    → All IsPlain (split b'/' (join b'/' parts))
unfolding join split
split-join-IsPlain [] f h = ((λ e. cc), tt)
split-join-IsPlain (part ∷ parts) f h = subst (All IsPlain) (sym (split-join b'/' part parts f)) h

-- Once a URI holds "../", no part of the normalised URI is "..".
pub normalize_url-IsPlain :
    (uri : Text) (parent : Option Text)
    → contains uri (codes "../") ≡ true
    → All IsPlain (split b'/' (normalize_url uri parent))
unfolding normalize_url
normalize_url-IsPlain uri parent h =
    let parts = split b'/' (modified_parent_uri parent ++ uri) in
    rw h (
      split-join-IsPlain (push_parts [] parts)
        (push_parts-All (IsFreeOf b'/') [] parts tt (split-IsFreeOf b'/' _))
        (push_parts-IsPlain [] parts tt))

-- With no ".." part at all, normalising puts the parent in front and changes nothing else.
pub normalize_url_of_IsPlain :
    (uri : Text) (parent : Option Text)
    → contains uri (codes "../") ≡ true
    → All IsPlain (split b'/' (modified_parent_uri parent ++ uri))
    → normalize_url uri parent ≡ modified_parent_uri parent ++ uri
unfolding normalize_url
normalize_url_of_IsPlain uri parent h plain = rw h (
    ap (join b'/') (push_parts_of_IsPlain [] _ plain)
    ∙ join-split b'/' (modified_parent_uri parent ++ uri))

ends_with-append : (s : Text) (c : ℕ) → ends_with (s ++ c ∷ []) (c ∷ []) ≡ true
unfolding ends_with starts_with
ends_with-append s c = rw (reverse-append s (c ∷ [])) (ground arith)

abbrev pub root_of : Text → Text
root_of host = codes "https://" ++ host ++ codes "/"

module _ (host rest : Text) (one_part : IsFreeOf b'/' host) (plain_host : IsPlain host)
    (plain_rest : All IsPlain (split b'/' rest)) where
  parent_kept : modified_parent_uri (some (root_of host)) ≡ root_of host
  unfolding modified_parent_uri
  parent_kept = rw (ends_with-append (codes "https://" ++ host) b'/')

  root_parts :
      split b'/' (root_of host ++ (codes "../" ++ rest))
      ≡ codes "https:" ∷ [] ∷ host ∷ codes ".." ∷ split b'/' rest
  root_parts =
      ap (λ t. split b'/' (codes "https://" ++ t))
        (append_assoc host (codes "/") (codes "../" ++ rest))
      ∙ split-append b'/' (codes "https:") (b'/' ∷ (host ++ b'/' ∷ (codes "../" ++ rest)))
          (omega arith)
      ∙ ap (◌∷◌ (codes "https:")) (
          split-append b'/' [] (host ++ b'/' ∷ (codes "../" ++ rest)) tt
          ∙ ap (◌∷◌ []) (
              split-append b'/' host (codes "../" ++ rest) one_part
              ∙ ap (◌∷◌ host) (split-append b'/' (codes "..") rest (omega arith))))

  root_push :
      push_parts [] (codes "https:" ∷ [] ∷ host ∷ codes ".." ∷ split b'/' rest)
      ≡ codes "https:" ∷ [] ∷ split b'/' rest
  unfolding push_parts push_part text_eq
  root_push =
      ap (λ out. push_parts (push_part out (codes "..")) (split b'/' rest))
        (push_part_of_IsPlain (codes "https:" ∷ [] ∷ []) host plain_host)
      ∙ push_parts_of_IsPlain (codes "https:" ∷ [] ∷ []) (split b'/' rest) plain_rest

  root_join : join b'/' (codes "https:" ∷ [] ∷ split b'/' rest) ≡ codes "https://" ++ rest
  unfolding join
  root_join =
      let (part, parts, e) = split-eq-cons b'/' rest in
      ap (λ ps. join b'/' (codes "https:" ∷ [] ∷ ps)) e
      ∙ ap (λ t. codes "https://" ++ t) (ap (join b'/') (sym e) ∙ join-split b'/' rest)

  -- A step to the parent directory on the site's front page takes the host away, and makes the next
  -- part the host.
  pub normalize_url-root :
      normalize_url (codes "../" ++ rest) (some (root_of host)) ≡ codes "https://" ++ rest
  unfolding normalize_url contains starts_with
  normalize_url-root =
      ap (λ t. join b'/' (push_parts [] (split b'/' (t ++ (codes "../" ++ rest))))) parent_kept
      ∙ ap (λ ps. join b'/' (push_parts [] ps)) root_parts
      ∙ ap (join b'/') root_push
      ∙ root_join

  -- On the front page of a site, the link ../rest becomes https://rest: the host of the site is
  -- gone. Here the host holds no slash and is not '..', and no part of the rest is '..'.
  pub normalized-root :
      normalized (codes "https") host (some (root_of host)) (codes "../" ++ rest)
      ≡ codes "https://" ++ rest
  unfolding normalized create_uri_string prefix_uri_with_forward_slash starts_with
  normalized-root =
      ap (λ t. create_uri_string (codes "https") host (prefix_uri_with_forward_slash t))
        normalize_url-root
