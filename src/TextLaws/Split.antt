-- ===== src/TextLaws/Split.antt =====
-- Splitting a text at a separator, and joining the parts again.
use tarantula.Base.{
  ℕ, ◌≡◌, refl, ◌≢◌, ap, subst, ◌∙◌, List, [], ◌∷◌, ◌++◌, arith, All, Bool-cases, inl, inr, ◌==◌,
  Text, split, join, cons_head,
}

-- No code point of the text is the separator.
abbrev pub IsFreeOf : ℕ → Text → Type 0
IsFreeOf sep s = All (λ c. c ≢ sep) s

-- A split has at least one part.
pub split-eq-cons :
    (sep : ℕ) (s : Text) → (part : Text) × (parts : List Text) × (split sep s ≡ part ∷ parts)
unfolding split
split-eq-cons sep [] = ([], [], refl)
split-eq-cons sep (c ∷ s) =
    let (part, parts, e) = split-eq-cons sep s in
    elim (Bool-cases (c == sep)) [
      | inl hit ↦ ([], split sep s, rw hit)
      | inr miss ↦ (c ∷ part, parts, rw (miss, e))
    ]

join-cons_head :
    (sep c : ℕ) (part : Text) (parts : List Text)
    → join sep (cons_head c (part ∷ parts)) ≡ c ∷ join sep (part ∷ parts)
unfolding join
join-cons_head sep c part [] = refl
join-cons_head sep c part (next ∷ parts) = refl

pub join-split : (sep : ℕ) (s : Text) → join sep (split sep s) ≡ s
unfolding split join
join-split sep [] = refl
join-split sep (c ∷ s) =
    let (part, parts, e) = split-eq-cons sep s in
    let ih : join sep (part ∷ parts) ≡ s = rw (← e) (join-split sep s) in
    ground (arith, ih, e, join-cons_head sep c part parts)

pub split-IsFreeOf : (sep : ℕ) (s : Text) → All (IsFreeOf sep) (split sep s)
unfolding split
split-IsFreeOf sep [] = (tt, tt)
split-IsFreeOf sep (c ∷ s) =
    let (part, parts, e) = split-eq-cons sep s in
    let ih = subst (All (IsFreeOf sep)) e (split-IsFreeOf sep s) in
    elim (Bool-cases (c == sep)) [
      | inl hit ↦ rw (hit, e) (tt, ih)
      | inr miss ↦ rw (miss, e) (((ground arith), ih.0), ih.1)
    ]

split_of_IsFreeOf : (sep : ℕ) (s : Text) → IsFreeOf sep s → split sep s ≡ s ∷ []
unfolding split
split_of_IsFreeOf sep [] h = refl
split_of_IsFreeOf sep (c ∷ s) h = ground (arith, split_of_IsFreeOf sep s h.1)

pub split-append :
    (sep : ℕ) (part s : Text) → IsFreeOf sep part → split sep (part ++ sep ∷ s) ≡ part ∷ split sep s
unfolding split
split-append sep [] s h = ground arith
split-append sep (c ∷ part) s h = ground (arith, split-append sep part s h.1)

-- Parts that are free of the separator come back.
pub split-join :
    (sep : ℕ) (part : Text) (parts : List Text)
    → All (IsFreeOf sep) (part ∷ parts)
    → split sep (join sep (part ∷ parts)) ≡ part ∷ parts
unfolding join
split-join sep part [] h = split_of_IsFreeOf sep part h.0
split-join sep part (next ∷ parts) h =
    split-append sep part (join sep (next ∷ parts)) h.0
    ∙ ap (◌∷◌ part) (split-join sep next parts h.1)
