-- ===== src/TextLaws/Slashes.antt =====
-- Runs of slashes: replacing "//" by "/", and the reference that drops each slash after a slash.
use tarantula.Base.{
  ℕ, ◌≤◌, ◌<◌, ◌≡◌, refl, Bool, true, false, ◌&&◌, [], ◌∷◌, arith, if◌then◌else◌, ◌==◌, Text, codes,
  contains, replace, length,
}

abbrev pub slash : ℕ
slash = b'/'

-- The first argument says whether a slash stands just before the text.
unfoldable pub collapse_after : Bool → Text → Text
collapse_after b [] = []
collapse_after b (c ∷ s) =
    let rest = collapse_after (c == slash) s in if b && (c == slash) then rest else c ∷ rest

-- Every slash that follows a slash is dropped.
unfoldable pub collapse : Text → Text
unfolding collapse_after
collapse s = collapse_after false s

abbrev pub once : Text → Text
once s = replace s (codes "//") (codes "/")

collapse_after-once : (b : Bool) (s : Text) → collapse_after b (once s) ≡ collapse_after b s
unfolding collapse_after replace
collapse_after-once b [] = refl
collapse_after-once b (c ∷ []) = ground arith
collapse_after-once b (c ∷ d ∷ s) =
    ground (arith, collapse_after-once true s, collapse_after-once (c == slash) (d ∷ s))

pub collapse-once : (s : Text) → collapse (once s) ≡ collapse s
unfolding collapse
collapse-once s = collapse_after-once false s

abbrev starts_slash : Text → Bool
starts_slash [] = false
starts_slash (c ∷ s) = c == slash

collapse_after_of_no_run :
    (b : Bool) (s : Text)
    → contains s (codes "//") ≡ false
    → (b && starts_slash s) ≡ false
    → collapse_after b s ≡ s
unfolding collapse_after contains
collapse_after_of_no_run b [] h k = refl
collapse_after_of_no_run b (c ∷ []) h k = ground arith
collapse_after_of_no_run b (c ∷ d ∷ s) h k =
    ground (arith, collapse_after_of_no_run (c == slash) (d ∷ s))

pub collapse_of_no_run : (s : Text) → contains s (codes "//") ≡ false → collapse s ≡ s
unfolding collapse
collapse_of_no_run s h = collapse_after_of_no_run false s h refl

length-once-le : (s : Text) → length (once s) ≤ length s
unfolding replace
length-once-le [] = omega arith
length-once-le (c ∷ []) = ground arith
length-once-le (c ∷ d ∷ s) = ground (arith, length-once-le s, length-once-le (d ∷ s))

-- A round on a text with a run of slashes makes it shorter.
pub length-once-lt : (s : Text) → contains s (codes "//") ≡ true → length (once s) < length s
unfolding replace contains
length-once-lt [] h = cc
length-once-lt (c ∷ []) h = ground arith
length-once-lt (c ∷ d ∷ s) h = ground (arith, length-once-le s, length-once-lt (d ∷ s))
