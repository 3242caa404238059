-- ===== src/LinkResult/UriService/Slashes.antt =====
-- The loop of `pre_clean_uri` of uri_service.rs.
use tarantula.Base.{
  ℕ, zero, suc, ◌≡◌, refl, ◌≤◌, sym, ◌∙◌, true, false, ◌&&◌, ◌||◌, List, [], ◌∷◌, ◌++◌, arith,
  Bool-cases, inl, inr, if◌then◌else◌, Text, codes, contains, length, mem, text_eq, starts_with,
  ends_with, split,
}
use tarantula.TextLaws.Slashes.{collapse, once, collapse-once, collapse_of_no_run, length-once-lt}
use tarantula.LinkResult.UriService.{
  squeeze, drop_first, clean_slashes, leading_protocol, strip_protocol, pre_clean_uri, clean_query,
}

abbrev pub protocols : List Text
protocols = codes "http://" ∷ codes "https://" ∷ codes "//" ∷ [] ∷ []

squeeze-run :
    (fuel : ℕ) (s : Text)
    → contains s (codes "//") ≡ true
    → squeeze (suc fuel) s ≡ squeeze fuel (once s)
unfolding squeeze
squeeze-run fuel s run = rw (run, squeeze)

squeeze-clean : (fuel : ℕ) (s : Text) → contains s (codes "//") ≡ false → squeeze fuel s ≡ s
unfolding squeeze
squeeze-clean zero s clean = refl
squeeze-clean (suc fuel) s clean = rw (clean, squeeze)

contains-nil : contains [] (codes "//") ≡ false
unfolding contains
contains-nil = refl

-- With the length of the text for fuel the loop ends, and it computes the text in which each slash
-- that follows a slash is dropped.
pub squeeze-collapse : (fuel : ℕ) (s : Text) → length s ≤ fuel → squeeze fuel s ≡ collapse s
squeeze-collapse fuel [] h =
    squeeze-clean fuel [] contains-nil ∙ sym (collapse_of_no_run [] contains-nil)
squeeze-collapse zero (c ∷ s) h = absurd (omega arith)
squeeze-collapse (suc fuel) (c ∷ s) h = elim (Bool-cases (contains (c ∷ s) (codes "//"))) [
  | inl run ↦
      let shorter = length-once-lt (c ∷ s) run in
      squeeze-run fuel (c ∷ s) run
      ∙ squeeze-collapse fuel (once (c ∷ s)) (omega arith)
      ∙ collapse-once (c ∷ s)
  | inr clean ↦ squeeze-clean (suc fuel) (c ∷ s) clean ∙ sym (collapse_of_no_run (c ∷ s) clean)
]

-- Nothing is left for another round.
pub contains-squeeze :
    (fuel : ℕ) (s : Text) → length s ≤ fuel → contains (squeeze fuel s) (codes "//") ≡ false
contains-squeeze fuel [] h = rw (squeeze-clean fuel [] contains-nil) contains-nil
contains-squeeze zero (c ∷ s) h = absurd (omega arith)
contains-squeeze (suc fuel) (c ∷ s) h = elim (Bool-cases (contains (c ∷ s) (codes "//"))) [
  | inl run ↦
      let shorter = length-once-lt (c ∷ s) run in
      rw (squeeze-run fuel (c ∷ s) run) (contains-squeeze fuel (once (c ∷ s)) (omega arith))
  | inr clean ↦ rw (squeeze-clean (suc fuel) (c ∷ s) clean) clean
]

contains-drop_first :
    (s : Text) → contains s (codes "//") ≡ false → contains (drop_first s) (codes "//") ≡ false
unfolding contains drop_first
contains-drop_first [] h = h
contains-drop_first (c ∷ s) h = ground arith

clean_slashes_parts :
    (host s : Text)
    → (rest : Text) × (clean_slashes host s ≡ leading_protocol s ++ rest)
      × (contains rest (codes "//") ≡ false)
unfolding clean_slashes
clean_slashes_parts host s =
    let stripped = strip_protocol (leading_protocol s) s in
    let clean = contains-squeeze (length stripped) stripped (omega arith) in
    elim (Bool-cases (
      starts_with (squeeze (length stripped) stripped) (codes "/")
      && (ends_with host (codes "/") || text_eq (leading_protocol s) (codes "//")))) [
        | inl cut ↦
            (drop_first (squeeze (length stripped) stripped), rw cut, contains-drop_first _ clean)
        | inr whole ↦ (squeeze (length stripped) stripped, rw whole, clean)
      ]

leading_protocol_cases : (s : Text) → mem (leading_protocol s) protocols ≡ true
unfolding leading_protocol text_eq
leading_protocol_cases s = ground arith

-- Whatever the URI, its query included: what is cleaned is one of four protocols (one of them
-- empty) and a rest in which no slash follows a slash.
pub pre_clean_uri-clean :
    (encode : Text → Text) (host uri : Text)
    → (protocol rest : Text) × (pre_clean_uri encode host uri ≡ protocol ++ rest)
      × (mem protocol protocols ≡ true)
      × (contains rest (codes "//") ≡ false)
unfolding pre_clean_uri
pre_clean_uri-clean encode host uri =
    let s = if contains uri (codes "?") then clean_query encode host (split b'?' uri) else uri in
    let (rest, e, clean) = clean_slashes_parts host s in
    (leading_protocol s, rest, e, leading_protocol_cases s, clean)
