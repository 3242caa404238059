-- ===== src/LinkResult/LinkTypeChecker/Patterns.antt =====
-- What `LinkTypeChecker::new` of link_type_checker.rs compiles, and what it makes of a host with a
-- dash in its name.
use tarantula.Base.{
  ◌≡◌, ◌≢◌, sym, ◌∙◌, ap, Bool, true, false, ◌||◌, [], ◌∷◌, ◌++◌, some, none, done, arith, Text,
  codes, starts_with, contains, replace, Option-cases, inl, inr,
}
use tarantula.Crates.{Crates}
use tarantula.Responses.UriScope.{UriScope}
use tarantula.LinkResult.LinkTypeChecker.{
  LinkTypeChecker, RegexType, anchor, same_domain, same_domain_with_protocol, pattern_text,
  domain_regex, new, is_match, match_scope, get_uri_scope,
}

module _ (crates : Crates) where
  -- A checker that `new` returns has a compiled pattern for every type, so that the `unwrap` of
  -- the look-up in `is_match` never panics.
  pub new-regexes :
      (host : Text) (c : LinkTypeChecker crates.Regex)
      → new crates host ≡ done c
      → (t : RegexType)
      → (c.regexes t ≡ crates.compile (pattern_text (domain_regex crates.escape host) t))
        × (c.regexes t ≢ none)
  unfolding new pattern_text
  new-regexes host c h anchor = ground arith
  new-regexes host c h t = ground arith

is_match_of_regex :
    (crates : Crates) (c : LinkTypeChecker crates.Regex) (key : RegexType) (uri : Text)
    (r : crates.Regex) {b : Bool}
    → c.regexes key ≡ some r
    → crates.is_match r uri ≡ some b
    → is_match crates c key uri ≡ done b
unfolding is_match
is_match_of_regex crates c key uri r found answer = rw (found, answer)

abbrev quoted : Text → Text
quoted s = replace s (codes "-") (codes "\"")

-- A text does not go on with its own spelling after the dashes are replaced, if it has one.
starts_with-quoted :
    (s rest : Text) → contains s (codes "-") ≡ true → starts_with (s ++ rest) (quoted s) ≡ false
unfolding starts_with contains replace
starts_with-quoted [] rest h = cc
starts_with-quoted (c ∷ s) rest h = ground (arith, starts_with-quoted s rest)

module _ (crates : Crates)
    -- `escape` treats a text character by character, and neither a dash nor a quote is special.
    (escape-quoted : (s : Text) → quoted (crates.escape s) ≡ crates.escape (quoted s))
    -- An escaped text is matched literally.
    (match_literal : (t uri : Text) (r : crates.Regex)
      → crates.compile (codes "^https?://" ++ crates.escape t) ≡ some r
      → crates.is_match r uri
        ≡ some (starts_with uri (codes "http://" ++ t) || starts_with uri (codes "https://" ++ t)))
    -- A pattern that refuses a scheme at the front does not match a text with one.
    (match_relative : (uri : Text) (r : crates.Regex)
      → crates.compile (pattern_text [] same_domain) ≡ some r
      → crates.is_match r (codes "https://" ++ uri) ≡ some false) where
  module _ (host rest : Text) (c : LinkTypeChecker crates.Regex) (made : new crates host ≡ done c)
      (dash : contains host (codes "-") ≡ true) where
    not_same_domain_with_protocol :
        is_match crates c same_domain_with_protocol (codes "https://" ++ host ++ rest) ≡ done false
    unfolding pattern_text domain_regex starts_with
    not_same_domain_with_protocol = elim (Option-cases (c.regexes same_domain_with_protocol)) [
      | inl missing ↦ absurd ((new-regexes crates host c made same_domain_with_protocol).1 missing)
      | inr (r, found) ↦ is_match_of_regex crates c same_domain_with_protocol _ r found (
          match_literal (quoted host) (codes "https://" ++ host ++ rest) r (compiled r found)
          ∙ ap some other_spelling)
    ]
      where
        compiled :
            (r : crates.Regex)
            → c.regexes same_domain_with_protocol ≡ some r
            → crates.compile (codes "^https?://" ++ crates.escape (quoted host)) ≡ some r
        compiled r found =
            ap (λ t. crates.compile (codes "^https?://" ++ t)) (sym (escape-quoted host))
            ∙ sym (new-regexes crates host c made same_domain_with_protocol).0
            ∙ found

        other_spelling :
            (starts_with (codes "https://" ++ host ++ rest) (codes "http://" ++ quoted host)
              || starts_with (codes "https://" ++ host ++ rest) (codes "https://" ++ quoted host))
            ≡ false
        other_spelling = starts_with-quoted host rest dash

    not_same_domain : is_match crates c same_domain (codes "https://" ++ host ++ rest) ≡ done false
    unfolding pattern_text
    not_same_domain = elim (Option-cases (c.regexes same_domain)) [
      | inl missing ↦ absurd ((new-regexes crates host c made same_domain).1 missing)
      | inr (r, found) ↦ is_match_of_regex crates c same_domain _ r found (
          match_relative (host ++ rest) r
            (sym (new-regexes crates host c made same_domain).0 ∙ found))
    ]

    -- If the host has a dash in its name, an absolute https link to it is never of the same
    -- domain, where the regular expressions do what their documentation says: an escaped text is
    -- matched literally, neither a dash nor a quote is special, and a pattern that excludes a
    -- scheme does not match a text with one.
    pub get_uri_scope-ne-same_domain :
        get_uri_scope crates c host (codes "https://" ++ host ++ rest)
        ≢ done (some UriScope.same_domain)
    unfolding get_uri_scope match_scope
    get_uri_scope-ne-same_domain = ground (arith, not_same_domain, not_same_domain_with_protocol)
