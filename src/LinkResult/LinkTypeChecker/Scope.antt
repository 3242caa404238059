-- ===== src/LinkResult/LinkTypeChecker/Scope.antt =====
-- What `get_uri_scope` of link_type_checker.rs calls the root of the site.
use tarantula.Base.{◌≡◌, ◌≢◌, true, ◌↔◌, [], ◌∷◌, ◌++◌, List, some, done, arith, Text, codes, mem}
use tarantula.Crates.{Crates}
use tarantula.Responses.UriScope.{UriScope}
use tarantula.LinkResult.LinkTypeChecker.{LinkTypeChecker, match_scope, get_uri_scope}

-- The spellings of a site's root.
abbrev pub root_forms : Text → List Text
root_forms host =
    codes "/"
    ∷ host
    ∷ (host ++ codes "/")
    ∷ (codes "http://" ++ host)
    ∷ (codes "http://" ++ host ++ codes "/")
    ∷ (codes "https://" ++ host)
    ∷ (codes "https://" ++ host ++ codes "/")
    ∷ []

module _ (crates : Crates) (c : LinkTypeChecker crates.Regex) where
  match_scope-ne-root : (uri : Text) → match_scope crates c uri ≢ done (some UriScope.root)
  unfolding match_scope
  match_scope-ne-root uri = ground arith

  -- A URI is the root of a host exactly when it is one of seven spellings, whatever the regular
  -- expressions match.
  pub get_uri_scope-eq-root_iff :
      (host uri : Text)
      → (get_uri_scope crates c host uri ≡ done (some UriScope.root))
        ↔ (mem uri (root_forms host) ≡ true)
  unfolding get_uri_scope
  get_uri_scope-eq-root_iff host uri = ground (arith, match_scope-ne-root uri)
