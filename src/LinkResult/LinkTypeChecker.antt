-- ===== src/LinkResult/LinkTypeChecker.antt =====
-- linkresult/src/link_type_checker.rs. A check may panic, since the regular expressions may.
pub mod Protocol
pub mod Scope
pub mod Patterns
use tarantula.Base.{
  ℕ, Bool, true, false, [], ◌++◌, Option, none, some, Outcome, done, panic, ◌>>=◌, unwrap,
  if◌then◌else◌, ◌==◌, zero, suc, Text, codes, text_eq, starts_with, replace,
}
use tarantula.Crates.{Crates}
use tarantula.Responses.UriScope.{UriScope}
use tarantula.Responses.UriProtocol.{UriProtocol}

pub data RegexType : Type 0 where
  anchor : RegexType
  different_subdomain : RegexType
  different_subdomain_with_protocol : RegexType
  external : RegexType
  external_with_protocol : RegexType
  same_domain : RegexType
  same_domain_with_protocol : RegexType
  unknown_prefix : RegexType

-- The hash map is a function from its keys.
pub record LinkTypeChecker (Regex : Type 0) : Type 0 where
  pub regexes : RegexType → Option Regex

-- The pattern that `new` compiles for each type, for the escaped host.
unfoldable pub pattern_text : Text → RegexType → Text
pattern_text domain anchor = codes "^/?#"
pattern_text domain different_subdomain = codes "^//.+\\.(?:" ++ domain ++ codes ").*$"
pattern_text domain different_subdomain_with_protocol =
    codes "^https?://[^/=?]*\\." ++ domain ++ codes ".*$"
pattern_text domain external = codes "^//(?!" ++ domain ++ codes ").*$"
pattern_text domain external_with_protocol = codes "^https?://.*"
pattern_text domain same_domain = codes "^(?![a-zA-Z]+://)(?:/?(?:[^#].+))$"
pattern_text domain same_domain_with_protocol = codes "^https?://" ++ domain
pattern_text domain unknown_prefix = codes "^(?!https?)[a-zA-Z0-9]+:.*"

-- One arm of the source's match: its guard may panic.
abbrev pub arm {ℓ} : {A : Type ℓ} → Outcome Bool → A → Outcome A → Outcome A
arm panic result rest = panic
arm (done true) result rest = done result
arm (done false) result rest = rest

abbrev tag : RegexType → ℕ
tag anchor = 0
tag different_subdomain = 1
tag different_subdomain_with_protocol = 2
tag external = 3
tag external_with_protocol = 4
tag same_domain = 5
tag same_domain_with_protocol = 6
tag unknown_prefix = 7

abbrev insert {ℓ} : {V : Type ℓ} → RegexType → V → (RegexType → Option V) → RegexType → Option V
insert key value entries other = if tag other == tag key then some value else entries other

-- `escape(host)` with each dash replaced by a double quote, as `new` has it.
unfoldable pub domain_regex : (Text → Text) → Text → Text
domain_regex escape host = replace (escape host) (codes "-") (codes "\"")

unfoldable pub get_uri_protocol_as_str : UriProtocol → Text
get_uri_protocol_as_str UriProtocol.http = codes "http"
get_uri_protocol_as_str UriProtocol.https = codes "https"
get_uri_protocol_as_str _ = codes "https"

module _ (crates : Crates) where
  open crates use {Regex, escape, compile}

  abbrev add_regex :
      Text → RegexType → (RegexType → Option Regex) → Outcome (RegexType → Option Regex)
  add_regex domain key entries = do
    regex ← unwrap (compile (pattern_text domain key))
    done (insert key regex entries)

  unfoldable pub new : Text → Outcome (LinkTypeChecker Regex)
  new host = do
    let domain = domain_regex escape host
    m ← add_regex domain anchor (λ _. none)
    m ← add_regex domain different_subdomain m
    m ← add_regex domain different_subdomain_with_protocol m
    m ← add_regex domain external m
    m ← add_regex domain external_with_protocol m
    m ← add_regex domain same_domain m
    m ← add_regex domain same_domain_with_protocol m
    m ← add_regex domain unknown_prefix m
    done (record { regexes = m })

  unfoldable pub is_match : LinkTypeChecker Regex → RegexType → Text → Outcome Bool
  is_match c key uri = do regex ← unwrap (c.regexes key); unwrap (crates.is_match regex uri)

  -- The arms of `get_uri_scope` that test a regular expression, in their order.
  unfoldable pub match_scope : LinkTypeChecker Regex → Text → Outcome (Option UriScope)
  match_scope c uri = arm (is_match c unknown_prefix uri) (some UriScope.unknown_prefix) (
      arm (is_match c anchor uri) (some UriScope.anchor) (
        arm (is_match c different_subdomain uri) (some UriScope.different_sub_domain) (
          arm (is_match c external uri) (some UriScope.external) (
            arm (is_match c same_domain uri) (some UriScope.same_domain) (
              arm (is_match c same_domain_with_protocol uri) (some UriScope.same_domain) (
                arm (is_match c different_subdomain_with_protocol uri)
                  (some UriScope.different_sub_domain)
                  (arm (is_match c external_with_protocol uri) (some UriScope.external)
                    (done none))))))))

  unfoldable pub get_uri_scope : LinkTypeChecker Regex → Text → Text → Outcome (Option UriScope)
  unfolding match_scope
  get_uri_scope c host uri =
      if text_eq uri (codes "/")
      then done (some UriScope.root)
      else if text_eq uri host
      then done (some UriScope.root)
      else if text_eq uri (host ++ codes "/")
      then done (some UriScope.root)
      else if text_eq uri (codes "http://" ++ host)
      then done (some UriScope.root)
      else if text_eq uri (codes "http://" ++ host ++ codes "/")
      then done (some UriScope.root)
      else if text_eq uri (codes "https://" ++ host)
      then done (some UriScope.root)
      else if text_eq uri (codes "https://" ++ host ++ codes "/")
      then done (some UriScope.root)
      else if starts_with uri (codes "mailto:")
      then done (some UriScope.mailto)
      else if starts_with uri (codes "data:image/")
      then done (some UriScope.embedded_image)
      else if starts_with uri (codes "javascript:")
      then done (some UriScope.code)
      else match_scope c uri

  -- The body of `get_uri_protocol`, with the result of the recursive call of its last arm.
  unfoldable pub protocol_round :
      LinkTypeChecker Regex
      → Text
      → Option (Outcome (Option UriProtocol))
      → Option (Outcome (Option UriProtocol))
  protocol_round c uri again =
      if starts_with uri (codes "https")
      then some (done (some UriProtocol.https))
      else if starts_with uri (codes "http")
      then some (done (some UriProtocol.http))
      else if starts_with uri (codes "data:")
      then some (done none)
      else if starts_with uri (codes "mailto:")
      then some (done none)
      else elim (is_match c unknown_prefix uri) [
        | panic ↦ some panic
        | done matched ↦
            if matched
            then some (done none)
            else if text_eq uri []
            then some (done none)
            else if starts_with uri (codes "//")
            then some (done (some UriProtocol.implicit))
            else again
      ]

  -- The recursion of the source, on fuel. `none` means that the fuel ran out.
  unfoldable pub protocol_from :
      LinkTypeChecker Regex → ℕ → Text → Text → Option (Outcome (Option UriProtocol))
  unfolding protocol_round
  protocol_from c zero parent_protocol uri = none
  protocol_from c (suc fuel) parent_protocol uri =
      protocol_round c uri (protocol_from c fuel [] parent_protocol)

  -- Three rounds are enough: `get_uri_protocol-total` of the laws.
  unfoldable pub get_uri_protocol :
      LinkTypeChecker Regex → Text → Text → Outcome (Option UriProtocol)
  unfolding protocol_from
  get_uri_protocol c parent_protocol uri = elim (protocol_from c 3 parent_protocol uri) [
    | none ↦ panic
    | some result ↦ result
  ]
