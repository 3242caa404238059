-- ===== src/Tests/Sample.antt =====
-- Third-party code for the tests: simple functions that do what the properties' hypotheses say.
use tarantula.Base.{
  ℕ, suc, Bool, ◌&&◌, ◌||◌, not, List, [], ◌∷◌, ◌++◌, Option, none, some, if◌then◌else◌, ◌==◌, Text,
  codes, text_eq, starts_with, contains, split,
}
use tarantula.Crates.{Crates}
use tarantula.PageLoader.HttpClient.{HttpClient, HttpResult, ok, err}

-- What follows a prefix.
unfoldable pub after_prefix : Text → Text → Option Text
after_prefix [] s = some s
after_prefix (c ∷ prefix) [] = none
after_prefix (c ∷ prefix) (d ∷ s) =
    let rest = after_prefix prefix s in if c == d then rest else none

-- A pattern for a literal text after a scheme, and two other patterns of the link checker; no other
-- pattern matches.
unfoldable pub matches_literal : Option Text → Text → Text → Bool
matches_literal (some t) pattern uri =
    starts_with uri (codes "http://" ++ t) || starts_with uri (codes "https://" ++ t)
matches_literal none pattern uri =
    if text_eq pattern (codes "^/?#")
    then starts_with uri (codes "#") || starts_with uri (codes "/#")
    else text_eq pattern (codes "^(?![a-zA-Z]+://)(?:/?(?:[^#].+))$")
      && not (starts_with uri (codes "https://"))
      && not (starts_with uri (codes "http://"))

unfoldable pub host_of : List Text → Option Text
host_of (scheme ∷ [] ∷ host ∷ rest) = some host
host_of _ = none

unfoldable pub reason_of : ℕ → Option Text
reason_of code =
    if code == 200
    then some (codes "OK")
    else if code == 301
    then some (codes "Moved Permanently")
    else none

abbrev pub Node : Type 0
Node = List (Text × Text)

unfoldable pub nodes_of : Text → List (Option Node)
nodes_of body =
    if contains body (codes "<a")
    then some ((codes "href", codes " /b ") ∷ [])
      ∷ none
      ∷ some ((codes "src", codes "/a") ∷ [])
      ∷ []
    else []

abbrev pub sample_crates : Crates
sample_crates = record {
  Regex = Text;
  escape = λ t. t;
  compile = λ t. some t;
  is_match = λ r uri. some (matches_literal (after_prefix (codes "^https?://") r) r uri);
  Uri = Text;
  parse_uri = λ t. if contains t (codes " ") then none else some t;
  uri_to_string = λ t. t;
  scheme_str = λ t.
      if starts_with t (codes "https:")
      then some (codes "https")
      else if starts_with t (codes "http:")
      then some (codes "http")
      else none;
  host = λ t. host_of (split b'/' t);
  canonical_reason = reason_of;
  encode = λ t. t;
  Element = Node;
  parse_document = nodes_of;
  attrs = λ element. element;
  debug_element = λ element. codes "<a>";
  Matcher = Text;
  default_matcher = [];
  parse_robots = λ t. t;
  one_agent_allowed_by_robots =
      λ matcher agent uri. text_eq matcher [] || not (contains uri matcher);
}

abbrev pub html : List (Text × Option Text)
html = (codes "content-type", some (codes "text/html")) ∷ []

unfoldable pub answer : Text → HttpResult
answer uri =
    if contains uri (codes "/old")
    then ok (record {
      status = 301;
      headers = (codes "location", some (codes "/new")) ∷ [];
      body = none;
    })
    else if contains uri (codes "/down")
    then err (codes "refused")
    else ok (record { status = 200; headers = html; body = some (codes "<a href>") })

-- The world is the clock.
abbrev pub sample_client : HttpClient ℕ
sample_client = record {
  now = λ w. (w, suc w);
  head = λ uri info w. (answer uri, w);
  get = λ uri info w. (answer uri, w);
}
