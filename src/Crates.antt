-- ===== src/Crates.antt =====
-- What the program takes from third-party crates, as parameters of the model: fancy_regex, hyper's
-- `Uri` and status codes, urlencoding, scraper's HTML tree and the robots.txt matcher.
use tarantula.Base.{ℕ, Bool, List, Option, Text}

pub record Crates : Type 1 where
  -- fancy_regex: `Regex::new` may refuse a pattern, and `is_match` may give up.
  pub Regex : Type 0
  pub escape : Text → Text
  pub compile : Text → Option Regex
  pub is_match : Regex → Text → Option Bool
  -- hyper: `none` is a text that is no URI, or a part that a URI lacks.
  pub Uri : Type 0
  pub parse_uri : Text → Option Uri
  pub uri_to_string : Uri → Text
  pub scheme_str : Uri → Option Text
  pub host : Uri → Option Text
  pub canonical_reason : ℕ → Option Text
  -- urlencoding.
  pub encode : Text → Text
  -- scraper: the nodes of a document in document order, `none` for a node that is no element.
  pub Element : Type 0
  pub parse_document : Text → List (Option Element)
  pub attrs : Element → List (Text × Text)
  pub debug_element : Element → Text
  -- robotstxt_with_cache: a matcher that has parsed nothing, one that has parsed a file, and
  -- whether a user agent may fetch a URI.
  pub Matcher : Type 0
  pub default_matcher : Matcher
  pub parse_robots : Text → Matcher
  pub one_agent_allowed_by_robots : Matcher → Text → Text → Bool
