-- ===== src/LinkResult/UriService.antt =====
-- linkresult/src/uri_service.rs.
pub mod Slashes
pub mod Dots
pub mod Host
use tarantula.Base.{
  ℕ, zero, suc, true, false, ◌&&◌, ◌||◌, not, List, [], ◌∷◌, ◌++◌, Option, none, some, Outcome,
  done, ◌>>=◌, unwrap, if◌then◌else◌, length, pop, Text, codes, text_eq, starts_with, ends_with,
  contains, replace, split, join, concat,
}
use tarantula.Crates.{Crates}
use tarantula.Responses.UriScope.{UriScope}
use tarantula.Responses.UriProtocol.{UriProtocol}
use tarantula.LinkResult.LinkTypeChecker
use tarantula.LinkResult.LinkTypeChecker.{LinkTypeChecker}

unfoldable pub prefix_uri_with_forward_slash : Text → Text
prefix_uri_with_forward_slash uri =
    if starts_with uri (codes "/")
      || starts_with uri (codes "http://")
      || starts_with uri (codes "https://")
    then uri
    else codes "/" ++ uri

unfoldable pub create_uri_string : Text → Text → Text → Text
create_uri_string protocol host link =
    if starts_with link (codes "http") then link else protocol ++ codes "://" ++ host ++ link

-- `while cleaned_uri.contains("//")`, on fuel. Each round makes the text shorter, so its length is
-- enough fuel.
unfoldable pub squeeze : ℕ → Text → Text
squeeze zero s = s
squeeze (suc fuel) s = elim (contains s (codes "//")) [
  | true ↦ squeeze fuel (replace s (codes "//") (codes "/"))
  | false ↦ s
]

-- The protocol that `pre_clean_uri` takes off the front.
unfoldable pub leading_protocol : Text → Text
leading_protocol s =
    if starts_with s (codes "http://")
    then codes "http://"
    else if starts_with s (codes "https://")
    then codes "https://"
    else if starts_with s (codes "//")
    then codes "//"
    else []

-- `replace(protocol, "")` takes off every occurrence, not only the first one.
unfoldable pub strip_protocol : Text → Text → Text
strip_protocol [] s = s
strip_protocol (c ∷ protocol) s = replace s (c ∷ protocol) []

unfoldable pub drop_first : Text → Text
drop_first [] = []
drop_first (c ∷ s) = s

-- What `pre_clean_uri` does after it has dealt with a query.
unfoldable pub clean_slashes : Text → Text → Text
unfolding leading_protocol strip_protocol drop_first
clean_slashes host uri =
    let protocol = leading_protocol uri in
    let stripped = strip_protocol protocol uri in
    let squeezed = squeeze (length stripped) stripped in
    protocol
    ++ (if starts_with squeezed (codes "/")
          && (ends_with host (codes "/") || text_eq protocol (codes "//"))
        then drop_first squeezed
        else squeezed)

-- `parts.first()` is there, since a split has at least one part; it holds no "?", so that the
-- source's recursive call on it is `clean_slashes`.
unfoldable pub clean_query : (Text → Text) → Text → List Text → Text
clean_query encode host [] = []
clean_query encode host (front ∷ rest) =
    clean_slashes host front
    ++ codes "?"
    ++ replace (encode (concat rest)) (codes "%3D") (codes "=")

unfoldable pub pre_clean_uri : (Text → Text) → Text → Text → Text
unfolding clean_query
pre_clean_uri encode host uri =
    clean_slashes host
      (if contains uri (codes "?") then clean_query encode host (split b'?' uri) else uri)

-- One round of the loop of `normalize_url`.
unfoldable pub push_part : List Text → Text → List Text
push_part parts_out current =
    if not (text_eq current (codes "..")) then parts_out ++ current ∷ [] else pop parts_out

unfoldable pub push_parts : List Text → List Text → List Text
unfolding push_part
push_parts parts_out [] = parts_out
push_parts parts_out (current ∷ parts) = push_parts (push_part parts_out current) parts

unfoldable pub modified_parent_uri : Option Text → Text
modified_parent_uri none = []
modified_parent_uri (some parent) =
    if not (ends_with parent (codes "/")) then parent ++ codes "/" else parent

unfoldable pub normalize_url : Text → Option Text → Text
unfolding push_parts modified_parent_uri
normalize_url uri parent_uri =
    if not (contains uri (codes "../"))
    then uri
    else join b'/' (push_parts [] (split b'/' (modified_parent_uri parent_uri ++ uri)))

unfoldable pub protocol_internal : Text → Text → Text
protocol_internal protocol pre_cleaned_uri =
    if starts_with pre_cleaned_uri (codes "https://")
    then codes "https"
    else if starts_with pre_cleaned_uri (codes "http://")
    then codes "http"
    else protocol

-- The text that `do_normalize` makes a URI of.
unfoldable pub normalized : Text → Text → Option Text → Text → Text
normalized protocol host parent_uri uri =
    create_uri_string protocol host (prefix_uri_with_forward_slash (normalize_url uri parent_uri))

module _ (crates : Crates) where
  open crates use {Uri, parse_uri, Regex, encode}

  unfoldable pub try_autofix_invalid_url : Text → Outcome Uri
  try_autofix_invalid_url uri = unwrap (
      parse_uri
        (replace (replace (encode uri) (codes "%3A") (codes ":")) (codes "%2F") (codes "/")))

  unfoldable pub to_uri : Text → Outcome Uri
  unfolding try_autofix_invalid_url
  to_uri input = elim (parse_uri input) [
    | some parsed_uri ↦ done parsed_uri
    | none ↦ try_autofix_invalid_url input
  ]

  -- The arm for the scopes that are neither of this host nor an anchor.
  unfoldable pub foreign_url : LinkTypeChecker Regex → Text → Text → Text → Outcome Uri
  unfolding to_uri
  foreign_url checker protocol internal uri = do
    uri_protocol ← LinkTypeChecker.get_uri_protocol crates checker protocol uri
    elim uri_protocol [
      | some UriProtocol.implicit ↦ unwrap (parse_uri (internal ++ codes ":" ++ uri))
      | _ ↦ to_uri uri
    ]

  -- The match on the scope of the cleaned URI.
  unfoldable pub url_of_scope :
      LinkTypeChecker Regex → Text → Text → Text → Option Text → Option UriScope → Outcome Uri
  unfolding to_uri normalized foreign_url
  url_of_scope checker protocol uri host parent_uri none = to_uri uri
  url_of_scope checker protocol uri host parent_uri (some UriScope.root) =
      to_uri (create_uri_string (protocol_internal protocol uri) host (codes "/"))
  url_of_scope checker protocol uri host parent_uri (some UriScope.same_domain) =
      to_uri (normalized (protocol_internal protocol uri) host parent_uri uri)
  url_of_scope checker protocol uri host parent_uri (some UriScope.anchor) =
      to_uri (normalized (protocol_internal protocol uri) host parent_uri uri)
  url_of_scope checker protocol uri host parent_uri (some _) =
      foreign_url checker protocol (protocol_internal protocol uri) uri

  unfoldable pub form_full_url :
      LinkTypeChecker Regex → Text → Text → Text → Option Text → Outcome Uri
  unfolding url_of_scope
  form_full_url checker protocol uri host parent_uri = do
    let cleaned = pre_clean_uri encode host uri
    scope ← LinkTypeChecker.get_uri_scope crates checker host cleaned
    url_of_scope checker protocol cleaned host parent_uri scope
