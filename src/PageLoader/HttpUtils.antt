-- ===== src/PageLoader/HttpUtils.antt =====
-- page_loader/src/http/http_utils.rs.
pub mod Labels
use tarantula.Base.{
  ℕ, ◌+◌, List, [], ◌∷◌, map, Option, none, some, Bool, ◌&&◌, ◌||◌, Outcome, done, ◌>>=◌, unwrap,
  if◌then◌else◌, leb, ◌==◌, Text, codes, text_eq,
}
use tarantula.Crates.{Crates}
use tarantula.Responses.StatusCode.{StatusCode}

-- A hash map from texts, as an association list.
module _ {ℓ} {V : Type ℓ} where
  unfoldable pub lookup : Text → List (Text × V) → Option V
  lookup key [] = none
  lookup key ((k, v) ∷ entries) = if text_eq k key then some v else lookup key entries

  unfoldable pub insert : Text → V → List (Text × V) → List (Text × V)
  insert key value [] = (key, value) ∷ []
  insert key value ((k, v) ∷ entries) =
      if text_eq k key then (key, value) ∷ entries else (k, v) ∷ insert key value entries

-- `to_lowercase` of a header's name, which is ASCII.
unfoldable pub to_lowercase : Text → Text
to_lowercase = map (λ c. if leb b'A' c && leb c b'Z' then c + 32 else c)

-- Entries are collected in order, so that of two equal names the later one stays.
unfoldable pub collect_headers :
    List (Text × Option Text) → List (Text × Text) → Outcome (List (Text × Text))
unfolding insert to_lowercase
collect_headers [] entries = done entries
collect_headers ((key, value) ∷ headers) entries = do
  text ← unwrap value
  collect_headers headers (insert (to_lowercase key) text entries)

unfoldable pub response_headers_to_map : List (Text × Option Text) → Outcome (List (Text × Text))
unfolding collect_headers
response_headers_to_map headers = collect_headers headers []

unfoldable pub build_status_codes : List (ℕ × Text)
build_status_codes =
    (520, codes "[CLOUDFLARE] Web Server Returned an Unknown Error")
    ∷ (521, codes "[CLOUDFLARE] Web Server Is Down")
    ∷ (522, codes "[CLOUDFLARE] Connection Timed Out")
    ∷ (523, codes "[CLOUDFLARE] Origin Is Unreachable")
    ∷ (524, codes "[CLOUDFLARE] A Timeout Occurred")
    ∷ (525, codes "[CLOUDFLARE] SSL Handshake Failed")
    ∷ (526, codes "[CLOUDFLARE] Invalid SSL Certificate")
    ∷ (527, codes "[CLOUDFLARE] Railgun Error")
    ∷ []

unfoldable pub lookup_code : ℕ → List (ℕ × Text) → Option Text
lookup_code code [] = none
lookup_code code ((k, label) ∷ entries) = if k == code then some label else lookup_code code entries

abbrev or_else {ℓ} : {A : Type ℓ} → Option A → A → A
or_else none d = d
or_else (some a) d = a

-- `canonical_reason` is hyper's table of the official codes.
unfoldable pub map_status_code : (ℕ → Option Text) → ℕ → StatusCode
unfolding lookup_code build_status_codes
map_status_code canonical_reason code = record {
  code = code;
  label =
      or_else (canonical_reason code)
        (or_else (lookup_code code build_status_codes) (codes "Unknown Status Code"));
}
