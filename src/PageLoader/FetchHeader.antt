-- ===== src/PageLoader/FetchHeader.antt =====
-- page_loader/src/commands/fetch_header_command.rs: HEAD requests that follow redirects.
pub mod Chain
pub mod Sound
pub mod Ignore
use tarantula.Base.{
  ℕ, zero, suc, ◌+◌, ◌%◌, Bool, true, false, ◌&&◌, not, List, [], ◌∷◌, ◌++◌, Option, none, some,
  Outcome, done, panic, unwrap, if◌then◌else◌, ltb, leb, length, last, Text, codes,
}
use tarantula.Base.Io.{Io, ◌>>=◌, pure, lift, action}
use tarantula.Crates.{Crates}
use tarantula.Responses.StatusCode.{StatusCode}
use tarantula.Responses.Redirect.{Redirect}
use tarantula.Responses.HeadResponse.{HeadResponse}
use tarantula.Responses.ResponseTimings
use tarantula.LinkResult.LinkTypeChecker.{LinkTypeChecker}
use tarantula.LinkResult.UriService.{form_full_url}
use tarantula.PageLoader.HttpUtils.{lookup, response_headers_to_map, map_status_code}
use tarantula.PageLoader.HttpClient.{HttpClient, Response, HttpResult, ok, err}

-- `HeadResponseResult`; the client that the source returns with it is the one it was given.
pub data HeadResponseResult : Type 0 where
  head_ok : HeadResponse → HeadResponseResult
  head_err : Text → HeadResponseResult

-- `StatusCode::is_redirection`.
unfoldable pub is_redirection : ℕ → Bool
is_redirection status = leb 300 status && ltb status 400

-- `redirects.len() as u8`.
unfoldable pub num_redirects : Option (List Redirect) → ℕ
num_redirects none = 0
num_redirects (some redirects) = length redirects % 256

-- The address of the next request.
unfoldable pub next_uri : Text → Option (List Redirect) → Outcome Text
next_uri url none = done url
next_uri url (some redirects) = elim (last redirects) [
  | none ↦ panic
  | some redirect ↦ done redirect.destination
]

unfoldable pub or_empty : Option (List Redirect) → List Redirect
or_empty none = []
or_empty (some redirects) = redirects

unfoldable pub can_process_redirects : Bool → Option (List Redirect) → ℕ → ℕ → Bool
unfolding num_redirects is_redirection
can_process_redirects ignore_redirects redirects maximum_redirects status =
    not ignore_redirects && ltb (num_redirects redirects) maximum_redirects && is_redirection status

module _ {W : Type 0} (crates : Crates) (client : HttpClient W)
    (checker : LinkTypeChecker crates.Regex) where
  open crates use {parse_uri, scheme_str, host, uri_to_string, canonical_reason}

  -- The redirect that `append_redirect` adds, with the address that it leads to.
  unfoldable pub make_redirect :
      Text → Response → List (Text × Text) → Option Text → ℕ → Io W Redirect
  make_redirect uri response headers location_header start_time = do
    uri_object ← lift (unwrap (parse_uri uri))
    scheme ← lift (unwrap (scheme_str uri_object))
    location ← lift (unwrap location_header)
    host_name ← lift (unwrap (host uri_object))
    adjusted_uri ← lift (form_full_url crates checker scheme location host_name (some uri))
    label ← lift (unwrap (canonical_reason response.status))
    end_time ← action client.now
    pure (record {
      source = uri;
      destination = uri_to_string adjusted_uri;
      http_response_code = record { code = response.status; label = label };
      headers = headers;
      response_timings = ResponseTimings.from (codes "Redirect." ++ uri) start_time end_time;
    })

  unfoldable pub append_redirect :
      Option (List Redirect)
      → Text
      → Response
      → List (Text × Text)
      → Option Text
      → ℕ
      → Io W (List Redirect)
  unfolding make_redirect
  append_redirect redirects uri response headers location_header start_time = do
    redirect ← make_redirect uri response headers location_header start_time
    pure (or_empty redirects ++ redirect ∷ [])

  -- The result when no redirect is followed.
  unfoldable pub finish :
      Option (List Redirect)
      → Text
      → Response
      → List (Text × Text)
      → ℕ
      → Io W (Option HeadResponseResult)
  finish redirects uri response headers start_time = do
    end_time ← action client.now
    pure (
        some (
          head_ok (record {
            requested_url = uri;
            redirects = or_empty redirects;
            http_response_code = map_status_code canonical_reason response.status;
            headers = headers;
            response_timings =
                ResponseTimings.from (codes "HeadResponse." ++ uri) start_time end_time;
          })))

  module _ (url : Text) (maximum_redirects : ℕ) (robots_txt_info_url : Option Text) where
    -- What follows a response: another round with one more redirect, or the result.
    unfoldable pub follow :
        (List Redirect → Io W (Option HeadResponseResult))
        → Bool
        → Option (List Redirect)
        → Text
        → ℕ
        → Response
        → Io W (Option HeadResponseResult)
    unfolding append_redirect finish can_process_redirects
    follow again ignore_redirects redirects uri start_time response = do
      headers ← lift (response_headers_to_map response.headers)
      elim (can_process_redirects ignore_redirects redirects maximum_redirects response.status) [
        | false ↦ finish redirects uri response headers start_time
        | true ↦ elim (lookup (codes "location") response.headers) [
          | none ↦ finish redirects uri response headers start_time
          | some location_header ↦ do
            redirects_for_next ←
                append_redirect redirects uri response headers location_header start_time
            again redirects_for_next
        ]
      ]

    -- One call of `fetch_header`, over the recursive call.
    unfoldable pub fetch_round :
        (List Redirect → Io W (Option HeadResponseResult))
        → Bool
        → Option (List Redirect)
        → Io W (Option HeadResponseResult)
    unfolding follow next_uri
    fetch_round again ignore_redirects redirects = do
      start_time ← action client.now
      uri ← lift (next_uri url redirects)
      result ← action (client.head uri robots_txt_info_url)
      elim result [
        | err message ↦ pure (some (head_err message))
        | ok response ↦ follow again ignore_redirects redirects uri start_time response
      ]

    -- The recursion on fuel; `none` means that the fuel ran out. The recursive call passes `false`
    -- for `ignore_redirects`.
    unfoldable pub fetch_from : ℕ → Bool → Option (List Redirect) → Io W (Option HeadResponseResult)
    unfolding fetch_round
    fetch_from zero ignore_redirects redirects = pure none
    fetch_from (suc fuel) ignore_redirects redirects =
        fetch_round (λ next. fetch_from fuel false (some next)) ignore_redirects redirects

    -- The call of `page_crawl_command.rs`, with no redirects yet. The fuel is enough:
    -- `fetch_header-total` of the child module Sound.
    unfoldable pub fetch_header : Bool → Io W HeadResponseResult
    unfolding fetch_from
    fetch_header ignore_redirects = do
      result ← fetch_from (suc maximum_redirects) ignore_redirects none
      lift (unwrap result)
