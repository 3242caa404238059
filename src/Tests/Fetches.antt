-- ===== src/Tests/Fetches.antt =====
-- Requests: a redirect that is followed, one that is ignored, and what robots.txt says.
use tarantula.Tests.Sample.{
  reason_of, after_prefix, matches_literal, host_of, sample_crates, sample_client, answer,
}
use tarantula.LinkResult.LinkTypeChecker.{
  pattern_text, protocol_round, protocol_from, match_scope, get_uri_protocol, is_match,
  get_uri_scope,
}
use tarantula.Responses.ResponseTimings.{from}
use tarantula.PageLoader.HttpUtils.{
  to_lowercase, map_status_code, lookup_code, insert, collect_headers, build_status_codes, lookup,
  response_headers_to_map,
}
use tarantula.PageLoader.FetchHeader.{
  or_empty, num_redirects, next_uri, make_redirect, is_redirection, follow, finish, fetch_round,
  can_process_redirects, append_redirect, head_ok, fetch_header, fetch_from,
}
use tarantula.LinkResult.UriService.{
  url_of_scope, try_autofix_invalid_url, to_uri, strip_protocol, push_parts, push_part,
  protocol_internal, prefix_uri_with_forward_slash, normalized, normalize_url, modified_parent_uri,
  leading_protocol, foreign_url, drop_first, create_uri_string, clean_query, squeeze, clean_slashes,
  pre_clean_uri, form_full_url,
}
use tarantula.Base.{
  ◌⊎◌, ◌<◌, ◌≤◌, panic, starts_with, replace_from, replace, join, concat, ends_with, split, text_eq,
  contains, arith, ◌≡◌, ◌≢◌, refl, [], none, some, done, true, false, Text, codes,
}
use tarantula.Base.Io.{pure, lift, action, ◌>>=◌}
use tarantula.Responses.HeadResponse.{HeadResponse, get_final_uri}
use tarantula.PageLoader.FetchHeader.Chain.{IsSound}
use tarantula.PageLoader.FetchHeader.Sound.{fetch_header-total, fetch_header-IsSound}
use tarantula.PageLoader.HttpClient.{Response, ok}
use tarantula.PageLoader.RobotsService.{RobotsService}
use tarantula.PageLoader.RobotsService.Access.{init-can_access}
use tarantula.Tests.Links.{host, sample_checker}
use tarantula.PageLoader.RobotsService

abbrev old_page : Text
old_page = codes "https://example.com/old"

followed :
    (h : HeadResponse) × (fetch_header sample_crates sample_client
        (sample_checker host)
        old_page
        10
        none
        false
        0
      ≡ done (head_ok h, 4))
unfolding fetch_header ◌>>=◌ action lift answer contains response_headers_to_map lookup text_eq
    host_of split form_full_url get_uri_scope pre_clean_uri clean_slashes squeeze ends_with is_match
    pure concat join replace replace_from starts_with get_uri_protocol match_scope protocol_from
    protocol_round clean_query create_uri_string drop_first foreign_url leading_protocol
    modified_parent_uri normalize_url normalized prefix_uri_with_forward_slash protocol_internal
    push_part push_parts strip_protocol to_uri try_autofix_invalid_url url_of_scope append_redirect
    can_process_redirects fetch_from fetch_round finish follow is_redirection make_redirect next_uri
    num_redirects or_empty build_status_codes collect_headers insert lookup_code map_status_code
    to_lowercase from matches_literal after_prefix pattern_text reason_of
followed = (_, refl)

followed_to : get_final_uri followed.0 ≡ codes "https://example.com/new"
unfolding get_final_uri followed
followed_to = refl

ignored :
    (h : HeadResponse) × (fetch_header sample_crates sample_client
        (sample_checker host)
        old_page
        10
        none
        true
        0
      ≡ done (head_ok h, 2))
unfolding fetch_header ◌>>=◌ action lift answer contains response_headers_to_map pure
ignored = (_, refl)

fetch_header-IsSound_example :
    IsSound old_page 10 followed.0 × (get_final_uri followed.0 ≡ followed.0.requested_url)
fetch_header-IsSound_example =
    fetch_header-IsSound sample_crates sample_client (sample_checker host) old_page 10 none false 0
      4 followed.0 (omega arith) followed.1

fetch_header-total_example :
    fetch_from sample_crates sample_client (sample_checker host) old_page 10 none 11 false none 0
    ≢ done (none, 5)
fetch_header-total_example =
    fetch_header-total sample_crates sample_client (sample_checker host) old_page 10 none false 0 5
      (omega arith)

abbrev forbidden : Response
forbidden = record { status = 403; headers = []; body = none }

closed :
    (s : RobotsService sample_crates) × (RobotsService.init sample_crates
        (RobotsService.new sample_crates (codes "tarantula"))
        old_page
        (ok forbidden)
      ≡ done s)
unfolding RobotsService.init RobotsService.new
closed = (_, refl)

init-can_access_example :
    ((forbidden.status ≡ 401) ⊎ (forbidden.status ≡ 403)
      → RobotsService.can_access sample_crates closed.0 old_page ≡ false)
    × (400 ≤ forbidden.status
        → forbidden.status < 500
        → forbidden.status ≢ 401
        → forbidden.status ≢ 403
        → RobotsService.can_access sample_crates closed.0 old_page ≡ true)
    × ((body : Text)
        → forbidden.status ≡ 200
        → forbidden.body ≡ some body
        → RobotsService.can_access sample_crates closed.0 old_page
          ≡ sample_crates.one_agent_allowed_by_robots
              (sample_crates.parse_robots body)
              (codes "tarantula")
              old_page)
    × ((forbidden.status < 400) ⊎ (500 ≤ forbidden.status)
        → forbidden.status ≢ 200
        → RobotsService.can_access sample_crates closed.0 old_page
          ≡ sample_crates.one_agent_allowed_by_robots sample_crates.default_matcher
              (codes "tarantula")
              old_page)
    × (RobotsService.init sample_crates closed.0 old_page (ok forbidden) ≡ panic)
init-can_access_example =
    init-can_access sample_crates (codes "tarantula") old_page forbidden closed.0 closed.1 old_page
      (ok forbidden)
