-- ===== src/Responses/HeadResponse.antt =====
-- responses/src/head_response.rs.
use tarantula.Base.{ℕ, List, [], ◌++◌, none, some, Text, codes, last}
use tarantula.Responses.StatusCode.{StatusCode}
use tarantula.Responses.Redirect.{Redirect}
use tarantula.Responses.ResponseTimings
use tarantula.Responses.ResponseTimings.{ResponseTimings}

pub record HeadResponse : Type 0 where
  pub requested_url : Text
  pub redirects : List Redirect
  pub http_response_code : StatusCode
  pub headers : List (Text × Text)
  pub response_timings : ResponseTimings

unfoldable pub new : ℕ → Text → StatusCode → HeadResponse
new now requested_url http_response_code = record {
  requested_url = requested_url;
  redirects = [];
  http_response_code = http_response_code;
  headers = [];
  response_timings = ResponseTimings.new now (codes "HEADResponse." ++ requested_url);
}

-- `last` is `none` exactly on the empty list, which the source tests first.
unfoldable pub get_final_uri : HeadResponse → Text
get_final_uri r = elim (last r.redirects) [
  | none ↦ r.requested_url
  | some redirect ↦ redirect.destination
]
