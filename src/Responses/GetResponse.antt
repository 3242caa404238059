-- ===== src/Responses/GetResponse.antt =====
-- responses/src/get_response.rs.
use tarantula.Base.{ℕ, List, [], ◌++◌, Option, none, Text, codes}
use tarantula.Responses.StatusCode.{StatusCode}
use tarantula.Responses.ResponseTimings
use tarantula.Responses.ResponseTimings.{ResponseTimings}

pub record GetResponse : Type 0 where
  pub requested_url : Text
  pub http_response_code : StatusCode
  pub headers : List (Text × Text)
  pub body : Option Text
  pub response_timings : ResponseTimings

unfoldable pub new : ℕ → Text → StatusCode → GetResponse
new now requested_url http_response_code = record {
  requested_url = requested_url;
  http_response_code = http_response_code;
  headers = [];
  body = none;
  response_timings = ResponseTimings.new now (codes "GETResponse." ++ requested_url);
}
