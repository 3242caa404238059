-- ===== src/Responses/Redirect.antt =====
-- responses/src/redirect.rs. Headers are an association list.
use tarantula.Base.{ℕ, List, [], ◌++◌, Text, codes}
use tarantula.Responses.StatusCode.{StatusCode}
use tarantula.Responses.ResponseTimings
use tarantula.Responses.ResponseTimings.{ResponseTimings}

pub record Redirect : Type 0 where
  pub source : Text
  pub destination : Text
  pub http_response_code : StatusCode
  pub headers : List (Text × Text)
  pub response_timings : ResponseTimings

unfoldable pub from : ℕ → Text → Text → Redirect
from now source destination = record {
  source = source;
  destination = destination;
  http_response_code = record { code = 200; label = codes "OK" };
  headers = [];
  response_timings = ResponseTimings.new now (codes "Redirects." ++ source);
}
