-- ===== src/Responses/PageResponse.antt =====
-- responses/src/page_response.rs and complete_response.rs. A uuid is a number.
use tarantula.Base.{ℕ, List, ◌++◌, Option, none, Text, codes}
use tarantula.Responses.Link.{Link}
use tarantula.Responses.HeadResponse.{HeadResponse}
use tarantula.Responses.GetResponse.{GetResponse}
use tarantula.Responses.CrawlStatus.{CrawlStatus}
use tarantula.Responses.ResponseTimings
use tarantula.Responses.ResponseTimings.{ResponseTimings}

pub record PageResponse : Type 0 where
  pub original_requested_url : Text
  pub original_requested_url_raw : Text
  pub final_url_after_redirects : Option Text
  pub head : Option HeadResponse
  pub get : Option GetResponse
  pub links : Option (List Link)
  pub crawl_status : Option CrawlStatus
  pub response_timings : ResponseTimings
  pub task_uuid : ℕ

pub record CompleteResponse : Type 0 where
  pub uuid : ℕ

unfoldable pub new : ℕ → Text → Text → ℕ → PageResponse
new now original_requested_url original_requested_url_raw uuid = record {
  original_requested_url = original_requested_url;
  original_requested_url_raw = original_requested_url_raw;
  final_url_after_redirects = none;
  head = none;
  get = none;
  links = none;
  crawl_status = none;
  response_timings = ResponseTimings.new now (codes "PageResponse." ++ original_requested_url);
  task_uuid = uuid;
}
