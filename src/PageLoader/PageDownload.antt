-- ===== src/PageLoader/PageDownload.antt =====
-- page_loader/src/commands/page_download_command.rs.
use tarantula.Base.{Option, some, Outcome, panic, done, unwrap, Text}
use tarantula.Base.Io.{Io, ◌>>=◌, pure, lift, action}
use tarantula.Crates.{Crates}
use tarantula.Responses.GetResponse.{GetResponse}
use tarantula.Responses.ResponseTimings
use tarantula.PageLoader.HttpUtils.{response_headers_to_map, map_status_code}
use tarantula.PageLoader.HttpClient.{HttpClient, Response, HttpResult, ok, err}

-- `http_client.get(…).await.unwrap()`: an error of the connection is a panic.
unfoldable pub unwrap_response : HttpResult → Outcome Response
unwrap_response (ok response) = done response
unwrap_response (err message) = panic

-- The source returns a `Result`, of which it only ever makes `Ok`.
unfoldable pub download_page :
    {W : Type 0} → Crates → HttpClient W → Text → Option Text → Io W GetResponse
unfolding unwrap_response
download_page crates client uri robots_txt_info_url = do
  start_time ← action client.now
  result ← action (client.get uri robots_txt_info_url)
  response ← lift (unwrap_response result)
  headers ← lift (response_headers_to_map response.headers)
  body ← lift (unwrap response.body)
  end_time ← action client.now
  pure (record {
    requested_url = uri;
    http_response_code = map_status_code crates.canonical_reason response.status;
    headers = headers;
    body = some body;
    response_timings = ResponseTimings.from uri start_time end_time;
  })
