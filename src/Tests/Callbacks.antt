-- ===== src/Tests/Callbacks.antt =====
-- The callbacks of the server for a page and a completion.
use tarantula.Base.{
  Text, ◌⊎◌, inl, inr, contains, starts_with, subst, contains, arith, ◌≡◌, ◌≢◌, refl, ℕ, [], ◌∷◌,
  none, some, done, true, codes, List, panic,
}
use tarantula.Responses.ResponseTimings.{serialize}
use tarantula.Responses.RunConfig.{RunConfig}
use tarantula.PageLoader.HttpClient.{ok}
use tarantula.PageLoader.CrawlerEvent.{CrawlerEvent, page_event, complete_event}
use tarantula.Responses.PageResponse.{PageResponse}
use tarantula.Responses.ResponseTimings.{serialize}
use tarantula.Server.Http.Total.{IsPostable}
use tarantula.Server.Http.{
  serialize_head, serialize_get, CallbackClient, Post, process_events, page_to_string,
}
use tarantula.Server.Http.Callbacks.{expected, process_events-expected}
use tarantula.Server.Http.Payloads.{crawl-page_to_string}
use tarantula.Tests.Sample.{sample_crates, sample_client}
use tarantula.Tests.Tasks.{page_b, sample_task, command_b}
use tarantula.Tests.Crawls.{crawled}
use tarantula.Base.Io

abbrev pub callback_client : CallbackClient ℕ
callback_client = record {
  is_header_value = λ value. true;
  request = λ post w. (ok (record { status = 200; headers = []; body = none }), w);
}

abbrev pub config : RunConfig
config = record {
  url = page_b;
  ignore_redirects = none;
  maximum_redirects = none;
  maximum_depth = none;
  ignore_robots_txt = none;
  keep_html_in_memory = none;
  user_agent = some (codes "tarantula");
  robots_txt_info_url = none;
  callback_url = some (codes "http://localhost/page");
  callback_url_finished = some (codes "http://localhost/done");
  crawl_delay_ms = none;
}

abbrev finished_page : PageResponse
finished_page = record {
  original_requested_url = page_b;
  original_requested_url_raw = codes "/b";
  final_url_after_redirects = none;
  head = none;
  get = none;
  links = none;
  crawl_status = none;
  response_timings = record { name = []; start_time = some 1; end_time = some 2 };
  task_uuid = 7;
}

abbrev sample_events : List CrawlerEvent
sample_events = page_event finished_page ∷ complete_event 7 ∷ page_event finished_page ∷ []

posted :
    (posts : List Post) × (process_events sample_crates callback_client config sample_events 0
      ≡ done (posts, 0))
unfolding process_events Io.◌>>=◌ Io.lift serialize contains Io.action Io.pure
posted = (_, refl)

process_events-expected_example :
    posted.0 ≡ expected sample_crates callback_client config sample_events
process_events-expected_example =
    process_events-expected sample_crates callback_client config sample_events 0 0 posted.0 posted.1

crawl-page_to_string_example : page_to_string crawled.1 ≢ panic
crawl-page_to_string_example =
    crawl-page_to_string sample_crates sample_client sample_task crawled.0 command_b none 7 0
      crawled.2 crawled.1 (omega arith) crawled.3

pub config-IsPostable : IsPostable sample_crates callback_client config
unfolding contains starts_with
config-IsPostable = record {
  agent = codes "tarantula";
  has_agent = refl;
  valid = refl;
  parses = parses;
  answered = λ post w. (_, _, refl);
}
  where
    parses :
        (url : Text)
        → (config.callback_url ≡ some url) ⊎ (config.callback_url_finished ≡ some url)
        → sample_crates.parse_uri url ≢ none
    parses url (inl e) =
        let same : codes "http://localhost/page" ≡ url = cc in
        subst (λ u. sample_crates.parse_uri u ≢ none) same (λ p. cc)
    parses url (inr e) =
        let same : codes "http://localhost/done" ≡ url = cc in
        subst (λ u. sample_crates.parse_uri u ≢ none) same (λ p. cc)

finished_page-IsWritable : page_to_string finished_page ≢ panic
unfolding page_to_string serialize_head serialize_get serialize
finished_page-IsWritable = λ e. cc
