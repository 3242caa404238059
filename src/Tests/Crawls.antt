-- ===== src/Tests/Crawls.antt =====
-- Crawls: the page that a crawl returns, and the commands that a page with links leads to.
use tarantula.Tests.Sample.{
  nodes_of, answer, after_prefix, matches_literal, host_of, sample_crates, sample_client,
}
use tarantula.DomParser.{get_links, text_leb}
use tarantula.PageLoader.FetchHeader.{or_empty, fetch_header}
use tarantula.Responses.HeadResponse.{get_final_uri}
use tarantula.PageLoader.PageDownload.{download_page}
use tarantula.PageLoader.HttpUtils.{map_status_code, response_headers_to_map}
use tarantula.PageLoader.PageCrawl.{
  should_download_page, verify_crawlability, crawl, push_tasked_link,
}
use tarantula.PageLoader.Service.{
  send_all, send_links, push_new, prepare_load_command, loads_of, know_page, has_scope,
  dedup_texts_after, dedup_texts, dedup_after, add_links_to_known_list, Sent, dedup_links,
  is_followed, consume_crawl_result,
}
use tarantula.PageLoader.PageRequest.{get_uri, get_host, get_protocol}
use tarantula.LinkResult.UriService.{
  url_of_scope, try_autofix_invalid_url, to_uri, strip_protocol, push_parts, push_part,
  protocol_internal, prefix_uri_with_forward_slash, normalized, normalize_url, modified_parent_uri,
  leading_protocol, foreign_url, drop_first, create_uri_string, clean_query, squeeze, clean_slashes,
  pre_clean_uri, form_full_url,
}
use tarantula.LinkResult.LinkTypeChecker.{
  protocol_round, protocol_from, match_scope, get_uri_protocol, pattern_text, is_match,
  get_uri_scope,
}
use tarantula.Base.{
  starts_with, replace_from, replace, join, concat, ends_with, split, contains, text_eq, arith, ◌≡◌,
  refl, ℕ, [], ◌∷◌, List, none, some, done, true, Text, codes, mem, All,
}
use tarantula.Responses.Link.{Link}
use tarantula.Responses.UriScope.{UriScope}
use tarantula.Responses.PageResponse.{PageResponse}
use tarantula.PageLoader.CrawlerEvent.{page_event}
use tarantula.PageLoader.TaskContext.{can_access, TaskContext}
use tarantula.PageLoader.PageCrawl.Outcomes.{IsOutcome, crawl-IsOutcome}
use tarantula.PageLoader.Service.Allowed.{IsAllowed, consume_crawl_result-IsAllowed}
use tarantula.PageLoader.Service.Distinct.{IsDistinct, consume_crawl_result-IsDistinct}
use tarantula.Tests.Tasks.{sample_task, command_b, page_b}
use tarantula.PageLoader.HttpUtils
use tarantula.Base.Io
use tarantula.PageLoader.RobotsService
use tarantula.PageLoader.TaskContext

pub crawled :
    (d : TaskContext sample_crates) × (page : PageResponse) × (w : ℕ) × (crawl sample_crates
        sample_client sample_task command_b none 7 0
      ≡ done ((d, some page), w))
unfolding crawl verify_crawlability RobotsService.can_access TaskContext.can_access text_eq Io.◌>>=◌
    Io.action fetch_header Io.lift answer contains response_headers_to_map Io.pure
    should_download_page map_status_code HttpUtils.lookup download_page get_final_uri or_empty
    get_protocol get_host host_of split get_links nodes_of get_uri_scope is_match matches_literal
    after_prefix pattern_text get_uri_protocol
crawled = (_, _, _, refl)

crawl-IsOutcome_example :
    IsOutcome sample_crates sample_client sample_task command_b none 7
      (verify_crawlability sample_crates sample_task command_b)
      (crawled.0, some crawled.1)
crawl-IsOutcome_example =
    crawl-IsOutcome sample_crates sample_client sample_task command_b none 7 0 crawled.2
      (crawled.0, some crawled.1) (omega arith) crawled.3

abbrev inner : Text → Link
inner uri = record {
  uri = uri;
  scope = some UriScope.same_domain;
  protocol = none;
  source_tag = none;
}

abbrev sample_links : List Link
sample_links = inner (codes "/a") ∷ inner (codes "/c") ∷ inner (codes "/c") ∷ []

abbrev sample_page : PageResponse
sample_page = record {
  original_requested_url = page_b;
  original_requested_url_raw = codes "/b";
  final_url_after_redirects = none;
  head = none;
  get = none;
  links = some sample_links;
  crawl_status = none;
  response_timings = record { name = []; start_time = none; end_time = none };
  task_uuid = 7;
}

abbrev task_of_b : TaskContext sample_crates
task_of_b = push_tasked_link sample_crates sample_task command_b.url

consumed :
    (sent : Sent sample_crates) × (consume_crawl_result sample_crates task_of_b command_b true
        sample_page
      ≡ done sent)
unfolding send_all consume_crawl_result push_tasked_link get_protocol contains get_host host_of
    split form_full_url get_uri_scope text_eq pre_clean_uri clean_slashes squeeze ends_with is_match
    matches_literal after_prefix pattern_text concat join replace replace_from starts_with
    get_uri_protocol match_scope protocol_from protocol_round clean_query create_uri_string
    drop_first foreign_url leading_protocol modified_parent_uri normalize_url normalized
    prefix_uri_with_forward_slash protocol_internal push_part push_parts strip_protocol to_uri
    try_autofix_invalid_url url_of_scope get_uri add_links_to_known_list dedup_after dedup_links
    dedup_texts dedup_texts_after has_scope is_followed know_page loads_of prepare_load_command
    push_new send_links
consumed = (_, refl)

consume_crawl_result-IsAllowed_example :
    (mem page_b consumed.0.context.all_crawled_links ≡ true)
    × (consumed.0.events ≡ page_event sample_page ∷ [])
    × All (IsAllowed sample_crates consumed.0.context command_b sample_links) consumed.0.loads
consume_crawl_result-IsAllowed_example =
    consume_crawl_result-IsAllowed sample_crates task_of_b command_b true sample_page sample_links
      consumed.0 refl consumed.1

consume_crawl_result-IsDistinct_example : IsDistinct consumed.0.loads
unfolding text_leb
consume_crawl_result-IsDistinct_example =
    consume_crawl_result-IsDistinct sample_crates task_of_b command_b true sample_page sample_links
      consumed.0 refl ((refl, (refl, tt)), ((refl, tt), (tt, tt))) consumed.1
