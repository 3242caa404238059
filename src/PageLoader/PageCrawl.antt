-- ===== src/PageLoader/PageCrawl.antt =====
-- page_loader/src/commands/page_crawl_command.rs. A command is its URL, the raw text of the link
-- that led to it, and its depth; the shared task context is an argument.
pub mod Verdict
pub mod Race
pub mod Pages
pub mod Fetched
pub mod Outcomes
pub mod Labels
use tarantula.Base.{
  ℕ, Bool, true, false, ◌&&◌, ◌||◌, not, List, [], ◌∷◌, ◌++◌, Option, none, some, Outcome, done,
  panic, unwrap, if◌then◌else◌, leb, ltb, Text, codes, contains, mem,
}
use tarantula.Base.Io.{Io, ◌>>=◌, pure, lift, action}
use tarantula.Crates.{Crates}
use tarantula.Responses.Link.{Link}
use tarantula.Responses.StatusCode.{StatusCode}
use tarantula.Responses.HeadResponse.{HeadResponse, get_final_uri}
use tarantula.Responses.GetResponse.{GetResponse}
use tarantula.Responses.CrawlStatus.{
  CrawlStatus, connection_error, restricted_by_robots_txt, maximum_crawl_depth_reached,
}
use tarantula.Responses.ResponseTimings.{ResponseTimings}
use tarantula.Responses.PageResponse
use tarantula.Responses.PageResponse.{PageResponse}
use tarantula.DomParser.{UriResult, get_links}
use tarantula.PageLoader.HttpUtils.{lookup}
use tarantula.PageLoader.HttpClient.{HttpClient}
use tarantula.PageLoader.FetchHeader.{HeadResponseResult, head_ok, head_err, fetch_header}
use tarantula.PageLoader.PageDownload.{download_page}
use tarantula.PageLoader.PageRequest.{get_protocol, get_host}
use tarantula.PageLoader.TaskContext.{TaskContext, can_access}

pub data Crawlability : Type 0 where
  already_known : Crawlability
  already_tasked : Crawlability
  crawlable : Crawlability
  restricted_by_robots : Crawlability
  max_depth_reached : Crawlability

pub record PageCrawlCommand : Type 0 where
  pub url : Text
  pub raw_url : Text
  pub current_depth : ℕ
  pub uuid : ℕ

unfoldable pub verify_crawlability :
    (crates : Crates) → TaskContext crates → PageCrawlCommand → Crawlability
verify_crawlability crates c command =
    if ltb 0 c.task_config.maximum_depth && leb c.task_config.maximum_depth command.current_depth
    then max_depth_reached
    else if mem command.url c.all_crawled_links
    then already_known
    else if mem command.url c.all_tasked_links
    then already_tasked
    else if not (can_access crates c command.url)
    then restricted_by_robots
    else crawlable

abbrev has_text : Option Text → Text → Bool
has_text none pattern = false
has_text (some value) pattern = contains value pattern

unfoldable pub is_html : List (Text × Text) → Bool
is_html headers = has_text (lookup (codes "content-type") headers) (codes "text/html")

-- `StatusCode::from_u16` and `is_success`.
unfoldable pub is_success : ℕ → Outcome Bool
is_success code =
    if leb 100 code && ltb code 1000 then done (leb 200 code && ltb code 300) else panic

unfoldable pub should_download_page : List (Text × Text) → StatusCode → Outcome Bool
unfolding is_success is_html
should_download_page headers status_code = elim (is_success status_code.code) [
  | panic ↦ panic
  | done success ↦ done (
      (success || has_text (lookup (codes "x-cache") headers) (codes "cloudfront"))
      && is_html headers)
]

-- The first effect of `perform_crawl_internal` on the shared state.
unfoldable pub push_tasked_link : (crates : Crates) → TaskContext crates → Text → TaskContext crates
push_tasked_link crates c url = record c { all_tasked_links = c.all_tasked_links ++ url ∷ [] }

unfoldable pub links_of : Option UriResult → Option (List Link)
links_of none = none
links_of (some result) = some result.links

unfoldable pub with_end_time : ResponseTimings → ℕ → ResponseTimings
with_end_time timings end_time = record timings { end_time = some end_time }

unfoldable pub finish_page : PageResponse → ℕ → PageResponse
unfolding with_end_time
finish_page page end_time = record page {
  response_timings = with_end_time page.response_timings end_time;
}

-- The response for a URL that is not fetched.
unfoldable pub refused_page : PageCrawlCommand → ℕ → CrawlStatus → ℕ → ℕ → PageResponse
unfolding finish_page
refused_page command task_uuid status start_time end_time =
    finish_page
      (record (PageResponse.new start_time command.url command.raw_url task_uuid) {
        crawl_status = some status;
      })
      end_time

module _ {W : Type 0} (crates : Crates) (client : HttpClient W) (c : TaskContext crates) where
  unfoldable pub extract_links : Text → Text → Option Text → Io W (Option (List Link))
  unfolding links_of
  extract_links protocol host none = pure none
  extract_links protocol host (some body) = do
    now ← action client.now
    result ← lift (get_links crates c.link_type_checker protocol host now body)
    pure (links_of result)

  module _ (command : PageCrawlCommand) (robots_txt_info_url : Option Text) where
    unfoldable pub consume_page_download_response : PageResponse → GetResponse → Io W PageResponse
    unfolding extract_links
    consume_page_download_response page_response download_result =
        elim (is_html download_result.headers) [
          | false ↦ pure (record page_response { get = some download_result })
          | true ↦ do
            protocol ← lift (get_protocol crates command.url)
            host ← lift (get_host crates command.url)
            links ← extract_links protocol host download_result.body
            pure (record page_response { links = links; get = some download_result })
        ]

    unfoldable pub download_final : PageResponse → Text → Bool → Io W PageResponse
    unfolding consume_page_download_response
    download_final page_response final_uri should_download = elim should_download [
      | false ↦ pure page_response
      | true ↦ do
        download_result ← download_page crates client final_uri robots_txt_info_url
        consume_page_download_response page_response download_result
    ]

    unfoldable pub consume_fetch_header_response :
        PageResponse → HeadResponseResult → Io W PageResponse
    unfolding download_final
    consume_fetch_header_response page_response (head_err message) =
        pure (record page_response { crawl_status = some (connection_error message) })
    consume_fetch_header_response page_response (head_ok head) = do
      should_download ← lift (should_download_page head.headers head.http_response_code)
      download_final
          (record page_response {
            final_url_after_redirects = some (get_final_uri head);
            head = some head;
          })
          (get_final_uri head) should_download

    -- `perform_crawl_internal` after it has pushed the URL.
    unfoldable pub perform_crawl_internal : ℕ → Io W PageResponse
    unfolding consume_fetch_header_response finish_page
    perform_crawl_internal task_uuid = do
      start_time ← action client.now
      head ←
          fetch_header crates client c.link_type_checker command.url c.task_config.maximum_redirects
            robots_txt_info_url c.task_config.ignore_redirects
      page ←
          consume_fetch_header_response
            (PageResponse.new start_time command.url command.raw_url task_uuid) head
      end_time ← action client.now
      pure (finish_page page end_time)

    unfoldable pub refuse : ℕ → CrawlStatus → Io W (Option PageResponse)
    unfolding refused_page
    refuse task_uuid status = do
      start_time ← action client.now
      end_time ← action client.now
      pure (some (refused_page command task_uuid status start_time end_time))

    -- `crawl`, by the verdict of `verify_crawlability`.
    unfoldable pub crawl_as : Crawlability → ℕ → Io W (TaskContext crates × Option PageResponse)
    unfolding perform_crawl_internal refuse push_tasked_link
    crawl_as already_known task_uuid = pure (c, none)
    crawl_as already_tasked task_uuid = pure (c, none)
    crawl_as crawlable task_uuid = do
      page ← perform_crawl_internal task_uuid
      pure (push_tasked_link crates c command.url, some page)
    crawl_as restricted_by_robots task_uuid = do
      page ← refuse task_uuid restricted_by_robots_txt
      pure (c, page)
    crawl_as max_depth_reached task_uuid = do
      page ← refuse task_uuid maximum_crawl_depth_reached
      pure (c, page)

    unfoldable pub crawl : ℕ → Io W (TaskContext crates × Option PageResponse)
    unfolding crawl_as
    crawl task_uuid = crawl_as (verify_crawlability crates c command) task_uuid
