-- ===== src/PageLoader/PageCrawl/Labels.antt =====
-- The task and the URL that a page of page_crawl_command.rs is for, whatever its URL leads to.
use tarantula.Base.{ℕ, ◌≡◌, refl, true, false, Bool, Option, none, some, Text}
use tarantula.Base.Io.{Ensures, Ensures-then, Ensures->>=, Ensures-pure, Ensures-test}
use tarantula.Crates.{Crates}
use tarantula.Responses.CrawlStatus.{CrawlStatus}
use tarantula.Responses.GetResponse.{GetResponse}
use tarantula.Responses.PageResponse
use tarantula.Responses.PageResponse.{PageResponse}
use tarantula.PageLoader.FetchHeader.{HeadResponseResult, head_ok, head_err}
use tarantula.PageLoader.HttpClient.{HttpClient}
use tarantula.PageLoader.TaskContext.{TaskContext}
use tarantula.PageLoader.PageCrawl.{
  Crawlability, already_known, already_tasked, crawlable, restricted_by_robots, max_depth_reached,
  PageCrawlCommand, crawl_as, refuse, refused_page, finish_page, perform_crawl_internal,
  consume_fetch_header_response, download_final, consume_page_download_response, is_html,
}

module _ {W : Type 0} (crates : Crates) (client : HttpClient W) (c : TaskContext crates)
    (command : PageCrawlCommand) (info : Option Text) (task_uuid : ℕ) where
  abbrev pub IsLabelled : PageResponse → Type 0
  IsLabelled page = (page.task_uuid ≡ task_uuid) × (page.original_requested_url ≡ command.url)

  consume_page-IsLabelled :
      (page : PageResponse) (get : GetResponse)
      → IsLabelled page
      → Ensures IsLabelled (consume_page_download_response crates client c command info page get)
  unfolding consume_page_download_response
  consume_page-IsLabelled page get h =
      Ensures-test (is_html get.headers) (λ _. Ensures-pure _ h)
        λ _.
          Ensures-then _ λ protocol. Ensures-then _ λ host. Ensures-then _ λ links. Ensures-pure _ h

  download_final-IsLabelled :
      (page : PageResponse) (final_uri : Text) (should_download : Bool)
      → IsLabelled page
      → Ensures IsLabelled
          (download_final crates client c command info page final_uri should_download)
  unfolding download_final
  download_final-IsLabelled page final_uri false h = Ensures-pure _ h
  download_final-IsLabelled page final_uri true h =
      Ensures-then _ λ get. consume_page-IsLabelled page get h

  consume_head-IsLabelled :
      (page : PageResponse) (head : HeadResponseResult)
      → IsLabelled page
      → Ensures IsLabelled (consume_fetch_header_response crates client c command info page head)
  unfolding consume_fetch_header_response
  consume_head-IsLabelled page (head_err message) h = Ensures-pure _ h
  consume_head-IsLabelled page (head_ok head) h =
      Ensures-then _ λ should_download. download_final-IsLabelled _ _ should_download h

  pub perform_crawl-IsLabelled :
      Ensures IsLabelled (perform_crawl_internal crates client c command info task_uuid)
  unfolding perform_crawl_internal finish_page PageResponse.new
  perform_crawl-IsLabelled = Ensures-then _ λ start_time. Ensures-then _ λ head.
      Ensures->>= _ (consume_head-IsLabelled _ head (refl, refl))
        λ page label. Ensures-then _ λ end_time. Ensures-pure _ label

  abbrev pub IsLabelledIn : Option PageResponse → Type 0
  IsLabelledIn none = Unit {0}
  IsLabelledIn (some page) = IsLabelled page

  refuse-IsLabelled :
      (status : CrawlStatus)
      → Ensures IsLabelledIn (refuse crates client c command info task_uuid status)
  unfolding refuse refused_page finish_page PageResponse.new
  refuse-IsLabelled status =
      Ensures-then _ λ start_time. Ensures-then _ λ end_time. Ensures-pure _ (refl, refl)

  pub crawl_as-IsLabelled :
      (verdict : Crawlability)
      → Ensures
          (λ (d, page). IsLabelledIn page)
          (crawl_as crates client c command info verdict task_uuid)
  unfolding crawl_as
  crawl_as-IsLabelled already_known = Ensures-pure _ tt
  crawl_as-IsLabelled already_tasked = Ensures-pure _ tt
  crawl_as-IsLabelled crawlable =
      Ensures->>= _ perform_crawl-IsLabelled λ page label. Ensures-pure _ label
  crawl_as-IsLabelled restricted_by_robots =
      Ensures->>= _ (refuse-IsLabelled _) λ page label. Ensures-pure _ label
  crawl_as-IsLabelled max_depth_reached =
      Ensures->>= _ (refuse-IsLabelled _) λ page label. Ensures-pure _ label
