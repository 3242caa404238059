-- ===== src/PageLoader/PageCrawl/Outcomes.antt =====
-- The page that `crawl` of page_crawl_command.rs returns.
use tarantula.Base.{ℕ, ◌<◌, ◌≡◌, ◌≢◌, refl, Option, none, some, done, arith, Text}
use tarantula.Base.Io.{Ensures, Ensures-both, Ensures-then, Ensures->>=, Ensures-pure}
use tarantula.Crates.{Crates}
use tarantula.Responses.CrawlStatus.{CrawlStatus}
use tarantula.Responses.PageResponse
use tarantula.Responses.PageResponse.{PageResponse}
use tarantula.Responses.ResponseTimings
use tarantula.Responses.ResponseTimings.{ResponseTimings, serialize}
use tarantula.PageLoader.HttpClient.{HttpClient}
use tarantula.PageLoader.FetchHeader.Chain.{IsTimed}
use tarantula.PageLoader.FetchHeader.Sound.{whole-Ensures}
use tarantula.PageLoader.TaskContext.{TaskContext}
use tarantula.PageLoader.PageCrawl.{
  maximum_crawl_depth_reached, verify_crawlability, crawl, restricted_by_robots_txt, Crawlability,
  already_known, already_tasked, crawlable, restricted_by_robots, max_depth_reached,
  PageCrawlCommand, crawl_as, refuse, perform_crawl_internal, finish_page, with_end_time,
  push_tasked_link, refused_page,
}
use tarantula.PageLoader.PageCrawl.Fetched.{IsFetched, perform_crawl-IsFetched}
use tarantula.PageLoader.PageCrawl.Pages.{
  IsSoundBody, IsSoundPage, consume_head-Ensures, new-IsStarted,
}

module _ {W : Type 0} (crates : Crates) (client : HttpClient W) (c : TaskContext crates)
    (command : PageCrawlCommand) (info : Option Text) (task_uuid : ℕ) where
  abbrev maximum : ℕ
  maximum = c.task_config.maximum_redirects

  IsTimed-with_end_time :
      (t : ResponseTimings) (end_time : ℕ)
      → t.start_time ≢ none
      → IsTimed (with_end_time t end_time)
  unfolding serialize with_end_time
  IsTimed-with_end_time t end_time h = ground arith

  finish_page-IsSound :
      (p : PageResponse) (end_time : ℕ)
      → IsSoundBody command task_uuid maximum p
      → IsSoundPage command task_uuid maximum (finish_page p end_time)
  unfolding finish_page with_end_time
  finish_page-IsSound p end_time b = record {
    body = record {
      url = b.url;
      raw_url = b.raw_url;
      task = b.task;
      started = b.started;
      head = b.head;
      get = b.get;
      links = b.links;
      status = b.status;
    };
    timed = IsTimed-with_end_time p.response_timings end_time b.started;
  }

  pub perform_crawl-Ensures :
      maximum < 256
      → Ensures
          (IsSoundPage command task_uuid maximum)
          (perform_crawl_internal crates client c command info task_uuid)
  unfolding perform_crawl_internal
  perform_crawl-Ensures small = Ensures-then _ λ start_time.
      Ensures->>= _
        (whole-Ensures crates client c.link_type_checker command.url maximum small info
          c.task_config.ignore_redirects)
        λ head sound.
          Ensures->>= _
            (consume_head-Ensures crates client c command info task_uuid _ head
              (new-IsStarted crates client c command info task_uuid start_time) sound)
            λ p body.
              Ensures-then _ λ end_time. Ensures-pure _ (finish_page-IsSound p end_time body)

  refused-IsSoundBody :
      (now : ℕ) (status : CrawlStatus)
      → IsSoundBody command task_uuid maximum
          (record (PageResponse.new now command.url command.raw_url task_uuid) {
            crawl_status = some status;
          })
  unfolding PageResponse.new ResponseTimings.new
  refused-IsSoundBody now status = record {
    url = refl;
    raw_url = refl;
    task = refl;
    started = λ e. cc;
    head = tt;
    get = tt;
    links = tt;
    status = λ e. (refl, refl);
  }

  refuse-Ensures :
      (status : CrawlStatus)
      → Ensures
          (λ (o : Option PageResponse).
            (p : PageResponse) × (o ≡ some p)
            × IsSoundPage command task_uuid maximum p
            × (p.crawl_status ≡ some status))
          (refuse crates client c command info task_uuid status)
  unfolding refuse refused_page
  refuse-Ensures status = Ensures-then _ λ start_time. Ensures-then _ λ end_time.
      Ensures-pure _
        (_, refl, finish_page-IsSound _ end_time (refused-IsSoundBody start_time status), refl)

  -- What a crawl leaves and returns, by its verdict.
  abbrev pub IsOutcome : Crawlability → TaskContext crates × Option PageResponse → Type 0
  IsOutcome already_known (d, page) = (d ≡ c) × (page ≡ none)
  IsOutcome already_tasked (d, page) = (d ≡ c) × (page ≡ none)
  IsOutcome crawlable (d, page) =
      (d ≡ push_tasked_link crates c command.url)
      × ((p : PageResponse) × (page ≡ some p)
          × IsSoundPage command task_uuid maximum p
          × IsFetched crates client c command info p)
  IsOutcome restricted_by_robots (d, page) =
      (d ≡ c)
      × ((p : PageResponse) × (page ≡ some p)
          × IsSoundPage command task_uuid maximum p
          × (p.crawl_status ≡ some restricted_by_robots_txt))
  IsOutcome max_depth_reached (d, page) =
      (d ≡ c)
      × ((p : PageResponse) × (page ≡ some p)
          × IsSoundPage command task_uuid maximum p
          × (p.crawl_status ≡ some maximum_crawl_depth_reached))

  pub crawl_as-Ensures :
      (verdict : Crawlability)
      → maximum < 256
      → Ensures (IsOutcome verdict) (crawl_as crates client c command info verdict task_uuid)
  unfolding crawl_as
  crawl_as-Ensures already_known small = Ensures-pure _ (refl, refl)
  crawl_as-Ensures already_tasked small = Ensures-pure _ (refl, refl)
  crawl_as-Ensures crawlable small =
      Ensures->>= _
        (Ensures-both (perform_crawl-Ensures small)
          (perform_crawl-IsFetched crates client c command info task_uuid))
        λ p (sound, fetched). Ensures-pure _ (refl, (p, refl, sound, fetched))
  crawl_as-Ensures restricted_by_robots small =
      Ensures->>= _ (refuse-Ensures restricted_by_robots_txt)
        λ page sound. Ensures-pure _ (refl, sound)
  crawl_as-Ensures max_depth_reached small =
      Ensures->>= _ (refuse-Ensures maximum_crawl_depth_reached)
        λ page sound. Ensures-pure _ (refl, sound)

  -- With a limit of redirects of eight bits, a crawl that does not panic does what its verdict says.
  -- A known or tasked URL gives no page; a refused one gives a page with the reason and leaves the
  -- task as it is. Any other is pushed on the tasked links, and its page has the command's URL, the
  -- redirects that lead from it and all the times that its serialisation needs. If the header request
  -- failed, the page has the connection error, and no header, final URL, body or links. If not, it
  -- has the header, the final URL and no status; if the header says that the page is to be downloaded,
  -- it has the download of the final URL, with the links that the task's parser finds in its body if
  -- the download is HTML and no links if it is not; otherwise it has neither body nor links.
  pub crawl-IsOutcome :
      (w w' : W) (result : TaskContext crates × Option PageResponse)
      → maximum < 256
      → crawl crates client c command info task_uuid w ≡ done (result, w')
      → IsOutcome (verify_crawlability crates c command) result
  unfolding crawl
  crawl-IsOutcome w w' result small e =
      (crawl_as-Ensures (verify_crawlability crates c command) small).apply w w' result e
