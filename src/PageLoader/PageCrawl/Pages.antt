-- ===== src/PageLoader/PageCrawl/Pages.antt =====
-- The parts of the page that `crawl` of page_crawl_command.rs returns.
use tarantula.Base.{
  sym, ℕ, ◌≡◌, ◌≢◌, refl, Bool, true, false, List, Option, none, some, Text, subst,
}
use tarantula.Base.Io.{Ensures, Ensures-then, Ensures->>=, Ensures-pure, Ensures-test}
use tarantula.Crates.{Crates}
use tarantula.Responses.Link.{Link}
use tarantula.Responses.HeadResponse.{HeadResponse, get_final_uri}
use tarantula.Responses.GetResponse.{GetResponse}
use tarantula.Responses.PageResponse
use tarantula.Responses.PageResponse.{PageResponse}
use tarantula.Responses.ResponseTimings
use tarantula.Responses.ResponseTimings.{ResponseTimings, serialize}
use tarantula.PageLoader.HttpClient.{HttpClient}
use tarantula.PageLoader.FetchHeader.{HeadResponseResult, head_ok, head_err}
use tarantula.PageLoader.FetchHeader.Chain.{IsTimed, IsTimed-from, IsSound, IsSoundResult}
use tarantula.PageLoader.PageDownload.{download_page}
use tarantula.PageLoader.TaskContext.{TaskContext}
use tarantula.PageLoader.PageCrawl.{
  PageCrawlCommand, consume_fetch_header_response, download_final, consume_page_download_response,
  is_html,
}

abbrev pub IsSoundHead : ℕ → Text → Option HeadResponse → Type 0
IsSoundHead maximum url none = Unit {0}
IsSoundHead maximum url (some h) = IsSound url maximum h

abbrev pub IsTimedGet : Option GetResponse → Type 0
IsTimedGet none = Unit {0}
IsTimedGet (some g) = IsTimed g.response_timings

-- What links there are come from a page that was downloaded and is HTML.
abbrev pub HasSource : Option (List Link) → Option GetResponse → Type 0
HasSource none get = Unit {0}
HasSource (some links) none = ⊥
HasSource (some links) (some g) = is_html g.headers ≡ true

-- The parts of a page, its own times excepted.
pub record IsSoundBody (command : PageCrawlCommand) (task_uuid maximum : ℕ) (p : PageResponse)
    : Type 0 where
  pub url : p.original_requested_url ≡ command.url
  pub raw_url : p.original_requested_url_raw ≡ command.raw_url
  pub task : p.task_uuid ≡ task_uuid
  pub started : p.response_timings.start_time ≢ none
  pub head : IsSoundHead maximum command.url p.head
  pub get : IsTimedGet p.get
  pub links : HasSource p.links p.get
  pub status : p.crawl_status ≢ none → (p.get ≡ none) × (p.links ≡ none)

pub record IsSoundPage (command : PageCrawlCommand) (task_uuid maximum : ℕ) (p : PageResponse)
    : Type 0 where
  pub body : IsSoundBody command task_uuid maximum p
  pub timed : IsTimed p.response_timings

-- Before the download: no body, no links, no status.
pub record IsStarted (command : PageCrawlCommand) (task_uuid maximum : ℕ) (p : PageResponse)
    : Type 0 where
  body : IsSoundBody command task_uuid maximum p
  no_get : p.get ≡ none
  no_links : p.links ≡ none
  no_status : p.crawl_status ≡ none

module _ {W : Type 0} (crates : Crates) (client : HttpClient W) (c : TaskContext crates)
    (command : PageCrawlCommand) (info : Option Text) (task_uuid : ℕ) where
  abbrev maximum : ℕ
  maximum = c.task_config.maximum_redirects

  download_page-Ensures :
      (uri : Text)
      → Ensures {W = W} (λ g. IsTimed g.response_timings) (download_page crates client uri info)
  unfolding download_page
  download_page-Ensures uri = Ensures-then _ λ start_time. Ensures-then _ λ result.
      Ensures-then _ λ response. Ensures-then _ λ headers.
        Ensures-then _
          λ body. Ensures-then _ λ end_time. Ensures-pure _ (IsTimed-from _ start_time end_time)

  consume_page-Ensures :
      (p : PageResponse) (g : GetResponse)
      → IsStarted command task_uuid maximum p
      → IsTimed g.response_timings
      → Ensures
          (IsSoundBody command task_uuid maximum)
          (consume_page_download_response crates client c command info p g)
  unfolding consume_page_download_response
  consume_page-Ensures p g s t =
      Ensures-test (is_html g.headers) (λ other. Ensures-pure _ plain)
        (λ html. Ensures-then _ λ protocol.
          Ensures-then _
            λ host. Ensures-then _ λ links. Ensures-pure _ (with_get links (sourced links html)))
    where
      plain : IsSoundBody command task_uuid maximum (record p { get = some g })
      plain = record {
        url = s.body.url;
        raw_url = s.body.raw_url;
        task = s.body.task;
        started = s.body.started;
        head = s.body.head;
        get = t;
        links = subst (λ l. HasSource l (some g)) (sym s.no_links) tt;
        status = λ e. absurd (e s.no_status);
      }

      sourced : (links : Option (List Link)) → is_html g.headers ≡ true → HasSource links (some g)
      sourced none html = tt
      sourced (some links) html = html

      with_get :
          (links : Option (List Link))
          → HasSource links (some g)
          → IsSoundBody command task_uuid maximum (record p { links = links; get = some g })
      with_get links source = record {
        url = s.body.url;
        raw_url = s.body.raw_url;
        task = s.body.task;
        started = s.body.started;
        head = s.body.head;
        get = t;
        links = source;
        status = λ e. absurd (e s.no_status);
      }

  download_final-Ensures :
      (p : PageResponse) (final_uri : Text) (should_download : Bool)
      → IsStarted command task_uuid maximum p
      → Ensures
          (IsSoundBody command task_uuid maximum)
          (download_final crates client c command info p final_uri should_download)
  unfolding download_final
  download_final-Ensures p final_uri false s = Ensures-pure _ s.body
  download_final-Ensures p final_uri true s =
      Ensures->>= _ (download_page-Ensures final_uri) λ g t. consume_page-Ensures p g s t

  pub consume_head-Ensures :
      (p : PageResponse) (r : HeadResponseResult)
      → IsStarted command task_uuid maximum p
      → IsSoundResult command.url maximum (some r)
      → Ensures
          (IsSoundBody command task_uuid maximum)
          (consume_fetch_header_response crates client c command info p r)
  unfolding consume_fetch_header_response
  consume_head-Ensures p (head_err message) s sound = Ensures-pure _ (record {
    url = s.body.url;
    raw_url = s.body.raw_url;
    task = s.body.task;
    started = s.body.started;
    head = s.body.head;
    get = s.body.get;
    links = s.body.links;
    status = λ e. (s.no_get, s.no_links);
  })
  consume_head-Ensures p (head_ok h) s sound = Ensures-then _ λ should_download.
      download_final-Ensures
        (record p { final_url_after_redirects = some (get_final_uri h); head = some h })
        (get_final_uri h) should_download
        (record {
          body = record {
            url = s.body.url;
            raw_url = s.body.raw_url;
            task = s.body.task;
            started = s.body.started;
            head = sound;
            get = s.body.get;
            links = s.body.links;
            status = s.body.status;
          };
          no_get = s.no_get;
          no_links = s.no_links;
          no_status = s.no_status;
        })

  pub new-IsStarted :
      (now : ℕ)
      → IsStarted command task_uuid maximum
          (PageResponse.new now command.url command.raw_url task_uuid)
  unfolding PageResponse.new ResponseTimings.new
  new-IsStarted now = record {
    body = record {
      url = refl;
      raw_url = refl;
      task = refl;
      started = λ e. cc;
      head = tt;
      get = tt;
      links = tt;
      status = λ e. (refl, refl);
    };
    no_get = refl;
    no_links = refl;
    no_status = refl;
  }
