-- ===== src/PageLoader/PageCrawl/Fetched.antt =====
-- What the page of a crawl of page_crawl_command.rs holds of the answers to its requests.
use tarantula.Base.{
  ℕ, ◌≡◌, ◌⊎◌, refl, Bool, true, false, Option, none, some, done, inl, inr, Text, List,
}
use tarantula.Base.Io.{
  Io, Gives, Ensures, Ensures-Gives, Ensures-lift, Ensures-then, Ensures->>=, Ensures-pure,
  Ensures-test, Ensures-mono,
}
use tarantula.Crates.{Crates}
use tarantula.DomParser.{UriResult, get_links}
use tarantula.Responses.CrawlStatus.{connection_error}
use tarantula.Responses.GetResponse.{GetResponse}
use tarantula.Responses.HeadResponse.{HeadResponse, get_final_uri}
use tarantula.Responses.Link.{Link}
use tarantula.Responses.PageResponse
use tarantula.Responses.PageResponse.{PageResponse}
use tarantula.PageLoader.FetchHeader.{HeadResponseResult, head_ok, head_err, fetch_header}
use tarantula.PageLoader.HttpClient.{HttpClient}
use tarantula.PageLoader.PageDownload.{download_page}
use tarantula.PageLoader.PageRequest.{get_protocol, get_host}
use tarantula.PageLoader.TaskContext.{TaskContext}
use tarantula.PageLoader.PageCrawl.{
  PageCrawlCommand, finish_page, perform_crawl_internal, extract_links, links_of,
  consume_fetch_header_response, download_final, consume_page_download_response, is_html,
  should_download_page,
}

-- The links are those of the parser's result.
abbrev pub AreLinksIn : Option UriResult → Option (List Link) → Type 0
AreLinksIn none links = links ≡ none
AreLinksIn (some result) links = links ≡ some result.links

module _ {W : Type 0} (crates : Crates) (client : HttpClient W) (c : TaskContext crates)
    (command : PageCrawlCommand) (info : Option Text) where
  -- The parser of the task has found the links in the body, for the host and protocol of the URL.
  pub record IsParsed (body : Text) (links : Option (List Link)) : Type 0 where
    pub protocol : Text
    pub host : Text
    pub now : ℕ
    pub result : Option UriResult
    pub has_protocol : get_protocol crates command.url ≡ done protocol
    pub has_host : get_host crates command.url ≡ done host
    pub parsed : get_links crates c.link_type_checker protocol host now body ≡ done result
    pub found : AreLinksIn result links

  -- The links of a download: those of its body, if it is HTML.
  abbrev pub AreLinksOf : GetResponse → Option (List Link) → Type 0
  AreLinksOf get links =
      ((is_html get.headers ≡ false) × (links ≡ none))
      ⊎ ((is_html get.headers ≡ true)
          × (((get.body ≡ none) × (links ≡ none))
              ⊎ ((body : Text) × (get.body ≡ some body) × IsParsed body links)))

  -- The final URL is downloaded exactly if `should_download_page` says so.
  abbrev pub HasBody : HeadResponse → PageResponse → Type 0
  HasBody head page =
      ((should_download_page head.headers head.http_response_code ≡ done false)
        × (page.get ≡ none)
        × (page.links ≡ none))
      ⊎ ((should_download_page head.headers head.http_response_code ≡ done true)
          × ((get : GetResponse) × (page.get ≡ some get)
              × Gives (download_page crates client (get_final_uri head) info) get
              × AreLinksOf get page.links))

  abbrev fetch : Io W HeadResponseResult
  fetch =
      fetch_header crates client c.link_type_checker command.url c.task_config.maximum_redirects
        info c.task_config.ignore_redirects

  -- The page tells of the header request: its error, or the header, where it leads and the download.
  pub data IsFetched (page : PageResponse) : Type 0 where
    failed :
        (message : Text)
        → Gives fetch (head_err message)
        → page.crawl_status ≡ some (connection_error message)
        → (page.head ≡ none) × (page.final_url_after_redirects ≡ none)
        → (page.get ≡ none) × (page.links ≡ none)
        → IsFetched page
    answered :
        (head : HeadResponse)
        → Gives fetch (head_ok head)
        → page.crawl_status ≡ none
        → (page.head ≡ some head) × (page.final_url_after_redirects ≡ some (get_final_uri head))
        → HasBody head page
        → IsFetched page

  -- A page before its header.
  record IsBlank (page : PageResponse) : Type 0 where
    status : page.crawl_status ≡ none
    header : (page.head ≡ none) × (page.final_url_after_redirects ≡ none)
    body : (page.get ≡ none) × (page.links ≡ none)

  -- What a download leaves alone.
  record IsOf (head : HeadResponse) (page : PageResponse) : Type 0 where
    status : page.crawl_status ≡ none
    header : (page.head ≡ some head) × (page.final_url_after_redirects ≡ some (get_final_uri head))

  links_of-AreLinksIn : (result : Option UriResult) → AreLinksIn result (links_of result)
  unfolding links_of
  links_of-AreLinksIn none = refl
  links_of-AreLinksIn (some result) = refl

  extract_links-Ensures :
      (protocol host : Text) (body : Option Text)
      → get_protocol crates command.url ≡ done protocol
      → get_host crates command.url ≡ done host
      → Ensures
          (λ links.
            ((body ≡ none) × (links ≡ none))
            ⊎ ((text : Text) × (body ≡ some text) × IsParsed text links))
          (extract_links crates client c protocol host body)
  unfolding extract_links
  extract_links-Ensures protocol host none p h = Ensures-pure _ (inl (refl, refl))
  extract_links-Ensures protocol host (some body) p h = Ensures-then _ λ now.
      Ensures->>= _ (Ensures-lift _) λ result e. Ensures-pure _ (
        inr (
          body,
          refl,
          record {
            protocol = protocol;
            host = host;
            now = now;
            result = result;
            has_protocol = p;
            has_host = h;
            parsed = e;
            found = links_of-AreLinksIn result;
          },
        ))

  consume_page-Ensures :
      (head : HeadResponse) (page : PageResponse) (get : GetResponse)
      → IsOf head page
      → page.links ≡ none
      → Ensures
          (λ (p : PageResponse). IsOf head p × (p.get ≡ some get) × AreLinksOf get p.links)
          (consume_page_download_response crates client c command info page get)
  unfolding consume_page_download_response
  consume_page-Ensures head page get h no_links =
      Ensures-test (is_html get.headers)
        (λ e.
          Ensures-pure _ (record { status = h.status; header = h.header }, refl, inl (e, no_links)))
        λ e. Ensures->>= _ (Ensures-lift _) λ protocol p. Ensures->>= _ (Ensures-lift _) λ host q.
          Ensures->>= _ (extract_links-Ensures protocol host get.body p q) λ links found.
            Ensures-pure _ (record { status = h.status; header = h.header }, refl, inr (e, found))

  consume_head-Ensures :
      (page : PageResponse) (head : HeadResponseResult)
      → IsBlank page
      → Gives fetch head
      → Ensures IsFetched (consume_fetch_header_response crates client c command info page head)
  unfolding consume_fetch_header_response download_final
  consume_head-Ensures page (head_err message) h g =
      Ensures-pure _ (failed message g refl h.header h.body)
  consume_head-Ensures page (head_ok head) h g =
      Ensures->>= _ (Ensures-lift _) λ should_download e. go should_download e
    where
      with_header : PageResponse
      with_header = record page {
        final_url_after_redirects = some (get_final_uri head);
        head = some head;
      }

      go :
          (should_download : Bool)
          → should_download_page head.headers head.http_response_code ≡ done should_download
          → Ensures IsFetched (
              download_final crates client c command info with_header
                (get_final_uri head)
                should_download)
      go false e =
          Ensures-pure _ (answered head g h.status (refl, refl) (inl (e, h.body.0, h.body.1)))
      go true e = Ensures->>= _ (Ensures-Gives _) λ get given.
          Ensures-mono
            (λ p k. answered head g k.0.status k.0.header (inr (e, (get, k.1, given, k.2))))
            (consume_page-Ensures head with_header get
              (record { status = h.status; header = (refl, refl) }) h.body.1)

  finish_page-IsFetched :
      (page : PageResponse) (end_time : ℕ) → IsFetched page → IsFetched (finish_page page end_time)
  unfolding finish_page
  finish_page-IsFetched page end_time (failed message g s a b) = failed message g s a b
  finish_page-IsFetched page end_time (answered head g s a b) = answered head g s a b

  pub perform_crawl-IsFetched :
      (task_uuid : ℕ)
      → Ensures IsFetched (perform_crawl_internal crates client c command info task_uuid)
  unfolding perform_crawl_internal PageResponse.new
  perform_crawl-IsFetched task_uuid = Ensures-then _ λ start_time.
      Ensures->>= _ (Ensures-Gives _) λ head g.
        Ensures->>= _
          (consume_head-Ensures _ head
            (record { status = refl; header = (refl, refl); body = (refl, refl) }) g)
          λ page h.
            Ensures-then _ λ end_time. Ensures-pure _ (finish_page-IsFetched page end_time h)
