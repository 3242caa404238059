-- ===== src/Server/Http/Payloads.antt =====
-- Pages in JSON: the `to_string(…).unwrap()` of `process` in server/src/http.rs.
use tarantula.PageLoader.PageCrawl.Pages.{IsTimedGet, IsSoundHead, IsSoundPage}
use tarantula.PageLoader.PageCrawl.{
  verify_crawlability, Crawlability, crawl, already_known, already_tasked, crawlable,
  restricted_by_robots, max_depth_reached, PageCrawlCommand,
}
use tarantula.Responses.GetResponse.{GetResponse}
use tarantula.PageLoader.HttpClient.{HttpClient}
use tarantula.PageLoader.TaskContext.{TaskContext}
use tarantula.Base.{
  >>=-ne-panic, ◌<◌, subst, ◌≡◌, ◌≢◌, ℕ, List, [], ◌∷◌, Option, none, some, done, panic, Text, All,
  arith,
}
use tarantula.PageLoader.PageCrawl.Outcomes.{IsOutcome, crawl-IsOutcome}
use tarantula.Crates.{Crates}
use tarantula.Responses.Redirect.{Redirect}
use tarantula.Responses.HeadResponse.{HeadResponse}
use tarantula.Responses.PageResponse.{PageResponse}
use tarantula.PageLoader.FetchHeader.Chain.{IsTimed}
use tarantula.Server.Http.{
  GetResponse, serialize, page_to_string, serialize_head, serialize_redirects, serialize_get,
}

serialize_redirects-ne-panic :
    (redirects : List Redirect)
    → All (λ (r : Redirect). IsTimed r.response_timings) redirects
    → serialize_redirects redirects ≢ panic
unfolding serialize_redirects
serialize_redirects-ne-panic [] h = λ e. cc
serialize_redirects-ne-panic (r ∷ redirects) h =
    >>=-ne-panic (serialize r.response_timings) _ h.0 λ times.
      >>=-ne-panic (serialize_redirects redirects) _ (serialize_redirects-ne-panic redirects h.1)
        λ rest e. cc

serialize_head-ne-panic :
    (maximum : ℕ) (url : Text) (head : Option HeadResponse)
    → IsSoundHead maximum url head
    → serialize_head head ≢ panic
unfolding serialize_head
serialize_head-ne-panic maximum url none h = λ e. cc
serialize_head-ne-panic maximum url (some head) h =
    >>=-ne-panic (serialize_redirects head.redirects) _
      (serialize_redirects-ne-panic head.redirects h.redirects_timed)
      λ redirects. >>=-ne-panic (serialize head.response_timings) _ h.timed λ times e. cc

serialize_get-ne-panic : (get : Option GetResponse) → IsTimedGet get → serialize_get get ≢ panic
unfolding serialize_get
serialize_get-ne-panic none h = λ e. cc
serialize_get-ne-panic (some get) h =
    >>=-ne-panic (serialize get.response_timings) _ h λ times e. cc

pub page_to_string-ne-panic :
    (command : PageCrawlCommand) (task_uuid maximum : ℕ) (page : PageResponse)
    → IsSoundPage command task_uuid maximum page
    → page_to_string page ≢ panic
unfolding page_to_string
page_to_string-ne-panic command task_uuid maximum page h =
    >>=-ne-panic (serialize_head page.head) _
      (serialize_head-ne-panic maximum command.url page.head h.body.head)
      λ head.
        >>=-ne-panic (serialize_get page.get) _ (serialize_get-ne-panic page.get h.body.get)
          λ get. >>=-ne-panic (serialize page.response_timings) _ h.timed λ times e. cc

module _ {W : Type 0} (crates : Crates) (client : HttpClient W) (c : TaskContext crates)
    (command : PageCrawlCommand) (info : Option Text) (task_uuid : ℕ) where
  sound-writable :
      (page q : PageResponse)
      → some page ≡ some q
      → IsSoundPage command task_uuid c.task_config.maximum_redirects q
      → page_to_string page ≢ panic
  sound-writable page q same s =
      let back : q ≡ page = cc in
      page_to_string-ne-panic command task_uuid c.task_config.maximum_redirects page
        (subst (IsSoundPage command task_uuid c.task_config.maximum_redirects) back s)

  pub IsOutcome-writable :
      (verdict : Crawlability) (d : TaskContext crates) (page : PageResponse)
      → IsOutcome crates client c command info task_uuid verdict (d, some page)
      → page_to_string page ≢ panic
  IsOutcome-writable already_known d page o = absurd (ground (arith, o.1))
  IsOutcome-writable already_tasked d page o = absurd (ground (arith, o.1))
  IsOutcome-writable crawlable d page o = sound-writable page o.1.0 o.1.1 o.1.2
  IsOutcome-writable restricted_by_robots d page o = sound-writable page o.1.0 o.1.1 o.1.2
  IsOutcome-writable max_depth_reached d page o = sound-writable page o.1.0 o.1.1 o.1.2

-- With a limit of redirects of eight bits, every page that a crawl returns, whatever its verdict, can
-- be turned into JSON without a panic.
pub crawl-page_to_string :
    {W : Type 0} (crates : Crates) (client : HttpClient W) (c d : TaskContext crates)
    (command : PageCrawlCommand) (info : Option Text) (task_uuid : ℕ) (w w' : W)
    (page : PageResponse)
    → c.task_config.maximum_redirects < 256
    → crawl crates client c command info task_uuid w ≡ done ((d, some page), w')
    → page_to_string page ≢ panic
crawl-page_to_string crates client c d command info task_uuid w w' page small e =
    IsOutcome-writable crates client c command info task_uuid (verify_crawlability crates c command)
      d page (crawl-IsOutcome crates client c command info task_uuid w w' (d, some page) small e)
