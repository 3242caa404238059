-- ===== src/PageLoader/Service/Process/Refused.antt =====
-- What the steps of one command in page_loader_service.rs do to its task's context.
use tarantula.Base.{
  ◌≢◌, Text, ℕ, ◌≡◌, ◌≢◌, sym, subst, refl, Option, none, some, Outcome, done, List,
}
use tarantula.Base.Io.{◌>>=◌, pure, action}
use tarantula.Crates.{Crates}
use tarantula.Responses.PageResponse
use tarantula.Responses.PageResponse.{PageResponse}
use tarantula.PageLoader.HttpClient.{HttpClient}
use tarantula.PageLoader.TaskContext.{TaskContext}
use tarantula.PageLoader.PageCrawl.{
  Crawlability, already_known, already_tasked, crawlable, restricted_by_robots, max_depth_reached,
  PageCrawlCommand, crawl_as, refuse, refused_page, finish_page,
}
use tarantula.Responses.Link.{Link}

abbrev pub links_in : Option PageResponse → Option (List Link)
links_in none = none
links_in (some page) = page.links

module _ {W : Type 0} (crates : Crates) (client : HttpClient W) (c : TaskContext crates)
    (command : PageCrawlCommand) (info : Option Text) where
  answered :
      {d : TaskContext crates} {page : Option PageResponse} {w' : W} (e : TaskContext crates)
      (p : Option PageResponse) (w : W)
      → ◌≡◌ {A = Outcome ((TaskContext crates × Option PageResponse) × W)}
          (done ((e, p), w))
          (done ((d, page), w'))
      → links_in p ≡ none
      → (d ≡ e) × (links_in page ≡ none)
  answered {d} {page} e p w h k =
      let context : e ≡ d = cc in
      let same : p ≡ page = cc in (sym context, subst (λ q. links_in q ≡ none) same k)

  -- A command that is not to be crawled leaves the context as it is, and its page has no links.
  pub crawl_as-refused :
      (verdict : Crawlability) (uuid : ℕ) (w w' : W) (d : TaskContext crates)
      (page : Option PageResponse)
      → verdict ≢ crawlable
      → crawl_as crates client c command info verdict uuid w ≡ done ((d, page), w')
      → (d ≡ c) × (links_in page ≡ none)
  unfolding crawl_as pure refuse ◌>>=◌ action refused_page finish_page PageResponse.new
  crawl_as-refused already_known uuid w w' d page n e = answered _ _ _ e refl
  crawl_as-refused already_tasked uuid w w' d page n e = answered _ _ _ e refl
  crawl_as-refused crawlable uuid w w' d page n e = absurd (n refl)
  crawl_as-refused restricted_by_robots uuid w w' d page n e = answered _ _ _ e refl
  crawl_as-refused max_depth_reached uuid w w' d page n e = answered _ _ _ e refl

  pub crawl_as-answers :
      (verdict : Crawlability) (uuid : ℕ) (w : W)
      → verdict ≢ crawlable
      → (d : TaskContext crates) × (page : Option PageResponse) × (w' : W) × (crawl_as crates client
            c command info verdict uuid w
          ≡ done ((d, page), w'))
  unfolding crawl_as pure refuse ◌>>=◌ action
  crawl_as-answers already_known uuid w n = (_, _, _, refl)
  crawl_as-answers already_tasked uuid w n = (_, _, _, refl)
  crawl_as-answers crawlable uuid w n = absurd (n refl)
  crawl_as-answers restricted_by_robots uuid w n = (_, _, _, refl)
  crawl_as-answers max_depth_reached uuid w n = (_, _, _, refl)
