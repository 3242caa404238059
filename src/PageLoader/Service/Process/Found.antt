-- ===== src/PageLoader/Service/Process/Found.antt =====
-- The URLs that page_loader_service.rs crawls, against a crawler without tasks, locks or a channel.
use mathlib.Core.List.{Memᴰ}
use tarantula.Base.{
  ℕ, ◌+◌, ◌%◌, ◌≡◌, ◌⊎◌, subst, inl, inr, true, List, [], ◌∷◌, Option, none, some, done, All,
  All-mono, Text, >>=-eq-done, done-injective,
}
use tarantula.Crates.{Crates}
use tarantula.Responses.Link.{Link}
use tarantula.Responses.PageResponse.{PageResponse}
use tarantula.Responses.RunConfig.{RunConfig}
use tarantula.LinkResult.LinkTypeChecker.{LinkTypeChecker}
use tarantula.LinkResult.UriService.{form_full_url}
use tarantula.PageLoader.HttpClient.{HttpClient}
use tarantula.PageLoader.PageRequest.{get_protocol, get_host}
use tarantula.PageLoader.TaskContext
use tarantula.PageLoader.TaskContext.{TaskContext}
use tarantula.PageLoader.PageCrawl.{PageCrawlCommand, perform_crawl_internal}
use tarantula.PageLoader.Service.{LoadPage, is_followed, prepare_load_command, loads_of}
use tarantula.PageLoader.Service.Allowed.{loads_of-IsAllowed}
use tarantula.PageLoader.Service.Process.{Stage, crawled, known, sending}
use tarantula.PageLoader.Service.Process.Refused.{links_in}

module _ {W : Type 0} (crates : Crates) (client : HttpClient W) where
  -- A page that a crawl of the command's URL gives in some world, for a task with that checker.
  pub record IsPageOf (checker : LinkTypeChecker crates.Regex) (command : PageCrawlCommand)
      (page : PageResponse) : Type 0 where
    pub context : TaskContext crates
    pub checks : context.link_type_checker ≡ checker
    pub world : W
    pub world' : W
    pub fetched :
        perform_crawl_internal crates client context command context.task_config.robots_txt_info_url
          context.uuid world
        ≡ done (page, world')

  -- What can be found from the URLs that are asked for: the URL of a request, and the URL of each
  -- link that is followed on the page of one that is found, a level below it.
  pub data Found (Asked : RunConfig → Type 0) (checker : LinkTypeChecker crates.Regex)
      : Text → ℕ → Type 0 where
    asks :
        (run_config : RunConfig) (uuid now : ℕ) (c : TaskContext crates)
        → Asked run_config
        → TaskContext.init crates run_config uuid now ≡ done c
        → c.link_type_checker ≡ checker
        → Found Asked checker run_config.url 0
    follows :
        (command : PageCrawlCommand) (page : PageResponse) (links : List Link) (link : Link)
        (protocol host : Text) (uri : crates.Uri)
        → Found Asked checker command.url command.current_depth
        → IsPageOf checker command page
        → page.links ≡ some links
        → Memᴰ link links
        → is_followed link.scope ≡ true
        → get_protocol crates command.url ≡ done protocol
        → get_host crates command.url ≡ done host
        → form_full_url crates checker protocol link.uri host (some command.url) ≡ done uri
        → Found Asked checker (crates.uri_to_string uri) ((command.current_depth + 1) % 65_536)

  module _ (Asked : RunConfig → Type 0) where
    abbrev pub IsFoundLoad : LinkTypeChecker crates.Regex → LoadPage → Type 0
    IsFoundLoad checker load = Found Asked checker load.url load.current_depth

    abbrev pub IsSourced : LinkTypeChecker crates.Regex → PageCrawlCommand → Stage → Type 0
    IsSourced checker command (crawled (some page)) =
        IsPageOf checker command page ⊎ (page.links ≡ none)
    IsSourced checker command (known page) = IsPageOf checker command page ⊎ (page.links ≡ none)
    IsSourced checker command (sending loads page) = All (IsFoundLoad checker) loads
    IsSourced checker command _ = Unit

    pub refused-IsSourced :
        (checker : LinkTypeChecker crates.Regex) (command : PageCrawlCommand)
        (page : Option PageResponse)
        → links_in page ≡ none
        → IsSourced checker command (crawled page)
    refused-IsSourced checker command none h = tt
    refused-IsSourced checker command (some page) h = inr h

    prepared-Found :
        (c : TaskContext crates) (command : PageCrawlCommand) (page : PageResponse)
        (links : List Link) (link : Link) (load : LoadPage)
        → Found Asked c.link_type_checker command.url command.current_depth
        → IsPageOf c.link_type_checker command page
        → page.links ≡ some links
        → Memᴰ link links
        → is_followed link.scope ≡ true
        → prepare_load_command crates c command link ≡ done load
        → IsFoundLoad c.link_type_checker load
    unfolding prepare_load_command
    prepared-Found c command page links link load f p has m followed e =
        let a = >>=-eq-done (get_protocol crates command.url) _ e in
        let b = >>=-eq-done (get_host crates command.url) _ a.2 in
        let d =
          >>=-eq-done (form_full_url crates c.link_type_checker a.0 link.uri b.0 (some command.url))
            _ b.2 in
        subst (IsFoundLoad c.link_type_checker) (done-injective _ load d.2)
          (follows command page links link a.0 b.0 d.0 f p has m followed a.1 b.1 d.1)

    pub loads_of-Found :
        (c : TaskContext crates) (command : PageCrawlCommand) (page : PageResponse)
        (l : Option (List Link)) (loads : List LoadPage)
        → page.links ≡ l
        → Found Asked c.link_type_checker command.url command.current_depth
        → IsPageOf c.link_type_checker command page ⊎ (page.links ≡ none)
        → loads_of crates c command l ≡ done loads
        → All (IsFoundLoad c.link_type_checker) loads
    unfolding loads_of
    loads_of-Found c command page none [] has f s e = tt
    loads_of-Found c command page none (load ∷ loads) has f s e = cc
    loads_of-Found c command page (some links) loads has f (inr empty) e = cc
    loads_of-Found c command page (some links) loads has f (inl p) e =
        All-mono
          (λ load (of, bound).
            prepared-Found c command page links of.link load f p has of.member of.followed
              of.prepared)
          loads (loads_of-IsAllowed crates c command links loads e)
