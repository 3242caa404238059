-- ===== src/PageLoader/Service.antt =====
-- page_loader/src/page_loader_service.rs: what the service does with a command. The commands and
-- events that a handler sends are its results, in their order; a `LoadPageCommand` belongs to the
-- task whose context handled the command that led to it.
pub mod Dedup
pub mod Known
pub mod Links
pub mod Allowed
pub mod Distinct
pub mod Process
use tarantula.Base.{
  panic, ℕ, ◌+◌, ◌%◌, Bool, true, false, not, List, [], ◌∷◌, ◌++◌, Option, none, some, Outcome,
  done, ◌>>=◌, if◌then◌else◌, leb, retain, Text, text_eq, mem,
}
use tarantula.Base.Io
use tarantula.Base.Io.{Io, pure, lift, action}
use tarantula.Crates.{Crates}
use tarantula.Responses.Link.{Link}
use tarantula.Responses.PageResponse.{PageResponse}
use tarantula.Responses.RunConfig.{RunConfig}
use tarantula.Responses.UriScope.{UriScope}
use tarantula.LinkResult.UriService.{form_full_url}
use tarantula.PageLoader.HttpClient.{HttpClient}
use tarantula.PageLoader.CrawlerEvent.{CrawlerEvent, page_event}
use tarantula.PageLoader.PageRequest.{get_protocol, get_host}
use tarantula.PageLoader.PageCrawl.{PageCrawlCommand, crawl}
use tarantula.PageLoader.TaskContext
use tarantula.PageLoader.TaskContext.{
  TaskContext, register_crawl_command, unregister_crawl_command, set_last_command_received,
}
use tarantula.PageLoader.TaskManager.{TaskManager, add_task}

-- `LoadPageCommand`.
pub record LoadPage : Type 0 where
  pub url : Text
  pub raw_url : Text
  pub current_depth : ℕ

-- `create_page_crawl_command`, with the uuid that the new command draws.
abbrev pub create_page_crawl_command : LoadPage → ℕ → PageCrawlCommand
create_page_crawl_command load uuid = record {
  url = load.url;
  raw_url = load.raw_url;
  current_depth = load.current_depth;
  uuid = uuid;
}

-- `dedup_by` on the URIs: of neighbours with one URI the first stays.
unfoldable pub dedup_after : Text → List Link → List Link
dedup_after uri [] = []
dedup_after uri (link ∷ links) =
    let same = dedup_after uri links in
    let other = link ∷ dedup_after link.uri links in if text_eq link.uri uri then same else other

unfoldable pub dedup_links : List Link → List Link
unfolding dedup_after
dedup_links [] = []
dedup_links (link ∷ links) = link ∷ dedup_after link.uri links

-- `dedup` of a list of URLs.
unfoldable pub dedup_texts_after : Text → List Text → List Text
dedup_texts_after previous [] = []
dedup_texts_after previous (text ∷ texts) =
    let same = dedup_texts_after previous texts in
    let other = text ∷ dedup_texts_after text texts in if text_eq text previous then same else other

unfoldable pub dedup_texts : List Text → List Text
unfolding dedup_texts_after
dedup_texts [] = []
dedup_texts (text ∷ texts) = text ∷ dedup_texts_after text texts

unfoldable pub has_scope : Link → Bool
has_scope link = elim link.scope [ none ↦ false | some scope ↦ true ]

-- The arms of the match on a link's scope: whether the link is followed.
unfoldable pub is_followed : Option UriScope → Bool
is_followed (some UriScope.root) = true
is_followed (some UriScope.same_domain) = true
is_followed (some UriScope.different_sub_domain) = true
is_followed _ = false

unfoldable pub push_new : List Text → Text → List Text
push_new known url = if mem url known then known else known ++ url ∷ []

unfoldable pub add_links_to_known_list : List Text → PageResponse → List Text
unfolding push_new
add_links_to_known_list known page =
    let first = push_new known page.original_requested_url in
    elim page.final_url_after_redirects [ none ↦ first | some final_url ↦ push_new first final_url ]

unfoldable pub know_page :
    (crates : Crates) → TaskContext crates → PageResponse → TaskContext crates
unfolding add_links_to_known_list
know_page crates c page = record c {
  all_crawled_links = add_links_to_known_list c.all_crawled_links page;
}

module _ (crates : Crates) (c : TaskContext crates) (command : PageCrawlCommand) where
  -- `current_depth + 1` on a `u16`.
  unfoldable pub prepare_load_command : Link → Outcome LoadPage
  prepare_load_command link = do
    protocol ← get_protocol crates command.url
    host ← get_host crates command.url
    uri ← form_full_url crates c.link_type_checker protocol link.uri host (some command.url)
    done (record {
      url = crates.uri_to_string uri;
      raw_url = link.uri;
      current_depth = (command.current_depth + 1) % 65_536;
    })

  -- The loop over the links, with the links that are known before it.
  unfoldable pub send_links : List Text → List Link → Outcome (List LoadPage)
  unfolding prepare_load_command is_followed
  send_links known [] = done []
  send_links known (link ∷ links) = elim (is_followed link.scope) [
    | false ↦ send_links known links
    | true ↦ do
      load ← prepare_load_command link
      rest ← send_links known links
      done (if not (mem load.url known) then load ∷ rest else rest)
  ]

  unfoldable pub loads_of : Option (List Link) → Outcome (List LoadPage)
  unfolding send_links dedup_links dedup_texts has_scope
  loads_of none = done []
  loads_of (some links) =
      if leb command.current_depth c.task_config.maximum_depth
      then send_links (dedup_texts (c.all_crawled_links ++ c.all_tasked_links))
          (retain has_scope (dedup_links links))
      else done []

-- The sends of the commands, with whether the service is there to receive them: if not, the first
-- one panics.
unfoldable pub send_all : Bool → List LoadPage → Outcome (List LoadPage)
send_all true loads = done loads
send_all false [] = done []
send_all false (load ∷ loads) = panic

-- What a command leaves and sends.
pub record Sent (crates : Crates) : Type 0 where
  pub context : TaskContext crates
  pub loads : List LoadPage
  pub events : List CrawlerEvent

module _ (crates : Crates) (c : TaskContext crates) (command : PageCrawlCommand) where
  -- The links that are known include those of the page itself, which is added first.
  unfoldable pub consume_crawl_result : (is_open : Bool) → PageResponse → Outcome (Sent crates)
  unfolding know_page loads_of send_all
  consume_crawl_result is_open page = do
    prepared ← loads_of crates (know_page crates c page) command page.links
    loads ← send_all is_open prepared
    done
        (record { context = know_page crates c page; loads = loads; events = page_event page ∷ [] })

  unfoldable pub consume_result : (is_open : Bool) → Option PageResponse → Outcome (Sent crates)
  unfolding consume_crawl_result
  consume_result is_open none = done (record { context = c; loads = []; events = [] })
  consume_result is_open (some page) = consume_crawl_result is_open page

module _ {W : Type 0} (crates : Crates) (client : HttpClient W) where
  unfoldable pub do_load :
      (is_open : Bool) → TaskContext crates → PageCrawlCommand → Option Text → Io W (Sent crates)
  unfolding consume_result
  do_load is_open c command robots_txt_info_url = Io.◌>>=◌ (action client.now) λ now.
      Io.◌>>=◌
        (crawl crates client (set_last_command_received crates c now) command robots_txt_info_url
          c.uuid)
        λ (d, page). lift (consume_result crates d command is_open page)

  unfoldable pub unregister : ℕ → Sent crates → Sent crates
  unregister uuid sent = record sent { context = unregister_crawl_command crates sent.context uuid }

  -- `handle_load_page_command`, up to the end of the task that it spawns; `uuid` is the new
  -- command's.
  unfoldable pub handle_load_page_command :
      (is_open : Bool) → TaskContext crates → LoadPage → ℕ → Io W (Sent crates)
  unfolding do_load unregister
  handle_load_page_command is_open c load uuid =
      Io.◌>>=◌
        (do_load is_open (register_crawl_command crates c uuid)
          (create_page_crawl_command load uuid) c.task_config.robots_txt_info_url)
        λ sent. pure (unregister uuid sent)

  -- `handle_crawl_domain_command`: the first command of the task, and the task manager with it.
  unfoldable pub handle_crawl_domain_command :
      TaskManager crates → RunConfig → ℕ → Io W (TaskContext crates × LoadPage × TaskManager crates)
  handle_crawl_domain_command manager run_config task_context_uuid =
      Io.◌>>=◌ (action client.now) λ now.
        Io.◌>>=◌ (lift (TaskContext.init crates run_config task_context_uuid now)) λ c. pure (
          c,
          record { url = run_config.url; raw_url = run_config.url; current_depth = 0 },
          add_task crates manager c,
        )
