-- ===== src/PageLoader/Service/Allowed.antt =====
-- The commands that page_loader_service.rs sends when a page is consumed.
use mathlib.Core.List.{Memᴰ}
use tarantula.Base.{
  Bool, ◌≤◌, ◌∙◌, sym, subst, ◌≡◌, refl, inl, inr, true, false, List, [], ◌∷◌, ◌++◌, some, done,
  arith, All, Bool-cases, >>=-eq-done, leb, retain, Text, mem,
}
use tarantula.Crates.{Crates}
use tarantula.Responses.Link.{Link}
use tarantula.Responses.PageResponse.{PageResponse}
use tarantula.PageLoader.TaskContext.{TaskContext}
use tarantula.PageLoader.PageCrawl.{PageCrawlCommand}
use tarantula.PageLoader.Service.Dedup.{mem-dedup_texts, Memᴰ-dedup_links, Memᴰ-retain}
use tarantula.PageLoader.CrawlerEvent.{page_event}
use tarantula.PageLoader.Service.Known.{mem-add_links}
use tarantula.PageLoader.Service.{
  send_all, is_followed, LoadPage, Sent, dedup_links, has_scope, know_page, loads_of,
  consume_crawl_result,
}
use tarantula.PageLoader.Service.Links.{
  send_links-IsServed, IsServed, IsLoadOf, All-map, send_links-IsLoadOf,
}

Memᴰ-kept :
    (p : Link → Bool) (link : Link) (links : List Link)
    → p link ≡ true
    → Memᴰ link links
    → Memᴰ link (retain p links)
Memᴰ-kept p link [] h m = m
Memᴰ-kept p link (a ∷ links) h (Memᴰ.head e) = rw (sym e, h) (Memᴰ.head refl)
Memᴰ-kept p link (a ∷ links) h (Memᴰ.tail m) = elim (Bool-cases (p a)) [
  | inl keep ↦ rw keep (Memᴰ.tail (Memᴰ-kept p link links h m))
  | inr drop ↦ rw drop (Memᴰ-kept p link links h m)
]

followed-has_scope : (link : Link) → is_followed link.scope ≡ true → has_scope link ≡ true
unfolding is_followed has_scope
followed-has_scope link h = ground arith

module _ (crates : Crates) (c : TaskContext crates) (command : PageCrawlCommand) where
  -- The command is new to the task, and the depth of the page that it comes from is allowed.
  abbrev pub IsAllowed : List Link → LoadPage → Type 0
  IsAllowed links load =
      IsLoadOf crates c command (c.all_crawled_links ++ c.all_tasked_links) links load
      × (command.current_depth ≤ c.task_config.maximum_depth)

  allow :
      (known : List Text) (links : List Link) (loads : List LoadPage)
      → ((url : Text) → mem url known ≡ mem url (c.all_crawled_links ++ c.all_tasked_links))
      → command.current_depth ≤ c.task_config.maximum_depth
      → All (IsLoadOf crates c command known (retain has_scope (dedup_links links))) loads
      → All (IsAllowed links) loads
  allow known links loads same bound h = All-map _ _ step loads h
    where
      step :
          (load : LoadPage)
          → IsLoadOf crates c command known (retain has_scope (dedup_links links)) load
          → IsAllowed links load
      step load r = (
        record {
          link = r.link;
          member =
              Memᴰ-dedup_links r.link links
                (Memᴰ-retain has_scope r.link (dedup_links links) r.member);
          followed = r.followed;
          prepared = r.prepared;
          unknown = sym (same load.url) ∙ r.unknown;
        },
        bound,
      )

  pub loads_of-IsAllowed :
      (links : List Link) (loads : List LoadPage)
      → loads_of crates c command (some links) ≡ done loads
      → All (IsAllowed links) loads
  unfolding loads_of
  loads_of-IsAllowed links loads h =
      elim (Bool-cases (leb command.current_depth c.task_config.maximum_depth)) [
        | inl below ↦
            allow _ links loads (λ url. mem-dedup_texts url _) (ground (arith, below))
              (send_links-IsLoadOf crates c command _ _ loads (rw below at h))
        | inr above ↦
            let none_sent : loads ≡ [] = cc in subst (All (IsAllowed links)) (sym none_sent) tt
      ]

  pub loads_of-IsServed :
      (links : List Link) (loads : List LoadPage) (link : Link)
      → command.current_depth ≤ c.task_config.maximum_depth
      → Memᴰ link (dedup_links links)
      → is_followed link.scope ≡ true
      → loads_of crates c command (some links) ≡ done loads
      → IsServed crates c command (c.all_crawled_links ++ c.all_tasked_links) loads link
  unfolding loads_of
  loads_of-IsServed links loads link bound m followed h =
      let below : leb command.current_depth c.task_config.maximum_depth ≡ true =
        ground (arith, bound) in
      let k =
        send_links-IsServed crates c command _ link _ loads
          (Memᴰ-kept has_scope link _ (followed-has_scope link followed) m) followed
          (rw below at h) in
      (k.0, k.1, λ new. k.2 (mem-dedup_texts k.0.url _ ∙ new))

send_all-eq-done :
    (is_open : Bool) (prepared loads : List LoadPage)
    → send_all is_open prepared ≡ done loads
    → loads ≡ prepared
unfolding send_all
send_all-eq-done true prepared loads e = cc
send_all-eq-done false [] loads e = cc
send_all-eq-done false (load ∷ prepared) loads e = cc

module _ (crates : Crates) (c : TaskContext crates) (command : PageCrawlCommand) where
  pub consume_crawl_result-eq-done :
      (is_open : Bool) (page : PageResponse) (links : List Link) (sent : Sent crates)
      → page.links ≡ some links
      → consume_crawl_result crates c command is_open page ≡ done sent
      → (sent.context ≡ know_page crates c page)
        × (sent.events ≡ page_event page ∷ [])
        × (loads_of crates (know_page crates c page) command (some links) ≡ done sent.loads)
  unfolding consume_crawl_result
  consume_crawl_result-eq-done is_open page links sent h e =
      let k = >>=-eq-done (loads_of crates (know_page crates c page) command page.links) _ e in
      let r = >>=-eq-done (send_all is_open k.0) _ k.2 in
      let same : r.0 ≡ k.0 = send_all-eq-done is_open k.0 r.0 r.1 in
      let result : record {
        context = know_page crates c page;
        loads = k.0;
        events = page_event page ∷ [];
      }
          ≡ sent =
        cc in
      subst
        (λ (s : Sent crates).
          (s.context ≡ know_page crates c page)
          × (s.events ≡ page_event page ∷ [])
          × (loads_of crates (know_page crates c page) command (some links) ≡ done s.loads))
        result
        (
          refl,
          refl,
          subst (λ l. loads_of crates (know_page crates c page) command l ≡ done k.0) h k.1,
        )

  -- Where a page with links is consumed without a panic: its URL is crawled from then on, and the
  -- page is the one event. Every command that is sent is prepared from a link of the page whose
  -- scope is followed, its URL is neither crawled nor tasked, and the depth of the page is at most
  -- the limit.
  pub consume_crawl_result-IsAllowed :
      (is_open : Bool) (page : PageResponse) (links : List Link) (sent : Sent crates)
      → page.links ≡ some links
      → consume_crawl_result crates c command is_open page ≡ done sent
      → (mem page.original_requested_url sent.context.all_crawled_links ≡ true)
        × (sent.events ≡ page_event page ∷ [])
        × All (IsAllowed crates sent.context command links) sent.loads
  unfolding consume_crawl_result know_page
  consume_crawl_result-IsAllowed is_open page links sent h e =
      let k = consume_crawl_result-eq-done is_open page links sent h e in
      subst
        (λ (d : TaskContext crates).
          (mem page.original_requested_url d.all_crawled_links ≡ true)
          × (sent.events ≡ page_event page ∷ [])
          × All (IsAllowed crates d command links) sent.loads)
        (sym k.0)
        (
          mem-add_links c.all_crawled_links page,
          k.1,
          loads_of-IsAllowed crates (know_page crates c page) command links sent.loads k.2,
        )

  -- No link is lost: where a page is consumed without a panic and its depth is at most the limit,
  -- every link that is followed, of neighbours with one URI the first, has its command sent unless
  -- the URL is known.
  pub consume_crawl_result-IsServed :
      (is_open : Bool) (page : PageResponse) (links : List Link) (sent : Sent crates) (link : Link)
      → page.links ≡ some links
      → command.current_depth ≤ c.task_config.maximum_depth
      → Memᴰ link (dedup_links links)
      → is_followed link.scope ≡ true
      → consume_crawl_result crates c command is_open page ≡ done sent
      → IsServed crates sent.context command
          (sent.context.all_crawled_links ++ sent.context.all_tasked_links)
          sent.loads
          link
  unfolding know_page
  consume_crawl_result-IsServed is_open page links sent link has bound m followed e =
      let k = consume_crawl_result-eq-done is_open page links sent has e in
      subst
        (λ (d : TaskContext crates).
          IsServed crates d command (d.all_crawled_links ++ d.all_tasked_links) sent.loads link)
        (sym k.0)
        (loads_of-IsServed crates (know_page crates c page) command links sent.loads link bound m
          followed k.2)
