-- ===== src/Server/Http/Callbacks.antt =====
-- What `process` of server/src/http.rs posts, when it does not panic.
use mathlib.Core.List.{append_assoc}
use tarantula.Base.{
  subst, unwrap, ◌≡◌, refl, sym, ◌∙◌, ap, Bool, true, false, List, [], ◌∷◌, ◌++◌, Option, none,
  some, done, panic, Text, >>=-eq-done,
}
use tarantula.Base.Io.{
  lift, pure, Ensures, Ensures->>=, Ensures-then, Ensures-pure, Ensures-lift, Ensures-mono,
}
use tarantula.Crates.{Crates}
use tarantula.Responses.PageResponse.{PageResponse}
use tarantula.Responses.RunConfig.{RunConfig}
use tarantula.PageLoader.HttpClient.{HttpResult, ok, err}
use tarantula.PageLoader.CrawlerEvent.{CrawlerEvent, page_event, complete_event}
use tarantula.Server.Http.{
  serialize, Payload, page_payload, complete_payload, Post, CallbackClient, page_to_string,
  serialize_head, serialize_get, build_post, send_post, call_back, process_events,
}

-- The payloads of the events up to the first complete event.
abbrev pub pages : List CrawlerEvent → List Payload
pages [] = []
pages (page_event page ∷ events) = page_payload page ∷ pages events
pages (complete_event uuid ∷ events) = []

abbrev pub completion : List CrawlerEvent → List Payload
completion [] = []
completion (page_event page ∷ events) = completion events
completion (complete_event uuid ∷ events) = complete_payload (record { uuid = uuid }) ∷ []

-- Every payload goes to the URL, if there is one, under the user agent.
abbrev pub posts_to : Option Text → Option Text → List Payload → List Post
posts_to none user_agent payloads = []
posts_to (some url) none payloads = []
posts_to (some url) (some user_agent) [] = []
posts_to (some url) (some user_agent) (payload ∷ payloads) =
    record { user_agent = user_agent; url = url; payload = payload }
    ∷ posts_to (some url) (some user_agent) payloads

posts_to-nil : (url agent : Option Text) → posts_to url agent [] ≡ []
posts_to-nil none agent = refl
posts_to-nil (some url) none = refl
posts_to-nil (some url) (some agent) = refl

posts_to-cons :
    (url agent : Option Text) (payload : Payload) (payloads : List Payload)
    → posts_to url agent (payload ∷ payloads)
      ≡ posts_to url agent (payload ∷ []) ++ posts_to url agent payloads
posts_to-cons none agent payload payloads = refl
posts_to-cons (some url) none payload payloads = refl
posts_to-cons (some url) (some agent) payload payloads = refl

page_to_string-eq :
    (page : PageResponse) (payload : Payload)
    → page_to_string page ≡ done payload
    → payload ≡ page_payload page
unfolding page_to_string
page_to_string-eq page payload h =
    let a = >>=-eq-done (serialize_head page.head) _ h in
    let b = >>=-eq-done (serialize_get page.get) _ a.2 in
    let c = >>=-eq-done (serialize page.response_timings) _ b.2 in
    let e : page_payload page ≡ payload = cc in sym e

module _ {W : Type 0} (crates : Crates) (client : CallbackClient W) (run_config : RunConfig) where
  build_post-posts :
      (url : Text) (payload : Payload) (post : Post)
      → build_post crates client run_config url payload ≡ done post
      → post ∷ [] ≡ posts_to (some url) run_config.user_agent (payload ∷ [])
  unfolding build_post
  build_post-posts url payload post h =
      let a = >>=-eq-done (unwrap run_config.user_agent) _ h in
      let b = >>=-eq-done (unwrap (crates.parse_uri url)) _ a.2 in
      let found : run_config.user_agent ≡ some a.0 = unwrap-eq run_config.user_agent a.0 a.1 in
      subst (λ agent. post ∷ [] ≡ posts_to (some url) agent (payload ∷ [])) (sym found)
        (ap (λ q. q ∷ [])
          (sym (
            tested (client.is_header_value a.0)
              (record { user_agent = a.0; url = url; payload = payload }) post b.2)))
    where
      unwrap-eq : (o : Option Text) (x : Text) → unwrap o ≡ done x → o ≡ some x
      unwrap-eq none x e = cc
      unwrap-eq (some y) x e = cc

      tested :
          (b : Bool) (made got : Post)
          → elim b [ false ↦ panic | true ↦ done made ] ≡ done got
          → made ≡ got
      tested true made got e = cc
      tested false made got e = cc

  send_post-posts :
      (post : Post) → Ensures (λ posts. posts ≡ post ∷ []) (send_post crates client run_config post)
  unfolding send_post
  send_post-posts post = Ensures-then _ λ result. answered result
    where
      answered :
          (result : HttpResult)
          → Ensures {W = W}
              (λ posts. posts ≡ post ∷ [])
              (elim result [ ok response ↦ pure (post ∷ []) | err message ↦ lift panic ])
      answered (ok response) = Ensures-pure _ refl
      answered (err message) = Ensures-mono (λ a e. cc) (Ensures-lift panic)

  call_back-posts :
      (url : Option Text) (payload : Payload)
      → Ensures
          (λ posts. posts ≡ posts_to url run_config.user_agent (payload ∷ []))
          (call_back crates client run_config url payload)
  unfolding call_back
  call_back-posts none payload = Ensures-pure _ refl
  call_back-posts (some url) payload =
      Ensures->>= _ (Ensures-lift (build_post crates client run_config url payload)) λ post made.
        Ensures-mono (λ posts e. e ∙ build_post-posts url payload post made) (send_post-posts post)

  -- What the events are to lead to: every page up to the first complete event is posted to the
  -- callback URL, and the completion to the other one.
  abbrev pub expected : List CrawlerEvent → List Post
  expected events =
      posts_to run_config.callback_url run_config.user_agent (pages events)
      ++ posts_to run_config.callback_url_finished run_config.user_agent (completion events)

  joined :
      (page : PageResponse) (events : List CrawlerEvent) (payload : Payload)
      (posts rest : List Post)
      → payload ≡ page_payload page
      → posts ≡ posts_to run_config.callback_url run_config.user_agent (payload ∷ [])
      → rest ≡ expected events
      → posts ++ rest ≡ expected (page_event page ∷ events)
  joined page events payload posts rest p first others =
      let agent = run_config.user_agent in
      let done_posts = posts_to run_config.callback_url_finished agent (completion events) in
      ap (λ front. front ++ rest) first
      ∙ ap (λ x. posts_to run_config.callback_url agent (x ∷ []) ++ rest) p
      ∙ ap (λ back. posts_to run_config.callback_url agent (page_payload page ∷ []) ++ back) others
      ∙ sym (
          append_assoc (posts_to run_config.callback_url agent (page_payload page ∷ []))
            (posts_to run_config.callback_url agent (pages events)) done_posts)
      ∙ ap (λ front. front ++ done_posts)
          (sym (posts_to-cons run_config.callback_url agent (page_payload page) (pages events)))

  process-Ensures :
      (events : List CrawlerEvent)
      → Ensures (λ posts. posts ≡ expected events) (process_events crates client run_config events)
  unfolding process_events
  process-Ensures [] = Ensures-pure _ (
      sym (
        ap (λ front. front ++ posts_to run_config.callback_url_finished run_config.user_agent [])
          (posts_to-nil run_config.callback_url run_config.user_agent)
        ∙ posts_to-nil run_config.callback_url_finished run_config.user_agent))
  process-Ensures (page_event page ∷ events) =
      Ensures->>= _ (Ensures-lift (page_to_string page)) λ payload written.
        Ensures->>= _ (call_back-posts run_config.callback_url payload) λ posts first.
          Ensures->>= _ (process-Ensures events) λ rest others. Ensures-pure _ (
            joined page events payload posts rest (page_to_string-eq page payload written) first
              others)
  process-Ensures (complete_event uuid ∷ events) =
      Ensures-mono
        (λ posts e.
          e
          ∙ ap
              (λ front.
                front
                ++ posts_to run_config.callback_url_finished run_config.user_agent
                    (complete_payload (record { uuid = uuid }) ∷ []))
              (sym (posts_to-nil run_config.callback_url run_config.user_agent)))
        (call_back-posts run_config.callback_url_finished
          (complete_payload (record { uuid = uuid })))

  -- Where no step panics, the posts are those of the pages up to the first complete event, to the
  -- callback URL, in their order, and that of the completion, to the URL for it; without a URL
  -- there is none.
  pub process_events-expected :
      (events : List CrawlerEvent) (w w' : W) (posts : List Post)
      → process_events crates client run_config events w ≡ done (posts, w')
      → posts ≡ expected events
  process_events-expected events w w' posts e = (process-Ensures events).apply w w' posts e
