-- ===== src/Server/Http/Total.antt =====
-- When `process` of server/src/http.rs does not panic.
use tarantula.Base.{
  ◌⊎◌, ◌≡◌, ◌≢◌, refl, true, List, [], ◌∷◌, ◌++◌, Option, none, some, Outcome, done, panic, Text,
  All, inl, inr, Option-cases,
}
use tarantula.Base.Io
use tarantula.Base.Io.{Io, pure, lift, action}
use tarantula.Crates.{Crates}
use tarantula.Responses.RunConfig.{RunConfig}
use tarantula.PageLoader.HttpClient.{Response, ok}
use tarantula.PageLoader.CrawlerEvent.{CrawlerEvent, page_event, complete_event}
use tarantula.Server.Http.{
  Payload, Post, CallbackClient, page_to_string, build_post, send_post, call_back, process_events,
}

-- No state of the world makes it panic.
abbrev IsTotal : {W A : Type 0} → Io W A → Type 0
IsTotal {W} m = (w : W) → m w ≢ panic

>>=-IsTotal :
    {W A B : Type 0} (m : Io W A) (f : A → Io W B)
    → IsTotal m
    → ((a : A) → IsTotal (f a))
    → IsTotal (Io.◌>>=◌ m f)
unfolding Io.◌>>=◌
>>=-IsTotal {W} {A} {B} m f h k w = go (m w) (h w)
  where
    go :
        (o : Outcome (A × W))
        → o ≢ panic
        → (elim o [ panic ↦ panic | done (a, w1) ↦ f a w1 ]) ≢ panic
    go panic n = absurd (n refl)
    go (done (a, w1)) n = k a w1

pure-IsTotal : {W A : Type 0} (a : A) → IsTotal (pure {W = W} a)
unfolding pure
pure-IsTotal a w = λ e. cc

lift-IsTotal : {W A : Type 0} (o : Outcome A) → o ≢ panic → IsTotal (lift {W = W} o)
unfolding lift
lift-IsTotal panic h w = absurd (h refl)
lift-IsTotal (done a) h w = λ e. cc

-- A page that can be turned into JSON.
abbrev pub IsWritable : CrawlerEvent → Type 0
IsWritable (page_event page) = page_to_string page ≢ panic
IsWritable (complete_event uuid) = Unit {0}

module _ {W : Type 0} (crates : Crates) (client : CallbackClient W) (run_config : RunConfig) where
  -- The configuration can be posted with: there is a user agent that is a header's value, the
  -- callback URLs are URIs, and every request is answered.
  pub record IsPostable : Type 0 where
    pub agent : Text
    pub has_agent : run_config.user_agent ≡ some agent
    pub valid : client.is_header_value agent ≡ true
    pub parses :
        (url : Text)
        → (run_config.callback_url ≡ some url) ⊎ (run_config.callback_url_finished ≡ some url)
        → crates.parse_uri url ≢ none
    pub answered :
        (post : Post) (w : W)
        → (response : Response) × (w' : W) × (client.request post w ≡ (ok response, w'))

  send_post-IsTotal : IsPostable → (post : Post) → IsTotal (send_post crates client run_config post)
  unfolding send_post Io.◌>>=◌ action pure
  send_post-IsTotal h post w = let (response, w', e) = h.answered post w in rw e (λ p. cc)

  build_post-ne-panic :
      (url : Text) (payload : Payload)
      → IsPostable
      → crates.parse_uri url ≢ none
      → build_post crates client run_config url payload ≢ panic
  unfolding build_post
  build_post-ne-panic url payload h parses = elim (Option-cases (crates.parse_uri url)) [
    | inl bad ↦ absurd (parses bad)
    | inr (uri, good) ↦ rw (h.has_agent, good, h.valid) (λ p. cc)
  ]

  call_back-IsTotal :
      (url : Option Text) (payload : Payload)
      → IsPostable
      → ((u : Text) → url ≡ some u → crates.parse_uri u ≢ none)
      → IsTotal (call_back crates client run_config url payload)
  unfolding call_back
  call_back-IsTotal none payload h parses = pure-IsTotal []
  call_back-IsTotal (some url) payload h parses =
      >>=-IsTotal (lift (build_post crates client run_config url payload)) _
        (lift-IsTotal _ (build_post-ne-panic url payload h (parses url refl)))
        λ post. send_post-IsTotal h post

  process_events-IsTotal :
      (events : List CrawlerEvent)
      → IsPostable
      → All IsWritable events
      → IsTotal (process_events crates client run_config events)
  unfolding process_events
  process_events-IsTotal [] h k = pure-IsTotal []
  process_events-IsTotal (page_event page ∷ events) h k =
      >>=-IsTotal (lift (page_to_string page)) _ (lift-IsTotal _ k.0) λ payload.
        >>=-IsTotal (call_back crates client run_config run_config.callback_url payload) _
          (call_back-IsTotal run_config.callback_url payload h (λ u e. h.parses u (inl e)))
          λ posts.
            >>=-IsTotal (process_events crates client run_config events) _
              (process_events-IsTotal events h k.1) λ rest. pure-IsTotal (posts ++ rest)
  process_events-IsTotal (complete_event uuid ∷ events) h k =
      call_back-IsTotal run_config.callback_url_finished _ h (λ u e. h.parses u (inr e))

  -- If the run configuration has a user agent that is a header's value, its callback URLs are
  -- URIs, every request is answered and every page can be turned into JSON, the loop over the
  -- events never panics.
  pub process_events-ne-panic :
      (events : List CrawlerEvent) (w : W)
      → IsPostable
      → All IsWritable events
      → process_events crates client run_config events w ≢ panic
  process_events-ne-panic events w h k = process_events-IsTotal events h k w
