-- ===== src/Server/Http.antt =====
-- server/src/http.rs: `process`, which receives the events of a task and posts them to the callback
-- URLs of its run configuration. The channel is the list of the events that come until it closes.
pub mod Callbacks
pub mod Payloads
pub mod Total
pub mod Delivered
pub mod Route
pub mod Unserved
use tarantula.Base.{
  ℕ, Bool, true, false, List, [], ◌∷◌, ◌++◌, Option, none, some, Outcome, done, panic, unwrap, Text,
  ◌>>=◌,
}
use tarantula.Base.Io
use tarantula.Base.Io.{Io, pure, lift, action}
use tarantula.Crates.{Crates}
use tarantula.Responses.ResponseTimings.{serialize}
use tarantula.Responses.Redirect.{Redirect}
use tarantula.Responses.HeadResponse.{HeadResponse}
use tarantula.Responses.GetResponse.{GetResponse}
use tarantula.Responses.PageResponse.{PageResponse, CompleteResponse}
use tarantula.Responses.RunConfig.{RunConfig}
use tarantula.PageLoader.HttpClient.{HttpResult, ok, err}
use tarantula.PageLoader.CrawlerEvent.{CrawlerEvent, page_event, complete_event}

-- What is turned into JSON.
pub data Payload : Type 0 where
  page_payload : PageResponse → Payload
  complete_payload : CompleteResponse → Payload

pub record Post : Type 0 where
  pub user_agent : Text
  pub url : Text
  pub payload : Payload

-- hyper: a header's value may be refused, and a request may fail.
pub record CallbackClient (W : Type 0) : Type 0 where
  pub is_header_value : Text → Bool
  pub request : Post → W → HttpResult × W

-- `to_string(…).unwrap()`: the derived serialisation reaches the timings of every part, which panic
-- if a time is missing. The results are what is written of the timings.
abbrev Times : Type 0
Times = ℕ × ℕ × Text

unfoldable pub serialize_redirects : List Redirect → Outcome (List Times)
serialize_redirects [] = done []
serialize_redirects (r ∷ redirects) = do
  times ← serialize r.response_timings
  rest ← serialize_redirects redirects
  done (times ∷ rest)

unfoldable pub serialize_head : Option HeadResponse → Outcome (List Times)
unfolding serialize_redirects
serialize_head none = done []
serialize_head (some head) = do
  redirects ← serialize_redirects head.redirects
  times ← serialize head.response_timings
  done (times ∷ redirects)

unfoldable pub serialize_get : Option GetResponse → Outcome (List Times)
serialize_get none = done []
serialize_get (some get) = do times ← serialize get.response_timings; done (times ∷ [])

unfoldable pub page_to_string : PageResponse → Outcome Payload
unfolding serialize_head serialize_get
page_to_string page = do
  head ← serialize_head page.head
  get ← serialize_get page.get
  times ← serialize page.response_timings
  done (page_payload page)

module _ {W : Type 0} (crates : Crates) (client : CallbackClient W) (run_config : RunConfig) where
  -- The request, built with `expect`.
  unfoldable pub build_post : Text → Payload → Outcome Post
  build_post callback_url payload = do
    user_agent ← unwrap run_config.user_agent
    uri ← unwrap (crates.parse_uri callback_url)
    elim (client.is_header_value user_agent) [
      | false ↦ panic
      | true ↦ done (record { user_agent = user_agent; url = callback_url; payload = payload })
    ]

  unfoldable pub send_post : Post → Io W (List Post)
  send_post post =
      Io.◌>>=◌ (action (client.request post))
        λ result. elim result [ ok response ↦ pure (post ∷ []) | err message ↦ lift panic ]

  -- The posts that one event leads to.
  unfoldable pub call_back : Option Text → Payload → Io W (List Post)
  unfolding build_post send_post
  call_back none payload = pure []
  call_back (some callback_url) payload =
      Io.◌>>=◌ (lift (build_post callback_url payload)) λ post. send_post post

  -- The loop over the events, with all that it posts; a complete event ends it.
  unfoldable pub process_events : List CrawlerEvent → Io W (List Post)
  unfolding page_to_string call_back
  process_events [] = pure []
  process_events (page_event page ∷ events) = Io.◌>>=◌ (lift (page_to_string page)) λ payload.
      Io.◌>>=◌ (call_back run_config.callback_url payload)
        λ posts. Io.◌>>=◌ (process_events events) λ rest. pure (posts ++ rest)
  process_events (complete_event uuid ∷ events) =
      call_back run_config.callback_url_finished (complete_payload (record { uuid = uuid }))
