-- ===== src/PageLoader/HttpClientImpl.antt =====
-- page_loader/src/http/http_client.rs: `HttpClientImpl`, which limits the rate of its requests. The
-- requests of one client are steps on its state: time passes, a request leaves the waiting loop and
-- is sent, an answer comes. Instants are in nanoseconds; the requests themselves are hyper's.
pub mod Rate
use tarantula.Base.{
  ℕ, zero, suc, ◌+◌, ◌-◌, ◌*◌, ◌/◌, ◌≡◌, Bool, true, false, List, [], ◌∷◌, ◌++◌, Option, none, some,
  Outcome, done, panic, if◌then◌else◌, leb, Text, codes,
}

pub record HttpClientImpl : Type 0 where
  pub user_agent : Text
  pub rate_limiting_ms : ℕ
  pub last_request_timestamp : ℕ

-- `new`, at an instant: the subtraction of a duration panics where it would pass the clock's origin.
unfoldable pub new : Text → ℕ → ℕ → Outcome HttpClientImpl
new user_agent rate_limiting_ms now =
    if leb (rate_limiting_ms * 1_000_000) now
    then done (record {
      user_agent = user_agent;
      rate_limiting_ms = rate_limiting_ms;
      last_request_timestamp = now - rate_limiting_ms * 1_000_000;
    })
    else panic

unfoldable pub is_blocked : HttpClientImpl → ℕ → Bool
is_blocked client now =
    leb ((now - client.last_request_timestamp) / 1_000_000) client.rate_limiting_ms

-- The header of a request.
unfoldable pub user_agent_string : HttpClientImpl → Option Text → Text
user_agent_string client none = client.user_agent
user_agent_string client (some robots_txt_info_url) =
    client.user_agent ++ codes " +" ++ robots_txt_info_url

-- The clock, how many requests wait for an answer, and when requests were sent, the last one first.
pub record Run : Type 0 where
  pub client : HttpClientImpl
  pub now : ℕ
  pub in_flight : ℕ
  pub starts : List ℕ

unfoldable pub start_of : HttpClientImpl → ℕ → Run
start_of client now = record { client = client; now = now; in_flight = 0; starts = [] }

unfoldable pub wait : Run → ℕ → Run
wait s duration = record s { now = s.now + duration }

-- `send_request` after its loop, up to the request.
unfoldable pub send : Run → Run
send s = record s { in_flight = suc s.in_flight; starts = s.now ∷ s.starts }

-- `send_request` after the answer.
unfoldable pub answer : Run → Run
answer s = record s {
  client = record s.client { last_request_timestamp = s.now };
  in_flight = s.in_flight - 1;
}

-- The calls of `send_request` of one client, any number at a time. The loop is left when the client
-- is not blocked.
pub data Reachable (rate : ℕ) : Run → Type 0 where
  fresh :
      (user_agent : Text) (now : ℕ) (client : HttpClientImpl)
      → new user_agent rate now ≡ done client
      → Reachable rate (start_of client now)
  waits : (s : Run) (duration : ℕ) → Reachable rate s → Reachable rate (wait s duration)
  sends : (s : Run) → Reachable rate s → is_blocked s.client s.now ≡ false → Reachable rate (send s)
  answers :
      (s : Run) (others : ℕ)
      → Reachable rate s
      → s.in_flight ≡ suc others
      → Reachable rate (answer s)

-- The same, where no request is sent before the one before it is answered.
abbrev pub IsSerial : {rate : ℕ} {s : Run} → Reachable rate s → Type 0
IsSerial (fresh user_agent now client made) = Unit {0}
IsSerial (waits s duration r) = IsSerial r
IsSerial (sends s r open_now) = (s.in_flight ≡ 0) × IsSerial r
IsSerial (answers s others r waiting) = IsSerial r
