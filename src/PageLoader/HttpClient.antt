-- ===== src/PageLoader/HttpClient.antt =====
-- page_loader/src/http/http_client.rs: what its clients see of it, the trait `HttpClient`, over a
-- state of the world that also holds the clock.
use tarantula.Base.{ℕ, List, Option, Text}

-- What the program reads of hyper's `Response<Body>`. A header has no value here if `to_str` fails
-- on it, and a body that cannot be read is `none`.
pub record Response : Type 0 where
  pub status : ℕ
  pub headers : List (Text × Option Text)
  pub body : Option Text

-- `hyper::Result`, with an error as the text that it prints.
pub data HttpResult : Type 0 where
  ok : Response → HttpResult
  err : Text → HttpResult

pub record HttpClient (W : Type 0) : Type 0 where
  pub now : W → ℕ × W
  pub head : Text → Option Text → W → HttpResult × W
  pub get : Text → Option Text → W → HttpResult × W
