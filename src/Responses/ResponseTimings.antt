-- ===== src/Responses/ResponseTimings.antt =====
-- responses/src/response_timings.rs. A time is a number; the clock's reading is an argument.
use tarantula.Base.{ℕ, Option, none, some, Text, Outcome, done, ◌>>=◌, unwrap}

pub record ResponseTimings : Type 0 where
  pub start_time : Option ℕ
  pub end_time : Option ℕ
  pub name : Text

unfoldable pub new : ℕ → Text → ResponseTimings
new now name = record { start_time = some now; end_time = none; name = name }

unfoldable pub from : Text → ℕ → ℕ → ResponseTimings
from name start_time end_time = record {
  start_time = some start_time;
  end_time = some end_time;
  name = name;
}

-- What `serialize` writes of a `ResponseTimings`, before the times are printed: a time that is
-- missing makes it panic.
unfoldable pub serialize : ResponseTimings → Outcome (ℕ × ℕ × Text)
serialize t = do
  start_time ← unwrap t.start_time
  end_time ← unwrap t.end_time
  done (start_time, end_time, t.name)
