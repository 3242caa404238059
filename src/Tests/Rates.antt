-- ===== src/Tests/Rates.antt =====
-- The rate limit of the HTTP client at concrete instants.
use tarantula.Base.{◌≡◌, refl, Text, codes, length, All}
use tarantula.PageLoader.HttpClientImpl.{
  HttpClientImpl, new, is_blocked, start_of, wait, send, answer, Run, Reachable, fresh, waits,
  sends, answers,
}
use tarantula.PageLoader.HttpClientImpl.Rate.{IsSpaced, serial-IsSpaced, reachable-burst}

abbrev agent : Text
agent = codes "tarantula"

abbrev client : HttpClientImpl
client = record { user_agent = agent; rate_limiting_ms = 5; last_request_timestamp = 5_000_000 }

abbrev run_of_two : Run
run_of_two =
    send (
      wait (answer (wait (send (wait (start_of client 10_000_000) 1_000_000)) 2_000_000)) 6_000_000)

run_of_two-Reachable : Reachable 5 run_of_two
unfolding new is_blocked start_of wait send answer
run_of_two-Reachable =
    sends _
      (waits _ 6_000_000 (
        answers _ 0
          (waits _ 2_000_000
            (sends _ (waits _ 1_000_000 (fresh agent 10_000_000 client refl)) refl))
          refl))
      refl

serial-IsSpaced_example : IsSpaced 5 run_of_two.starts
unfolding new is_blocked start_of wait send answer run_of_two-Reachable
serial-IsSpaced_example = serial-IsSpaced 5 run_of_two run_of_two-Reachable (refl, (refl, tt))

reachable-burst_example :
    (s : Run) × Reachable 500 s × (length s.starts ≡ 3) × All (λ t. t ≡ s.now) s.starts
reachable-burst_example = reachable-burst agent 500 3
