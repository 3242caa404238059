-- ===== src/PageLoader/HttpClientImpl/Rate.antt =====
-- How far the requests of a client of http_client.rs are apart.
use tarantula.Base.{
  subst, sym, false, false, ℕ, zero, suc, ◌+◌, ◌*◌, ◌<◌, ◌≤◌, ◌≡◌, refl, List, [], ◌∷◌, done, arith,
  Text, length, All,
}
use tarantula.PageLoader.HttpClientImpl.{
  HttpClientImpl, new, is_blocked, Run, start_of, wait, send, answer, Reachable, fresh, waits,
  sends, answers, IsSerial,
}

-- Each start is more than the given number of milliseconds after the one before it.
abbrev pub IsSpaced : ℕ → List ℕ → Type 0
IsSpaced rate [] = Unit {0}
IsSpaced rate (t ∷ []) = Unit {0}
IsSpaced rate (t ∷ u ∷ starts) = (u + rate * 1_000_000 < t) × IsSpaced rate (u ∷ starts)

abbrev NotAfter : ℕ → List ℕ → Type 0
NotAfter limit [] = Unit {0}
NotAfter limit (t ∷ starts) = t ≤ limit

-- What the requests keep: the last start is not after the last answer, once that is there.
record IsKept (rate : ℕ) (s : Run) : Type 0 where
  spaced : IsSpaced rate s.starts
  limit : s.client.rate_limiting_ms ≡ rate
  past : NotAfter s.now s.starts
  stamp : s.client.last_request_timestamp ≤ s.now
  answered : s.in_flight ≡ 0 → NotAfter s.client.last_request_timestamp s.starts

NotAfter-trans : (a b : ℕ) (starts : List ℕ) → a ≤ b → NotAfter a starts → NotAfter b starts
NotAfter-trans a b [] h k = tt
NotAfter-trans a b (t ∷ starts) h k = omega (arith, h, k)

is_blocked-gap :
    (client : HttpClientImpl) (now t : ℕ)
    → is_blocked client now ≡ false
    → t ≤ client.last_request_timestamp
    → t + client.rate_limiting_ms * 1_000_000 < now
unfolding is_blocked
is_blocked-gap client now t h k = ground (arith, h, k)

IsSpaced-cons :
    (client : HttpClientImpl) (rate now : ℕ) (starts : List ℕ)
    → client.rate_limiting_ms ≡ rate
    → is_blocked client now ≡ false
    → NotAfter client.last_request_timestamp starts
    → IsSpaced rate starts
    → IsSpaced rate (now ∷ starts)
IsSpaced-cons client rate now [] limit free k spaced = tt
IsSpaced-cons client rate now (t ∷ starts) limit free k spaced =
    (subst (λ r. t + r * 1_000_000 < now) limit (is_blocked-gap client now t free k), spaced)

new-stamp :
    (user_agent : Text) (rate now : ℕ) (client : HttpClientImpl)
    → new user_agent rate now ≡ done client
    → (client.rate_limiting_ms ≡ rate) × (client.last_request_timestamp ≤ now)
unfolding new
new-stamp user_agent rate now client made = ground (arith, made)

reachable-IsKept : {rate : ℕ} {s : Run} (r : Reachable rate s) → IsSerial r → IsKept rate s
unfolding new start_of wait send answer
reachable-IsKept {rate} (fresh user_agent now client made) h = record {
  spaced = tt;
  limit = (new-stamp user_agent rate now client made).0;
  past = tt;
  stamp = (new-stamp user_agent rate now client made).1;
  answered = λ e. tt;
}
reachable-IsKept (waits s duration r) h =
    let k = reachable-IsKept r h in
    record {
      spaced = k.spaced;
      limit = k.limit;
      past = NotAfter-trans s.now (s.now + duration) s.starts (omega arith) k.past;
      stamp = omega (arith, k.stamp);
      answered = k.answered;
    }
reachable-IsKept {rate} (sends s r free) h =
    let k = reachable-IsKept r h.1 in
    record {
      spaced = IsSpaced-cons s.client rate s.now s.starts k.limit free (k.answered h.0) k.spaced;
      limit = k.limit;
      past = omega arith;
      stamp = k.stamp;
      answered = λ e. absurd (omega (arith, e));
    }
reachable-IsKept (answers s others r waiting) h =
    let k = reachable-IsKept r h in
    record {
      spaced = k.spaced;
      limit = k.limit;
      past = k.past;
      stamp = omega arith;
      answered = λ e. k.past;
    }

-- Where no request is sent before the one before it is answered, each is sent more than the rate
-- limit after the one before it.
pub serial-IsSpaced :
    (rate : ℕ) (s : Run) (r : Reachable rate s) → IsSerial r → IsSpaced rate s.starts
serial-IsSpaced rate s r h = (reachable-IsKept r h).spaced

record IsBurst (rate n now : ℕ) (client : HttpClientImpl) : Type 0 where
  run : Run
  reachable : Reachable rate run
  same_client : run.client ≡ client
  same_now : run.now ≡ now
  many : length run.starts ≡ n
  at_once : All (λ t. t ≡ now) run.starts

burst :
    (rate n now : ℕ) (client : HttpClientImpl) (s : Run)
    → Reachable rate s
    → s.client ≡ client
    → s.now ≡ now
    → s.starts ≡ []
    → is_blocked client now ≡ false
    → IsBurst rate n now client
unfolding send
burst rate zero now client s r c t e free = record {
  run = s;
  reachable = r;
  same_client = c;
  same_now = t;
  many = rw e refl;
  at_once = rw e tt;
}
burst rate (suc n) now client s r c t e free =
    let b = burst rate n now client s r c t e free in
    record {
      run = send b.run;
      reachable = sends b.run b.reachable (rw (b.same_client, b.same_now) free);
      same_client = b.same_client;
      same_now = b.same_now;
      many = omega (arith, b.many);
      at_once = (b.same_now, b.at_once);
    }

new-origin :
    (user_agent : Text) (rate : ℕ)
    → new user_agent rate (rate * 1_000_000)
      ≡ done
          (record { user_agent = user_agent; rate_limiting_ms = rate; last_request_timestamp = 0 })
unfolding new
new-origin user_agent rate = ground arith

later :
    (rate : ℕ) (client : HttpClientImpl)
    → client.rate_limiting_ms ≡ rate
    → client.last_request_timestamp ≡ 0
    → is_blocked client (rate * 1_000_000 + 1_000_000) ≡ false
unfolding is_blocked
later rate client e f = ground (arith, e, f)

-- Where requests need not wait for the answer to the one before, the limit holds back nothing: any
-- number of requests of one client may be sent at one instant, whatever the rate limit.
pub reachable-burst :
    (user_agent : Text) (rate n : ℕ)
    → (s : Run) × Reachable rate s × (length s.starts ≡ n) × All (λ t. t ≡ s.now) s.starts
unfolding start_of wait
reachable-burst user_agent rate n =
    let client : HttpClientImpl = record {
      user_agent = user_agent;
      rate_limiting_ms = rate;
      last_request_timestamp = 0;
    } in
    let now = rate * 1_000_000 in
    let made : new user_agent rate now ≡ done client = new-origin user_agent rate in
    let b =
      burst rate n (now + 1_000_000) client (wait (start_of client now) 1_000_000)
        (waits _ 1_000_000 (fresh user_agent now client made)) refl refl refl
        (later rate client refl refl) in
    (
      b.run,
      b.reachable,
      b.many,
      subst (λ u. All (λ t. t ≡ u) b.run.starts) (sym b.same_now) b.at_once,
    )
