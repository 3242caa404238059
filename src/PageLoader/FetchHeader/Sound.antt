-- ===== src/PageLoader/FetchHeader/Sound.antt =====
-- `fetch_header` of fetch_header_command.rs as a whole: its recursion ends, and what it returns is
-- sound.
use tarantula.Base.{
  unwrap, false, ◌+◌, suc, codes, All-append, length-append, Bool, arith, last-append, true, done,
  ltb, ◌<◌, ℕ, ◌≤◌, ◌≡◌, ◌≢◌, refl, subst, List, [], ◌∷◌, Option, none, some, length, Text,
}
use tarantula.Base.Io.{
  Ensures-mono, lift, Ensures-lift, pure, Ensures-option, Ensures-test, Ensures->>=, Io, Ensures,
  Ensures-then, Ensures-pure,
}
use tarantula.Crates.{Crates}
use tarantula.Responses.Redirect.{Redirect}
use tarantula.Responses.HeadResponse.{HeadResponse, get_final_uri}
use tarantula.PageLoader.HttpClient.{HttpClient, Response}
use tarantula.PageLoader.FetchHeader.{
  LinkTypeChecker, fetch_header, fetch_from, ok, err, HttpResult, lookup, can_process_redirects,
  fetch_round, follow, append_redirect, finish, next_uri, num_redirects, HeadResponseResult,
  head_ok, head_err, or_empty, make_redirect,
}
use tarantula.Base.{zero}
use tarantula.PageLoader.FetchHeader.Chain.{
  IsChain-append, IsTimed, IsTimed-from, IsSound, IsSoundResult, IsLinked, get_final_uri-eq,
}

module _ {W : Type 0} (crates : Crates) (client : HttpClient W)
    (checker : LinkTypeChecker crates.Regex) where
  make_redirect-Ensures :
      (uri : Text) (response : Response) (headers : List (Text × Text)) (location : Option Text)
      (start_time : ℕ)
      → Ensures
          (λ (r : Redirect). (r.source ≡ uri) × IsTimed r.response_timings)
          (make_redirect crates client checker uri response headers location start_time)
  unfolding make_redirect
  make_redirect-Ensures uri response headers location start_time = Ensures-then _ λ uri_object.
      Ensures-then _ λ scheme. Ensures-then _ λ text. Ensures-then _ λ host_name.
        Ensures-then _ λ adjusted_uri. Ensures-then _ λ label.
          Ensures-then _ λ end_time. Ensures-pure _ (refl, IsTimed-from _ start_time end_time)

  module _ (url : Text) (maximum : ℕ) where
    IsReady : Option (List Redirect) → Type 0
    IsReady redirects =
        (uri : Text) × (next_uri url redirects ≡ done uri) × IsLinked url maximum redirects uri

    append_redirect-Ensures :
        (redirects : Option (List Redirect)) (uri : Text) (response : Response)
        (headers : List (Text × Text)) (location : Option Text) (start_time : ℕ)
        → IsLinked url maximum redirects uri
        → length (or_empty redirects) < maximum
        → Ensures
            (λ next. IsReady (some next) × (length (or_empty redirects) < length next))
            (append_redirect crates client checker redirects uri response headers location
              start_time)
    unfolding append_redirect next_uri or_empty IsReady
    append_redirect-Ensures redirects uri response headers location start_time linked room =
        Ensures->>= _ (make_redirect-Ensures uri response headers location start_time) λ r good.
          Ensures-pure _ (
            (
              r.destination,
              rw (last-append (or_empty redirects) r, next_uri),
              record {
                chain = IsChain-append url uri (or_empty redirects) r linked.chain good.0;
                bound = omega (arith, length-append (or_empty redirects) (r ∷ []));
                timed = All-append _ (or_empty redirects) (r ∷ []) linked.timed (good.1, tt);
              },
            ),
            omega (arith, length-append (or_empty redirects) (r ∷ [])),
          )

    finish-Ensures :
        (redirects : Option (List Redirect)) (uri : Text) (response : Response)
        (headers : List (Text × Text)) (start_time : ℕ)
        → IsLinked url maximum redirects uri
        → Ensures
            (IsSoundResult url maximum)
            (finish crates client checker redirects uri response headers start_time)
    unfolding finish
    finish-Ensures redirects uri response headers start_time linked = Ensures-then _ λ end_time.
        Ensures-pure _ (record {
          chain = linked.chain;
          bound = linked.bound;
          timed = IsTimed-from _ start_time end_time;
          redirects_timed = linked.timed;
        })

    can_process-lt :
        (ignore : Bool) (redirects : Option (List Redirect)) (status : ℕ)
        → can_process_redirects ignore redirects maximum status ≡ true
        → ltb (num_redirects redirects) maximum ≡ true
    unfolding can_process_redirects
    can_process-lt ignore redirects status h = ground arith

    num_redirects-lt :
        (redirects : Option (List Redirect)) (uri : Text)
        → maximum < 256
        → IsLinked url maximum redirects uri
        → ltb (num_redirects redirects) maximum ≡ true
        → length (or_empty redirects) < maximum
    unfolding num_redirects or_empty
    num_redirects-lt none uri small linked h = ground arith
    num_redirects-lt (some redirects) uri small linked h = let room = linked.bound in ground arith

    module _ (small : maximum < 256) (info : Option Text)
        (again : List Redirect → Io W (Option HeadResponseResult)) (count : ℕ)
        (ih : (next : List Redirect)
          → IsReady (some next)
          → count < length next
          → Ensures (IsSoundResult url maximum) (again next)) where
      follow-Ensures :
          (ignore : Bool) (redirects : Option (List Redirect)) (uri : Text) (start_time : ℕ)
          (response : Response)
          → IsLinked url maximum redirects uri
          → count ≤ length (or_empty redirects)
          → Ensures (IsSoundResult url maximum) (
              follow crates client checker url maximum info again ignore redirects uri start_time
                response)
      unfolding follow
      follow-Ensures ignore redirects uri start_time response linked enough =
          Ensures-then _ λ headers.
            Ensures-test (can_process_redirects ignore redirects maximum response.status)
              (λ no. finish-Ensures redirects uri response headers start_time linked)
              (λ go.
                Ensures-option (lookup (codes "location") response.headers)
                  (λ no. finish-Ensures redirects uri response headers start_time linked)
                  (λ location found.
                    Ensures->>= _
                      (append_redirect-Ensures redirects uri response headers location start_time
                        linked
                        (num_redirects-lt redirects uri small linked
                          (can_process-lt ignore redirects response.status go)))
                      λ next ready. ih next ready.0 (omega arith)))

      fetch_round-Ensures :
          (ignore : Bool) (redirects : Option (List Redirect))
          → IsReady redirects
          → count ≤ length (or_empty redirects)
          → Ensures
              (IsSoundResult url maximum)
              (fetch_round crates client checker url maximum info again ignore redirects)
      unfolding fetch_round IsReady
      fetch_round-Ensures ignore redirects (uri0, e0, linked) enough = Ensures-then _ λ start_time.
          Ensures->>= _ (Ensures-lift (next_uri url redirects))
            λ uri e. Ensures-then _ λ result. cases start_time uri (same uri e) result
        where
          same :
              (uri : Text) → next_uri url redirects ≡ done uri → IsLinked url maximum redirects uri
          same uri e = let eq : uri0 ≡ uri = cc in subst (IsLinked url maximum redirects) eq linked

          cases :
              (start_time : ℕ) (uri : Text)
              → IsLinked url maximum redirects uri
              → (result : HttpResult)
              → Ensures (IsSoundResult url maximum) (elim result [
                | err message ↦ pure (some (head_err message))
                | ok response ↦
                    follow crates client checker url maximum info again ignore redirects uri
                      start_time response
              ])
          cases start_time uri l (err message) = Ensures-pure _ tt
          cases start_time uri l (ok response) =
              follow-Ensures ignore redirects uri start_time response l enough

    -- With more fuel than the redirects that are still allowed, the recursion has a result.
    fetch_from-Ensures :
        (small : maximum < 256) (info : Option Text) (fuel : ℕ) (ignore : Bool)
        (redirects : Option (List Redirect))
        → IsReady redirects
        → maximum < length (or_empty redirects) + fuel
        → Ensures
            (IsSoundResult url maximum)
            (fetch_from crates client checker url maximum info fuel ignore redirects)
    unfolding fetch_from IsReady or_empty
    fetch_from-Ensures small info zero ignore redirects (uri, e, linked) h =
        absurd (omega (arith, linked.bound))
    fetch_from-Ensures small info (suc fuel) ignore redirects ready h =
        fetch_round-Ensures small info _ (length (or_empty redirects))
          (λ next ready' more.
            fetch_from-Ensures small info fuel false (some next) ready' (omega arith))
          ignore redirects ready (omega arith)

    fetch_header-Ensures :
        (small : maximum < 256) (info : Option Text) (ignore : Bool)
        → Ensures
            (IsSoundResult url maximum)
            (fetch_from crates client checker url maximum info (suc maximum) ignore none)
    unfolding IsReady next_uri or_empty
    fetch_header-Ensures small info ignore =
        fetch_from-Ensures small info (suc maximum) ignore none
          (url, refl, record { chain = refl; bound = omega arith; timed = tt }) (omega arith)

    unwrap-Ensures :
        (o : Option HeadResponseResult)
        → IsSoundResult url maximum o
        → Ensures {W = W} (λ r. IsSoundResult url maximum (some r)) (lift (unwrap o))
    unwrap-Ensures none h = absurd h
    unwrap-Ensures (some x) h =
        Ensures-mono
          (λ r e. let same : x ≡ r = cc in subst (λ y. IsSoundResult url maximum (some y)) same h)
          (Ensures-lift (unwrap (some x)))

    pub whole-Ensures :
        (small : maximum < 256) (info : Option Text) (ignore : Bool)
        → Ensures
            (λ r. IsSoundResult url maximum (some r))
            (fetch_header crates client checker url maximum info ignore)
    unfolding fetch_header
    whole-Ensures small info ignore =
        Ensures->>= _ (fetch_header-Ensures small info ignore) unwrap-Ensures

    -- For a limit of eight bits, the recursion never runs out of the fuel that `fetch_header` gives
    -- it, which is one round more than the limit.
    pub fetch_header-total :
        (info : Option Text) (ignore : Bool) (w w' : W)
        → maximum < 256
        → fetch_from crates client checker url maximum info (suc maximum) ignore none w
          ≢ done (none, w')
    fetch_header-total info ignore w w' small e =
        (fetch_header-Ensures small info ignore).apply w w' none e

    -- For a limit of eight bits: the redirects that are returned lead from the URL to the requested
    -- URL, which is the final URI, there are at most as many as the limit, and all times are there.
    pub fetch_header-IsSound :
        (info : Option Text) (ignore : Bool) (w w' : W) (h : HeadResponse)
        → maximum < 256
        → fetch_header crates client checker url maximum info ignore w ≡ done (head_ok h, w')
        → IsSound url maximum h × (get_final_uri h ≡ h.requested_url)
    fetch_header-IsSound info ignore w w' h small e =
        let sound = (whole-Ensures small info ignore).apply w w' (head_ok h) e in
        (sound, get_final_uri-eq url h sound.chain)
