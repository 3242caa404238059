-- ===== src/PageLoader/FetchHeader/Ignore.antt =====
-- `fetch_header` of fetch_header_command.rs where redirects are ignored.
use tarantula.Base.{
  ◌≡◌, refl, true, ℕ, Option, none, some, done, List, [], Text, suc, unwrap, false, subst,
}
use tarantula.Base.Io.{
  pure, Io, Ensures, Ensures-then, Ensures->>=, Ensures-pure, Ensures-lift, Ensures-mono, lift,
}
use tarantula.Crates.{Crates}
use tarantula.Responses.HeadResponse.{HeadResponse}
use tarantula.Responses.Redirect.{Redirect}
use tarantula.LinkResult.LinkTypeChecker.{LinkTypeChecker}
use tarantula.PageLoader.HttpClient.{HttpClient, Response, HttpResult, ok, err}
use tarantula.PageLoader.FetchHeader.{
  HeadResponseResult, head_ok, head_err, fetch_header, fetch_from, fetch_round, follow, finish,
  next_uri, or_empty,
}

-- The answer to the request for the URL itself.
abbrev IsDirect : Text → Option HeadResponseResult → Type 0
IsDirect url none = Unit {0}
IsDirect url (some (head_err message)) = Unit {0}
IsDirect url (some (head_ok h)) = (h.redirects ≡ []) × (h.requested_url ≡ url)

module _ {W : Type 0} (crates : Crates) (client : HttpClient W)
    (checker : LinkTypeChecker crates.Regex) (url : Text) (maximum : ℕ) (info : Option Text) where
  finish-IsDirect :
      (response : Response) (headers : List (Text × Text)) (start_time : ℕ)
      → Ensures (IsDirect url) (finish crates client checker none url response headers start_time)
  unfolding finish or_empty
  finish-IsDirect response headers start_time =
      Ensures-then _ λ end_time. Ensures-pure _ (refl, refl)

  follow-IsDirect :
      (again : List Redirect → Io W (Option HeadResponseResult)) (start_time : ℕ)
      (response : Response)
      → Ensures
          (IsDirect url)
          (follow crates client checker url maximum info again true none url start_time response)
  unfolding follow
  follow-IsDirect again start_time response =
      Ensures-then _ λ headers. finish-IsDirect response headers start_time

  fetch_from-IsDirect :
      (fuel : ℕ)
      → Ensures
          (IsDirect url)
          (fetch_from crates client checker url maximum info (suc fuel) true none)
  unfolding fetch_from fetch_round next_uri
  fetch_from-IsDirect fuel = Ensures-then _ λ start_time.
      Ensures->>= _ (Ensures-lift (done url))
        λ uri e. Ensures-then _ λ result. cases start_time uri (cc) result
    where
      cases :
          (start_time : ℕ) (uri : Text)
          → url ≡ uri
          → (result : HttpResult)
          → Ensures (IsDirect url) (elim result [
            | err message ↦ pure (some (head_err message))
            | ok response ↦
                follow crates client checker url maximum info
                  (λ next. fetch_from crates client checker url maximum info fuel false (some next))
                  true
                  none
                  uri
                  start_time
                  response
          ])
      cases start_time uri e (err message) = Ensures-pure _ tt
      cases start_time uri e (ok response) =
          subst
            (λ u. Ensures (IsDirect url) (
              follow crates client checker url maximum info
                (λ next. fetch_from crates client checker url maximum info fuel false (some next))
                true none u start_time response))
            e
            (follow-IsDirect
              (λ next. fetch_from crates client checker url maximum info fuel false (some next))
              start_time response)

  unwrap-IsDirect :
      (o : Option HeadResponseResult)
      → IsDirect url o
      → Ensures {W = W} (λ r. IsDirect url (some r)) (lift (unwrap o))
  unwrap-IsDirect none h = Ensures-mono (λ r e. cc) (Ensures-lift (unwrap none))
  unwrap-IsDirect (some x) h =
      Ensures-mono (λ r e. let same : x ≡ r = cc in subst (λ y. IsDirect url (some y)) same h)
        (Ensures-lift (unwrap (some x)))

  whole-IsDirect :
      Ensures
        (λ r. IsDirect url (some r))
        (fetch_header crates client checker url maximum info true)
  unfolding fetch_header
  whole-IsDirect = Ensures->>= _ (fetch_from-IsDirect maximum) unwrap-IsDirect

  -- If redirects are ignored, a response is that of the URL itself, with no redirects, whatever its
  -- status and whatever the limit.
  pub fetch_header-ignore :
      (w w' : W) (h : HeadResponse)
      → fetch_header crates client checker url maximum info true w ≡ done (head_ok h, w')
      → (h.redirects ≡ []) × (h.requested_url ≡ url)
  fetch_header-ignore w w' h e = whole-IsDirect.apply w w' (head_ok h) e
