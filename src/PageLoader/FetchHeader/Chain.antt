-- ===== src/PageLoader/FetchHeader/Chain.antt =====
-- The redirects that `fetch_header` of fetch_header_command.rs returns.
use tarantula.Base.{
  ℕ, ◌≤◌, ◌≡◌, ◌≢◌, refl, sym, ◌∙◌, subst, List, [], ◌∷◌, ◌++◌, Option, none, some, panic, length,
  last, Text, All, Option-cases, inl, inr,
}
use tarantula.Responses.Redirect.{Redirect}
use tarantula.Responses.HeadResponse.{HeadResponse, get_final_uri}
use tarantula.Responses.ResponseTimings
use tarantula.Responses.ResponseTimings.{ResponseTimings, serialize}
use tarantula.PageLoader.FetchHeader.{HeadResponseResult, head_ok, head_err, or_empty}

-- Each redirect starts where the one before it led, the first at the URL, and the last leads to
-- the given address.
abbrev pub IsChain : Text → List Redirect → Text → Type 0
IsChain url [] uri = url ≡ uri
IsChain url (r ∷ redirects) uri = (r.source ≡ url) × IsChain r.destination redirects uri

pub IsChain-append :
    (url uri : Text) (redirects : List Redirect) (r : Redirect)
    → IsChain url redirects uri
    → r.source ≡ uri
    → IsChain url (redirects ++ r ∷ []) r.destination
IsChain-append url uri [] r h e = (e ∙ sym h, refl)
IsChain-append url uri (q ∷ redirects) r h e =
    (h.0, IsChain-append q.destination uri redirects r h.1 e)

-- Both times are there, so that the timings can be written out.
abbrev pub IsTimed : ResponseTimings → Type 0
IsTimed t = serialize t ≢ panic

-- What every result of a call with the given limit satisfies.
pub record IsSound (url : Text) (maximum : ℕ) (h : HeadResponse) : Type 0 where
  pub chain : IsChain url h.redirects h.requested_url
  pub bound : length h.redirects ≤ maximum
  pub timed : IsTimed h.response_timings
  pub redirects_timed : All (λ (r : Redirect). IsTimed r.response_timings) h.redirects

abbrev pub IsSoundResult : Text → ℕ → Option HeadResponseResult → Type 0
IsSoundResult url maximum none = ⊥
IsSoundResult url maximum (some (head_err message)) = Unit {0}
IsSoundResult url maximum (some (head_ok h)) = IsSound url maximum h

-- The state of the recursion: what is passed on leads from the URL to the next address.
pub record IsLinked (url : Text) (maximum : ℕ) (redirects : Option (List Redirect)) (uri : Text)
    : Type 0 where
  pub chain : IsChain url (or_empty redirects) uri
  pub bound : length (or_empty redirects) ≤ maximum
  pub timed : All (λ (r : Redirect). IsTimed r.response_timings) (or_empty redirects)

last_destination :
    (url uri : Text) (redirects : List Redirect) (r : Redirect)
    → IsChain url redirects uri
    → last redirects ≡ some r
    → r.destination ≡ uri
last_destination url uri [] r h e = cc
last_destination url uri (q ∷ []) r h e =
    let same : q ≡ r = cc in subst (λ (x : Redirect). x.destination ≡ uri) same h.1
last_destination url uri (q ∷ p ∷ redirects) r h e =
    last_destination q.destination uri (p ∷ redirects) r h.1 e

pub get_final_uri-eq :
    (url : Text) (h : HeadResponse)
    → IsChain url h.redirects h.requested_url
    → get_final_uri h ≡ h.requested_url
unfolding get_final_uri
get_final_uri-eq url h c = elim (Option-cases (last h.redirects)) [
  | inl empty ↦ rw (empty, get_final_uri)
  | inr (r, e) ↦ rw (e, get_final_uri) (last_destination url h.requested_url h.redirects r c e)
]

pub IsTimed-from : (name : Text) (s e : ℕ) → IsTimed (ResponseTimings.from name s e)
unfolding serialize ResponseTimings.from
IsTimed-from name s e = λ p. cc
