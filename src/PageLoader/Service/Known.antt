-- ===== src/PageLoader/Service/Known.antt =====
-- The links that page_loader_service.rs knows after a page: `add_links_to_known_list`.
use tarantula.Base.{
  some, Option-cases, subst, ◌≡◌, inl, inr, true, List, [], ◌∷◌, arith, Bool-cases, Text, mem,
  text_eq_iff,
}
use tarantula.Responses.PageResponse.{PageResponse}
use tarantula.PageLoader.PageCrawl.Verdict.{mem-append, mem-append_self}
use tarantula.PageLoader.Service.{add_links_to_known_list, push_new}
use tarantula.Base.{◌⊎◌, text_eq_iff, arith, ◌++◌, mem, subst}
use tarantula.PageLoader.Service.{push_new, add_links_to_known_list}

-- The URL is the page's, or the one that its redirects lead to.
abbrev pub IsUrlOf : Text → PageResponse → Type 0
IsUrlOf url page = (page.original_requested_url ≡ url) ⊎ (page.final_url_after_redirects ≡ some url)

mem-push_new : (url : Text) (known : List Text) → mem url (push_new known url) ≡ true
unfolding push_new
mem-push_new url known = elim (Bool-cases (mem url known)) [
  | inl old ↦ rw old old
  | inr new ↦ rw new (mem-append_self url known)
]

mem-push_new_other :
    (url other : Text) (known : List Text)
    → mem url known ≡ true
    → mem url (push_new known other) ≡ true
unfolding push_new
mem-push_new_other url other known h = elim (Bool-cases (mem other known)) [
  | inl old ↦ rw old h
  | inr new ↦ rw new (mem-append url known other h)
]

pub mem-add_links :
    (known : List Text) (page : PageResponse)
    → mem page.original_requested_url (add_links_to_known_list known page) ≡ true
unfolding add_links_to_known_list
mem-add_links known page = elim (Option-cases page.final_url_after_redirects) [
  | inl e ↦ rw e (mem-push_new page.original_requested_url known)
  | inr e ↦ rw e.1 (
      mem-push_new_other page.original_requested_url e.0 _
        (mem-push_new page.original_requested_url known))
]

-- No link is forgotten.
pub mem-add_links_other :
    (known : List Text) (page : PageResponse) (url : Text)
    → mem url known ≡ true
    → mem url (add_links_to_known_list known page) ≡ true
unfolding add_links_to_known_list
mem-add_links_other known page url h =
    let first = mem-push_new_other url page.original_requested_url known h in
    elim (Option-cases page.final_url_after_redirects) [
      | inl e ↦ rw e first
      | inr e ↦ rw e.1 (mem-push_new_other url e.0 _ first)
    ]

pub mem-append_inv :
    (url : Text) (xs : List Text) (y : Text)
    → mem url (xs ++ y ∷ []) ≡ true
    → (mem url xs ≡ true) ⊎ (y ≡ url)
mem-append_inv url [] y h = ground (arith, h, text_eq_iff url y)
mem-append_inv url (x ∷ xs) y h = ground (arith, h, mem-append_inv url xs y)

mem-push_new_inv :
    (url other : Text) (known : List Text)
    → mem url (push_new known other) ≡ true
    → (mem url known ≡ true) ⊎ (other ≡ url)
unfolding push_new
mem-push_new_inv url other known h = elim (Bool-cases (mem other known)) [
  | inl old ↦ inl (rw old at h)
  | inr new ↦ mem-append_inv url known other (rw new at h)
]

pub mem-add_links_inv :
    (url : Text) (known : List Text) (page : PageResponse)
    → mem url (add_links_to_known_list known page) ≡ true
    → (mem url known ≡ true) ⊎ IsUrlOf url page
unfolding add_links_to_known_list
mem-add_links_inv url known page h = elim (Option-cases page.final_url_after_redirects) [
  | inl e ↦ own (rw e at h)
  | inr (final_url, e) ↦ elim (mem-push_new_inv url final_url _ (rw e at h)) [
    | inl k ↦ own k
    | inr same ↦ inr (inr (subst (λ u. page.final_url_after_redirects ≡ some u) same e))
  ]
]
  where
    own :
        mem url (push_new known page.original_requested_url) ≡ true
        → (mem url known ≡ true) ⊎ IsUrlOf url page
    own k = elim (mem-push_new_inv url page.original_requested_url known k) [
      | inl old ↦ inl old
      | inr same ↦ inr (inl same)
    ]
