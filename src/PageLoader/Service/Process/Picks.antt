-- ===== src/PageLoader/Service/Process/Picks.antt =====
-- The crawls of which one makes a step.
use tarantula.Base.{ap, suc, ◌≡◌, refl, ap, List, length, All, Any, ◌⊎◌, inl, inr}
use tarantula.PageLoader.Service.Process.{Crawl, Takes}

pub Takes-length :
    (r : Crawl) (xs rest : List Crawl) → Takes r xs rest → length xs ≡ suc (length rest)
Takes-length r _ _ (Takes.here rest) = refl
Takes-length r _ _ (Takes.there x xs rest t) = ap suc (Takes-length r xs rest t)

module _ {ℓ} (P : Crawl → Type ℓ) where
  pub All-Takes : (r : Crawl) (xs rest : List Crawl) → Takes r xs rest → All P xs → P r × All P rest
  All-Takes r _ _ (Takes.here rest) h = h
  All-Takes r _ _ (Takes.there x xs rest t) h =
      let k = All-Takes r xs rest t h.1 in (k.0, (h.0, k.1))

module _ (P : Crawl → Type 0) where
  pub Any-Takes : (r : Crawl) (xs rest : List Crawl) → Takes r xs rest → Any P xs → P r ⊎ Any P rest
  Any-Takes r _ _ (Takes.here rest) h = h
  Any-Takes r _ _ (Takes.there x xs rest t) (inl h) = inr (inl h)
  Any-Takes r _ _ (Takes.there x xs rest t) (inr h) = elim (Any-Takes r xs rest t h) [
    | inl k ↦ inl k
    | inr k ↦ inr (inr k)
  ]

  pub Takes-Any : (r : Crawl) (xs rest : List Crawl) → Takes r xs rest → P r → Any P xs
  Takes-Any r _ _ (Takes.here rest) h = inl h
  Takes-Any r _ _ (Takes.there x xs rest t) h = inr (Takes-Any r xs rest t h)
