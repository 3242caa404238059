-- ===== src/PageLoader/Service/Process/Ordered.antt =====
-- The crawls of page_loader_service.rs, told apart by their uuids.
use tarantula.Base.{ℕ, suc, ◌<◌, ◌≡◌, ◌≢◌, sym, List, [], ◌∷◌, All, All-mono, arith}
use tarantula.PageLoader.Service.Process.{Crawl, Stage, Takes}
use tarantula.PageLoader.Service.Process.Picks.{All-Takes}

abbrev pub IsOther : ℕ → Crawl → Type 0
IsOther uuid r = r.command.uuid ≢ uuid

abbrev pub IsDistinctCrawls : List Crawl → Type 0
IsDistinctCrawls [] = Unit
IsDistinctCrawls (r ∷ crawls) = All (IsOther r.command.uuid) crawls × IsDistinctCrawls crawls

Takes-others :
    (r : Crawl) (xs rest : List Crawl)
    → Takes r xs rest
    → IsDistinctCrawls xs
    → All (IsOther r.command.uuid) rest × IsDistinctCrawls rest
Takes-others r _ _ (Takes.here rest) h = h
Takes-others r _ _ (Takes.there x xs rest t) h =
    let k = Takes-others r xs rest t h.1 in
    let l = All-Takes (IsOther x.command.uuid) r xs rest t h.0 in
    ((λ e. l.0 (sym e), k.0), (l.1, k.1))

-- The uuids are drawn already, and no two crawls have the same.
pub record IsOrdered (fresh : ℕ) (crawls : List Crawl) : Type 0 where
  pub below : All (λ r. r.command.uuid < fresh) crawls
  pub distinct : IsDistinctCrawls crawls

pub IsOrdered-Takes :
    (fresh : ℕ) (r : Crawl) (xs rest : List Crawl)
    → Takes r xs rest
    → IsOrdered fresh xs
    → All (IsOther r.command.uuid) rest
      × IsOrdered fresh rest
      × ((stage : Stage) → IsOrdered fresh (record r { stage = stage } ∷ rest))
IsOrdered-Takes fresh r xs rest t h =
    let k = Takes-others r xs rest t h.distinct in
    let b = All-Takes (λ x. x.command.uuid < fresh) r xs rest t h.below in
    (
      k.0,
      record { below = b.1; distinct = k.1 },
      λ stage. record { below = (b.0, b.1); distinct = (k.0, k.1) },
    )

pub IsOrdered-draw :
    (fresh : ℕ) (r : Crawl) (crawls : List Crawl)
    → r.command.uuid ≡ fresh
    → IsOrdered fresh crawls
    → IsOrdered (suc fresh) (r ∷ crawls)
IsOrdered-draw fresh r crawls e h = record {
  below = (omega (arith, e), All-mono (λ x l. omega (arith, l)) crawls h.below);
  distinct = (All-mono (λ x l same. omega (arith, l, same, e)) crawls h.below, h.distinct);
}

pub IsOrdered-more :
    (fresh : ℕ) (crawls : List Crawl) → IsOrdered fresh crawls → IsOrdered (suc fresh) crawls
IsOrdered-more fresh crawls h = record {
  below = All-mono (λ x l. omega (arith, l)) crawls h.below;
  distinct = h.distinct;
}
