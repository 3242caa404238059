-- ===== src/PageLoader/HttpUtils/Labels.antt =====
-- The labels of `map_status_code` of http_utils.rs.
use tarantula.Base.{ℕ, ◌≡◌, refl, ◌≤◌, ◌↔◌, Option, none, some, arith, Text, codes}
use tarantula.PageLoader.HttpUtils.{map_status_code}

-- The code is kept. A code with no official reason has the fallback label exactly when it is not
-- one of Cloudflare's codes, 520 to 527; an official reason is taken as it is.
pub map_status_code_lem :
    (canonical_reason : ℕ → Option Text) (code : ℕ)
    → ((map_status_code canonical_reason code).code ≡ code)
      × ((reason : Text)
          → canonical_reason code ≡ some reason
          → (map_status_code canonical_reason code).label ≡ reason)
      × (canonical_reason code ≡ none
          → ((map_status_code canonical_reason code).label ≡ codes "Unknown Status Code")
            ↔ (¬ ((520 ≤ code) × (code ≤ 527))))
unfolding map_status_code
map_status_code_lem canonical_reason code =
    (refl, (λ reason e. rw e), λ e. rw e (ground arith, ground arith))
