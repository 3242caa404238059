-- ===== src/Responses/StatusCode.antt =====
-- responses/src/status_code.rs.
use tarantula.Base.{ℕ, Text}

pub record StatusCode : Type 0 where
  pub code : ℕ
  pub label : Text
