-- ===== src/Types/Duration.antt =====
-- std::time::Duration, as far as the library uses it.
use openidconnect_rs.Prelude.{ℕ}

pub record Duration : Type 0 where
  pub secs : ℕ
  pub nanos : ℕ

-- `Duration::as_secs`
abbrev pub as_secs : Duration → ℕ
as_secs d = d.secs
