-- ===== src/Types/KeySet.antt =====
-- src/types.rs: JsonWebKeySet.
use openidconnect_rs.Prelude.{List, []}
use openidconnect_rs.Traits.{Suite}

pub record JsonWebKeySet (t : Suite) : Type 0 where
  pub keys : List t.Key

-- `JsonWebKeySet::default`
abbrev pub empty : (t : Suite) → JsonWebKeySet t
empty t = record { keys = [] }
