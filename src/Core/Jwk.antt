-- ===== src/Core/Jwk.antt =====
-- src/core/jwk.rs: CoreJsonWebKey and the operations of its algorithms.
pub mod Verify
pub mod Sign
pub mod Valid
pub mod Panics
pub mod Sound
use openidconnect_rs.Prelude.{ℕ, String, Bool, true, false, Option, none, some, List}
use openidconnect_rs.Core.Algorithms.{
  CoreJsonWebKeyType, rsa, elliptic_curve, symmetric, CoreJsonCurveType,
}
use openidconnect_rs.Core.Values.JsonWebKeyUse.{CoreJsonWebKeyUse, signature, encryption}

pub record CoreJsonWebKey : Type 0 where
  pub kty : CoreJsonWebKeyType
  pub use_ : Option CoreJsonWebKeyUse
  pub kid : Option String
  pub n : Option (List ℕ)
  pub e : Option (List ℕ)
  pub crv : Option CoreJsonCurveType
  pub x : Option (List ℕ)
  pub y : Option (List ℕ)
  pub d : Option (List ℕ)
  pub k : Option (List ℕ)

unfoldable pub new_rsa : List ℕ → List ℕ → Option String → CoreJsonWebKey
new_rsa n e kid = record {
  kty = rsa;
  use_ = some signature;
  kid = kid;
  n = some n;
  e = some e;
  crv = none;
  x = none;
  y = none;
  d = none;
  k = none;
}

unfoldable pub new_ec : List ℕ → List ℕ → CoreJsonCurveType → Option String → CoreJsonWebKey
new_ec x y crv kid = record {
  kty = elliptic_curve;
  use_ = some signature;
  kid = kid;
  n = none;
  e = none;
  crv = some crv;
  x = some x;
  y = some y;
  d = none;
  k = none;
}

unfoldable pub new_symmetric : List ℕ → CoreJsonWebKey
new_symmetric key = record {
  kty = symmetric;
  use_ = none;
  kid = none;
  n = none;
  e = none;
  crv = none;
  x = none;
  y = none;
  d = none;
  k = some key;
}

-- `matches!(*self, CoreJsonWebKeyUse::Signature)`
unfoldable pub allows_signature : CoreJsonWebKeyUse → Bool
allows_signature signature = true
allows_signature _ = false

unfoldable pub allows_encryption : CoreJsonWebKeyUse → Bool
allows_encryption encryption = true
allows_encryption _ = false
