-- ===== src/Core/Values/JsonWebKeyUse.antt =====
-- src/core/jwk.rs: CoreJsonWebKeyUse and its text.
use openidconnect_rs.Prelude.{String, ◌≡◌, refl, List, [], ◌∷◌, ◌==◌, eq_iff, arith, if◌then◌else◌}
use openidconnect_rs.Core.Values.Texts.{IsNoneOf}

pub data CoreJsonWebKeyUse : Type 0 where
  signature encryption : CoreJsonWebKeyUse
  other : String → CoreJsonWebKeyUse

unfoldable pub from_str : String → CoreJsonWebKeyUse
from_str s = if s == "sig" then signature else if s == "enc" then encryption else other s

unfoldable pub as_ref : CoreJsonWebKeyUse → String
as_ref signature = "sig"
as_ref encryption = "enc"
as_ref (other s) = s

-- The texts that `from_str` knows.
abbrev pub known : List String
known = "sig" ∷ "enc" ∷ []

-- An extension that spells a known text is a value that no text is read as.
abbrev pub IsCanonical : CoreJsonWebKeyUse → Type 0
IsCanonical (other s) = IsNoneOf s known
IsCanonical _ = Unit

pub as_ref-from_str : (s : String) → as_ref (from_str s) ≡ s
unfolding from_str as_ref
as_ref-from_str s = ground (arith, eq_iff s "sig", eq_iff s "enc")

pub from_str-as_ref : (v : CoreJsonWebKeyUse) → IsCanonical v → from_str (as_ref v) ≡ v
unfolding from_str as_ref
from_str-as_ref (other s) c = ground (arith, eq_iff s "sig", eq_iff s "enc")
from_str-as_ref _ c = refl

pub from_str-IsCanonical : (s : String) → IsCanonical (from_str s)
unfolding from_str
from_str-IsCanonical s = ground (arith, eq_iff s "sig", eq_iff s "enc")
