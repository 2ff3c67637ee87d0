-- ===== src/Core/Values/ClaimType.antt =====
-- src/core/mod.rs: CoreClaimType and its text.
use openidconnect_rs.Prelude.{String, ◌≡◌, refl, List, [], ◌∷◌, ◌==◌, eq_iff, arith, if◌then◌else◌}
use openidconnect_rs.Core.Values.Texts.{IsNoneOf}

pub data CoreClaimType : Type 0 where
  aggregated distributed normal : CoreClaimType
  extension : String → CoreClaimType

unfoldable pub from_str : String → CoreClaimType
from_str s =
    if s == "normal"
    then normal
    else if s == "aggregated"
    then aggregated
    else if s == "distributed"
    then distributed
    else extension s

unfoldable pub as_ref : CoreClaimType → String
as_ref normal = "normal"
as_ref aggregated = "aggregated"
as_ref distributed = "distributed"
as_ref (extension s) = s

-- The texts that `from_str` knows.
abbrev pub known : List String
known = "normal" ∷ "aggregated" ∷ "distributed" ∷ []

-- An extension that spells a known text is a value that no text is read as.
abbrev pub IsCanonical : CoreClaimType → Type 0
IsCanonical (extension s) = IsNoneOf s known
IsCanonical _ = Unit

pub as_ref-from_str : (s : String) → as_ref (from_str s) ≡ s
unfolding from_str as_ref
as_ref-from_str s = ground (arith, eq_iff s "normal", eq_iff s "aggregated", eq_iff s "distributed")

pub from_str-as_ref : (v : CoreClaimType) → IsCanonical v → from_str (as_ref v) ≡ v
unfolding from_str as_ref
from_str-as_ref (extension s) c =
    ground (arith, eq_iff s "normal", eq_iff s "aggregated", eq_iff s "distributed")
from_str-as_ref _ c = refl

pub from_str-IsCanonical : (s : String) → IsCanonical (from_str s)
unfolding from_str
from_str-IsCanonical s =
    ground (arith, eq_iff s "normal", eq_iff s "aggregated", eq_iff s "distributed")
