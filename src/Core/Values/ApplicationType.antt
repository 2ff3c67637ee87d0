-- ===== src/Core/Values/ApplicationType.antt =====
-- src/core/mod.rs: CoreApplicationType and its text.
use openidconnect_rs.Prelude.{String, ◌≡◌, refl, List, [], ◌∷◌, ◌==◌, eq_iff, arith, if◌then◌else◌}
use openidconnect_rs.Core.Values.Texts.{IsNoneOf}

pub data CoreApplicationType : Type 0 where
  native web : CoreApplicationType
  extension : String → CoreApplicationType

unfoldable pub from_str : String → CoreApplicationType
from_str s = if s == "native" then native else if s == "web" then web else extension s

unfoldable pub as_ref : CoreApplicationType → String
as_ref native = "native"
as_ref web = "web"
as_ref (extension s) = s

-- The texts that `from_str` knows.
abbrev pub known : List String
known = "native" ∷ "web" ∷ []

-- An extension that spells a known text is a value that no text is read as.
abbrev pub IsCanonical : CoreApplicationType → Type 0
IsCanonical (extension s) = IsNoneOf s known
IsCanonical _ = Unit

pub as_ref-from_str : (s : String) → as_ref (from_str s) ≡ s
unfolding from_str as_ref
as_ref-from_str s = ground (arith, eq_iff s "native", eq_iff s "web")

pub from_str-as_ref : (v : CoreApplicationType) → IsCanonical v → from_str (as_ref v) ≡ v
unfolding from_str as_ref
from_str-as_ref (extension s) c = ground (arith, eq_iff s "native", eq_iff s "web")
from_str-as_ref _ c = refl

pub from_str-IsCanonical : (s : String) → IsCanonical (from_str s)
unfolding from_str
from_str-IsCanonical s = ground (arith, eq_iff s "native", eq_iff s "web")
