-- ===== src/Core/Values/SubjectIdentifierType.antt =====
-- src/core/mod.rs: CoreSubjectIdentifierType and its text.
use openidconnect_rs.Prelude.{String, ◌≡◌, refl, List, [], ◌∷◌, ◌==◌, eq_iff, arith, if◌then◌else◌}
use openidconnect_rs.Core.Values.Texts.{IsNoneOf}

pub data CoreSubjectIdentifierType : Type 0 where
  pairwise public : CoreSubjectIdentifierType
  extension : String → CoreSubjectIdentifierType

unfoldable pub from_str : String → CoreSubjectIdentifierType
from_str s = if s == "pairwise" then pairwise else if s == "public" then public else extension s

unfoldable pub as_ref : CoreSubjectIdentifierType → String
as_ref pairwise = "pairwise"
as_ref public = "public"
as_ref (extension s) = s

-- The texts that `from_str` knows.
abbrev pub known : List String
known = "pairwise" ∷ "public" ∷ []

-- An extension that spells a known text is a value that no text is read as.
abbrev pub IsCanonical : CoreSubjectIdentifierType → Type 0
IsCanonical (extension s) = IsNoneOf s known
IsCanonical _ = Unit

pub as_ref-from_str : (s : String) → as_ref (from_str s) ≡ s
unfolding from_str as_ref
as_ref-from_str s = ground (arith, eq_iff s "pairwise", eq_iff s "public")

pub from_str-as_ref : (v : CoreSubjectIdentifierType) → IsCanonical v → from_str (as_ref v) ≡ v
unfolding from_str as_ref
from_str-as_ref (extension s) c = ground (arith, eq_iff s "pairwise", eq_iff s "public")
from_str-as_ref _ c = refl

pub from_str-IsCanonical : (s : String) → IsCanonical (from_str s)
unfolding from_str
from_str-IsCanonical s = ground (arith, eq_iff s "pairwise", eq_iff s "public")
