-- ===== src/Core/Values/ResponseType.antt =====
-- src/core/mod.rs: CoreResponseType and its text.
use openidconnect_rs.Prelude.{String, ◌≡◌, refl, List, [], ◌∷◌, ◌==◌, eq_iff, arith, if◌then◌else◌}
use openidconnect_rs.Core.Values.Texts.{IsNoneOf}

pub data CoreResponseType : Type 0 where
  code id_token none token : CoreResponseType
  extension : String → CoreResponseType

unfoldable pub from_str : String → CoreResponseType
from_str s =
    if s == "code"
    then code
    else if s == "id_token"
    then id_token
    else if s == "none"
    then none
    else if s == "token"
    then token
    else extension s

unfoldable pub as_ref : CoreResponseType → String
as_ref code = "code"
as_ref id_token = "id_token"
as_ref none = "none"
as_ref token = "token"
as_ref (extension s) = s

-- The texts that `from_str` knows.
abbrev pub known : List String
known = "code" ∷ "id_token" ∷ "none" ∷ "token" ∷ []

-- An extension that spells a known text is a value that no text is read as.
abbrev pub IsCanonical : CoreResponseType → Type 0
IsCanonical (extension s) = IsNoneOf s known
IsCanonical _ = Unit

pub as_ref-from_str : (s : String) → as_ref (from_str s) ≡ s
unfolding from_str as_ref
as_ref-from_str s =
    ground (arith, eq_iff s "code", eq_iff s "id_token", eq_iff s "none", eq_iff s "token")

pub from_str-as_ref : (v : CoreResponseType) → IsCanonical v → from_str (as_ref v) ≡ v
unfolding from_str as_ref
from_str-as_ref (extension s) c =
    ground (arith, eq_iff s "code", eq_iff s "id_token", eq_iff s "none", eq_iff s "token")
from_str-as_ref _ c = refl

pub from_str-IsCanonical : (s : String) → IsCanonical (from_str s)
unfolding from_str
from_str-IsCanonical s =
    ground (arith, eq_iff s "code", eq_iff s "id_token", eq_iff s "none", eq_iff s "token")
