-- ===== src/Core/Values/RegisterErrorResponseType.antt =====
-- src/core/mod.rs: CoreRegisterErrorResponseType and its text.
use openidconnect_rs.Prelude.{String, ◌≡◌, refl, List, [], ◌∷◌, ◌==◌, eq_iff, arith, if◌then◌else◌}
use openidconnect_rs.Core.Values.Texts.{IsNoneOf}

pub data CoreRegisterErrorResponseType : Type 0 where
  invalid_client_metadata invalid_redirect_uri : CoreRegisterErrorResponseType
  extension : String → CoreRegisterErrorResponseType

unfoldable pub from_str : String → CoreRegisterErrorResponseType
from_str s =
    if s == "invalid_client_metadata"
    then invalid_client_metadata
    else if s == "invalid_redirect_uri"
    then invalid_redirect_uri
    else extension s

unfoldable pub as_ref : CoreRegisterErrorResponseType → String
as_ref invalid_client_metadata = "invalid_client_metadata"
as_ref invalid_redirect_uri = "invalid_redirect_uri"
as_ref (extension s) = s

-- The texts that `from_str` knows.
abbrev pub known : List String
known = "invalid_client_metadata" ∷ "invalid_redirect_uri" ∷ []

-- An extension that spells a known text is a value that no text is read as.
abbrev pub IsCanonical : CoreRegisterErrorResponseType → Type 0
IsCanonical (extension s) = IsNoneOf s known
IsCanonical _ = Unit

pub as_ref-from_str : (s : String) → as_ref (from_str s) ≡ s
unfolding from_str as_ref
as_ref-from_str s =
    ground (arith, eq_iff s "invalid_client_metadata", eq_iff s "invalid_redirect_uri")

pub from_str-as_ref : (v : CoreRegisterErrorResponseType) → IsCanonical v → from_str (as_ref v) ≡ v
unfolding from_str as_ref
from_str-as_ref (extension s) c =
    ground (arith, eq_iff s "invalid_client_metadata", eq_iff s "invalid_redirect_uri")
from_str-as_ref _ c = refl

pub from_str-IsCanonical : (s : String) → IsCanonical (from_str s)
unfolding from_str
from_str-IsCanonical s =
    ground (arith, eq_iff s "invalid_client_metadata", eq_iff s "invalid_redirect_uri")
