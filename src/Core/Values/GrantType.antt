-- ===== src/Core/Values/GrantType.antt =====
-- src/core/mod.rs: CoreGrantType and its text.
use openidconnect_rs.Prelude.{String, ◌≡◌, refl, List, [], ◌∷◌, ◌==◌, eq_iff, arith, if◌then◌else◌}
use openidconnect_rs.Core.Values.Texts.{IsNoneOf}

pub data CoreGrantType : Type 0 where
  authorization_code client_credentials device_code implicit jwt_bearer password refresh_token :
      CoreGrantType
  extension : String → CoreGrantType

unfoldable pub from_str : String → CoreGrantType
from_str s =
    if s == "authorization_code"
    then authorization_code
    else if s == "client_credentials"
    then client_credentials
    else if s == "urn:ietf:params:oauth:grant-type:device_code"
    then device_code
    else if s == "implicit"
    then implicit
    else if s == "urn:ietf:params:oauth:grant-type:jwt-bearer"
    then jwt_bearer
    else if s == "password"
    then password
    else if s == "refresh_token"
    then refresh_token
    else extension s

unfoldable pub as_ref : CoreGrantType → String
as_ref authorization_code = "authorization_code"
as_ref client_credentials = "client_credentials"
as_ref device_code = "urn:ietf:params:oauth:grant-type:device_code"
as_ref implicit = "implicit"
as_ref jwt_bearer = "urn:ietf:params:oauth:grant-type:jwt-bearer"
as_ref password = "password"
as_ref refresh_token = "refresh_token"
as_ref (extension s) = s

-- The texts that `from_str` knows.
abbrev pub known : List String
known =
    "authorization_code" ∷ "client_credentials" ∷ "urn:ietf:params:oauth:grant-type:device_code"
    ∷ "implicit" ∷ "urn:ietf:params:oauth:grant-type:jwt-bearer" ∷ "password" ∷ "refresh_token" ∷ []

-- An extension that spells a known text is a value that no text is read as.
abbrev pub IsCanonical : CoreGrantType → Type 0
IsCanonical (extension s) = IsNoneOf s known
IsCanonical _ = Unit

pub as_ref-from_str : (s : String) → as_ref (from_str s) ≡ s
unfolding from_str as_ref
as_ref-from_str s = ground (
  arith,
  eq_iff s "authorization_code",
  eq_iff s "client_credentials",
  eq_iff s "urn:ietf:params:oauth:grant-type:device_code",
  eq_iff s "implicit",
  eq_iff s "urn:ietf:params:oauth:grant-type:jwt-bearer",
  eq_iff s "password",
  eq_iff s "refresh_token",
)

pub from_str-as_ref : (v : CoreGrantType) → IsCanonical v → from_str (as_ref v) ≡ v
unfolding from_str as_ref
from_str-as_ref (extension s) c = ground (
  arith,
  eq_iff s "authorization_code",
  eq_iff s "client_credentials",
  eq_iff s "urn:ietf:params:oauth:grant-type:device_code",
  eq_iff s "implicit",
  eq_iff s "urn:ietf:params:oauth:grant-type:jwt-bearer",
  eq_iff s "password",
  eq_iff s "refresh_token",
)
from_str-as_ref _ c = refl

pub from_str-IsCanonical : (s : String) → IsCanonical (from_str s)
unfolding from_str
from_str-IsCanonical s = ground (
  arith,
  eq_iff s "authorization_code",
  eq_iff s "client_credentials",
  eq_iff s "urn:ietf:params:oauth:grant-type:device_code",
  eq_iff s "implicit",
  eq_iff s "urn:ietf:params:oauth:grant-type:jwt-bearer",
  eq_iff s "password",
  eq_iff s "refresh_token",
)
