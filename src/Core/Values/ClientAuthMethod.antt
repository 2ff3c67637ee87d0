-- ===== src/Core/Values/ClientAuthMethod.antt =====
-- src/core/mod.rs: CoreClientAuthMethod and its text.
use openidconnect_rs.Prelude.{String, ◌≡◌, refl, List, [], ◌∷◌, ◌==◌, eq_iff, arith, if◌then◌else◌}
use openidconnect_rs.Core.Values.Texts.{IsNoneOf}

pub data CoreClientAuthMethod : Type 0 where
  client_secret_basic client_secret_jwt client_secret_post private_key_jwt none :
      CoreClientAuthMethod
  extension : String → CoreClientAuthMethod

unfoldable pub from_str : String → CoreClientAuthMethod
from_str s =
    if s == "client_secret_basic"
    then client_secret_basic
    else if s == "client_secret_jwt"
    then client_secret_jwt
    else if s == "client_secret_post"
    then client_secret_post
    else if s == "private_key_jwt"
    then private_key_jwt
    else if s == "none"
    then none
    else extension s

unfoldable pub as_ref : CoreClientAuthMethod → String
as_ref client_secret_basic = "client_secret_basic"
as_ref client_secret_jwt = "client_secret_jwt"
as_ref client_secret_post = "client_secret_post"
as_ref private_key_jwt = "private_key_jwt"
as_ref none = "none"
as_ref (extension s) = s

-- The texts that `from_str` knows.
abbrev pub known : List String
known =
    "client_secret_basic" ∷ "client_secret_jwt" ∷ "client_secret_post" ∷ "private_key_jwt" ∷ "none"
    ∷ []

-- An extension that spells a known text is a value that no text is read as.
abbrev pub IsCanonical : CoreClientAuthMethod → Type 0
IsCanonical (extension s) = IsNoneOf s known
IsCanonical _ = Unit

pub as_ref-from_str : (s : String) → as_ref (from_str s) ≡ s
unfolding from_str as_ref
as_ref-from_str s = ground (
  arith,
  eq_iff s "client_secret_basic",
  eq_iff s "client_secret_jwt",
  eq_iff s "client_secret_post",
  eq_iff s "private_key_jwt",
  eq_iff s "none",
)

pub from_str-as_ref : (v : CoreClientAuthMethod) → IsCanonical v → from_str (as_ref v) ≡ v
unfolding from_str as_ref
from_str-as_ref (extension s) c = ground (
  arith,
  eq_iff s "client_secret_basic",
  eq_iff s "client_secret_jwt",
  eq_iff s "client_secret_post",
  eq_iff s "private_key_jwt",
  eq_iff s "none",
)
from_str-as_ref _ c = refl

pub from_str-IsCanonical : (s : String) → IsCanonical (from_str s)
unfolding from_str
from_str-IsCanonical s = ground (
  arith,
  eq_iff s "client_secret_basic",
  eq_iff s "client_secret_jwt",
  eq_iff s "client_secret_post",
  eq_iff s "private_key_jwt",
  eq_iff s "none",
)
