-- ===== src/Core/Values/AuthPrompt.antt =====
-- src/core/mod.rs: CoreAuthPrompt and its text.
use openidconnect_rs.Prelude.{String, ◌≡◌, refl, List, [], ◌∷◌, ◌==◌, eq_iff, arith, if◌then◌else◌}
use openidconnect_rs.Core.Values.Texts.{IsNoneOf}

pub data CoreAuthPrompt : Type 0 where
  none login consent select_account : CoreAuthPrompt
  extension : String → CoreAuthPrompt

unfoldable pub from_str : String → CoreAuthPrompt
from_str s =
    if s == "none"
    then none
    else if s == "login"
    then login
    else if s == "consent"
    then consent
    else if s == "select_account"
    then select_account
    else extension s

unfoldable pub as_ref : CoreAuthPrompt → String
as_ref none = "none"
as_ref login = "login"
as_ref consent = "consent"
as_ref select_account = "select_account"
as_ref (extension s) = s

-- The texts that `from_str` knows.
abbrev pub known : List String
known = "none" ∷ "login" ∷ "consent" ∷ "select_account" ∷ []

-- An extension that spells a known text is a value that no text is read as.
abbrev pub IsCanonical : CoreAuthPrompt → Type 0
IsCanonical (extension s) = IsNoneOf s known
IsCanonical _ = Unit

pub as_ref-from_str : (s : String) → as_ref (from_str s) ≡ s
unfolding from_str as_ref
as_ref-from_str s =
    ground (arith, eq_iff s "none", eq_iff s "login", eq_iff s "consent", eq_iff s "select_account")

pub from_str-as_ref : (v : CoreAuthPrompt) → IsCanonical v → from_str (as_ref v) ≡ v
unfolding from_str as_ref
from_str-as_ref (extension s) c =
    ground (arith, eq_iff s "none", eq_iff s "login", eq_iff s "consent", eq_iff s "select_account")
from_str-as_ref _ c = refl

pub from_str-IsCanonical : (s : String) → IsCanonical (from_str s)
unfolding from_str
from_str-IsCanonical s =
    ground (arith, eq_iff s "none", eq_iff s "login", eq_iff s "consent", eq_iff s "select_account")
