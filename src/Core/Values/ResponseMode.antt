-- ===== src/Core/Values/ResponseMode.antt =====
-- src/core/mod.rs: CoreResponseMode and its text.
use openidconnect_rs.Prelude.{String, ◌≡◌, refl, List, [], ◌∷◌, ◌==◌, eq_iff, arith, if◌then◌else◌}
use openidconnect_rs.Core.Values.Texts.{IsNoneOf}

pub data CoreResponseMode : Type 0 where
  query fragment form_post : CoreResponseMode
  extension : String → CoreResponseMode

unfoldable pub from_str : String → CoreResponseMode
from_str s =
    if s == "query"
    then query
    else if s == "fragment"
    then fragment
    else if s == "form_post"
    then form_post
    else extension s

unfoldable pub as_ref : CoreResponseMode → String
as_ref query = "query"
as_ref fragment = "fragment"
as_ref form_post = "form_post"
as_ref (extension s) = s

-- The texts that `from_str` knows.
abbrev pub known : List String
known = "query" ∷ "fragment" ∷ "form_post" ∷ []

-- An extension that spells a known text is a value that no text is read as.
abbrev pub IsCanonical : CoreResponseMode → Type 0
IsCanonical (extension s) = IsNoneOf s known
IsCanonical _ = Unit

pub as_ref-from_str : (s : String) → as_ref (from_str s) ≡ s
unfolding from_str as_ref
as_ref-from_str s = ground (arith, eq_iff s "query", eq_iff s "fragment", eq_iff s "form_post")

pub from_str-as_ref : (v : CoreResponseMode) → IsCanonical v → from_str (as_ref v) ≡ v
unfolding from_str as_ref
from_str-as_ref (extension s) c =
    ground (arith, eq_iff s "query", eq_iff s "fragment", eq_iff s "form_post")
from_str-as_ref _ c = refl

pub from_str-IsCanonical : (s : String) → IsCanonical (from_str s)
unfolding from_str
from_str-IsCanonical s = ground (arith, eq_iff s "query", eq_iff s "fragment", eq_iff s "form_post")
