-- ===== src/Core/Values/AuthDisplay.antt =====
-- src/core/mod.rs: CoreAuthDisplay and its text.
use openidconnect_rs.Prelude.{String, ◌≡◌, refl, List, [], ◌∷◌, ◌==◌, eq_iff, arith, if◌then◌else◌}
use openidconnect_rs.Core.Values.Texts.{IsNoneOf}

pub data CoreAuthDisplay : Type 0 where
  page popup touch wap : CoreAuthDisplay
  extension : String → CoreAuthDisplay

unfoldable pub from_str : String → CoreAuthDisplay
from_str s =
    if s == "page"
    then page
    else if s == "popup"
    then popup
    else if s == "touch"
    then touch
    else if s == "wap"
    then wap
    else extension s

unfoldable pub as_ref : CoreAuthDisplay → String
as_ref page = "page"
as_ref popup = "popup"
as_ref touch = "touch"
as_ref wap = "wap"
as_ref (extension s) = s

-- The texts that `from_str` knows.
abbrev pub known : List String
known = "page" ∷ "popup" ∷ "touch" ∷ "wap" ∷ []

-- An extension that spells a known text is a value that no text is read as.
abbrev pub IsCanonical : CoreAuthDisplay → Type 0
IsCanonical (extension s) = IsNoneOf s known
IsCanonical _ = Unit

pub as_ref-from_str : (s : String) → as_ref (from_str s) ≡ s
unfolding from_str as_ref
as_ref-from_str s =
    ground (arith, eq_iff s "page", eq_iff s "popup", eq_iff s "touch", eq_iff s "wap")

pub from_str-as_ref : (v : CoreAuthDisplay) → IsCanonical v → from_str (as_ref v) ≡ v
unfolding from_str as_ref
from_str-as_ref (extension s) c =
    ground (arith, eq_iff s "page", eq_iff s "popup", eq_iff s "touch", eq_iff s "wap")
from_str-as_ref _ c = refl

pub from_str-IsCanonical : (s : String) → IsCanonical (from_str s)
unfolding from_str
from_str-IsCanonical s =
    ground (arith, eq_iff s "page", eq_iff s "popup", eq_iff s "touch", eq_iff s "wap")
