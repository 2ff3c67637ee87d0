-- ===== src/Text/Split.antt =====
-- Rust's `str::split` at a dot.
use Prim.Native.Char.{Char, code}
use text.Mathlib.TextLemmas.{nil-append, cons-append}
use openidconnect_rs.Prelude.{
  String, ◌≡◌, refl, Bool, true, false, List, [], ◌∷◌, nat_eq, if◌then◌else◌, ◌||◌,
}
use openidconnect_rs.Text.{◌+++◌}

-- A character before the first part.
unfoldable pub prepend : Char → List String → List String
prepend c [] = String.◌∷◌ c "" ∷ []
prepend c (part ∷ parts) = String.◌∷◌ c part ∷ parts

-- `s.split('.')`
unfoldable pub split_dots : String → List String
unfolding prepend
split_dots String.[] = "" ∷ []
split_dots (String.◌∷◌ c s) =
    let parts = split_dots s in if nat_eq (code c) b'.' then "" ∷ parts else prepend c parts

unfoldable pub has_dot : String → Bool
has_dot String.[] = false
has_dot (String.◌∷◌ c s) = nat_eq (code c) b'.' || has_dot s

no_dot_parts : (b : Bool) {d : Bool} → (b || d) ≡ false → (b ≡ false) × (d ≡ false)
no_dot_parts true h = cc
no_dot_parts false h = (refl, h)

pub split_dots-no_dot : (s : String) → has_dot s ≡ false → split_dots s ≡ s ∷ []
unfolding split_dots has_dot prepend
split_dots-no_dot String.[] h = refl
split_dots-no_dot (String.◌∷◌ c s) h =
    let (e, r) = no_dot_parts (nat_eq (code c) b'.') h in rw e (rw (split_dots-no_dot s r) refl)

pub split_dots-append :
    (s t : String) → has_dot s ≡ false → split_dots (s +++ "." +++ t) ≡ s ∷ split_dots t
unfolding split_dots has_dot prepend
split_dots-append String.[] t h =
    rw (nil-append ("." +++ t)) (rw (cons-append _ "" t) (rw (nil-append t) refl))
split_dots-append (String.◌∷◌ c s) t h =
    let (e, r) = no_dot_parts (nat_eq (code c) b'.') h in
    rw (cons-append c s ("." +++ t)) (rw e (rw (split_dots-append s t r) refl))
