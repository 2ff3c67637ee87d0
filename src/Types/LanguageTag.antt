-- ===== src/Types/LanguageTag.antt =====
-- src/types.rs: the language tags of the names of fields, helpers::split_language_tag_key.
use Prim.Native.Char.{code}
use text.Mathlib.TextLemmas.{nil-append, cons-append}
use openidconnect_rs.Prelude.{
  String, ◌≡◌, refl, ap, ◌∙◌, Bool, true, false, not, ◌&&◌, Bool-cases, inl, inr, Option, none,
  some, nat_eq, ◌==◌, if◌then◌else◌,
}
use openidconnect_rs.Text.{◌+++◌}

-- `key.splitn(2, '#')`: what stands before the first mark, and after it if there is one.

unfoldable pub split_mark : String → String × Option String
split_mark String.[] = ("", none)
split_mark (String.◌∷◌ c s) =
    let rest = split_mark s in
    if nat_eq (code c) b'#' then ("", some s) else (String.◌∷◌ c rest.0, rest.1)

-- `.filter(|language_tag| !language_tag.is_empty())`
unfoldable pub not_empty : Option String → Option String
not_empty none = none
not_empty (some language_tag) = if language_tag == "" then none else some language_tag

unfoldable pub split_language_tag_key : String → String × Option String
unfolding split_mark not_empty
split_language_tag_key key = let (field_name, tag) = split_mark key in (field_name, not_empty tag)

split_test : split_language_tag_key "name#fr#x" ≡ ("name", some "fr#x")
unfolding split_language_tag_key
split_test = refl

no_tag_test : split_language_tag_key "name#" ≡ ("name", none)
unfolding split_language_tag_key
no_tag_test = refl

-- A field name without a mark.
unfoldable pub has_no_mark : String → Bool
has_no_mark String.[] = true
has_no_mark (String.◌∷◌ c s) = let rest = has_no_mark s in not (nat_eq (code c) b'#') && rest

split_mark-append :
    (s l : String) → has_no_mark s ≡ true → split_mark (s +++ "#" +++ l) ≡ (s, some l)
unfolding split_mark has_no_mark
split_mark-append String.[] l h =
    rw (nil-append ("#" +++ l)) (rw (cons-append _ "" l) (rw (nil-append l) refl))
split_mark-append (String.◌∷◌ c s) l h = elim (Bool-cases (nat_eq (code c) b'#')) [
  | inl mark ↦ cc (rw mark at h)
  | inr other ↦
      rw (cons-append c s ("#" +++ l)) (rw other (rw (split_mark-append s l (rw other at h)) refl))
]

pub split_language_tag_key-append :
    (s l : String)
    → has_no_mark s ≡ true
    → (l == "") ≡ false
    → split_language_tag_key (s +++ "#" +++ l) ≡ (s, some l)
unfolding split_language_tag_key not_empty
split_language_tag_key-append s l h named =
    ap (λ w. (w.0, not_empty w.1)) (split_mark-append s l h) ∙ rw named refl
