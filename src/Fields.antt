-- ===== src/Fields.antt =====
-- src/macros.rs: deserialize_fields!, over the entries of an object of well-formed JSON. The local
-- variables of its expansion are a record `S`; an arm of its `match` is one case below.
pub mod Once
pub mod Writing
use openidconnect_rs.Prelude.{
  String, Bool, true, false, Option, none, some, List, [], ◌∷◌, Result, ok, err, ◌>>=◌, ◌>>◌,
  map_err, is_some, ◌==◌, if◌then◌else◌,
}
use openidconnect_rs.Text.{◌+++◌, quoted}
use openidconnect_rs.Types.LanguageTag.{split_language_tag_key}
use openidconnect_rs.Types.LocalizedClaim
use openidconnect_rs.Types.LocalizedClaim.{LocalizedClaim, contains_key, insert}

-- The errors that the expansion makes, and those of the values that it reads.
pub data FieldError (E : Type 0) : Type 0 where
  duplicate_field missing_field custom : String → FieldError E
  invalid_value : E → FieldError E

module _ {E : Type 0} where
  -- The two tests that every arm but that of a localized field starts with.
  unfoldable pub check_single :
      {V : Type 0} → String → Option V → Option String → Result (Unit {0}) (FieldError E)
  check_single field (some v) tag = err (duplicate_field field)
  check_single field none (some language_tag) =
      err (
        custom
          ("unexpected language tag " +++ quoted language_tag +++ " for key " +++ quoted field))
  check_single field none none = ok tt

  -- `.ok_or_else(|| missing_field(field))`
  unfoldable pub present : {V : Type 0} → String → Option V → Result V (FieldError E)
  present field (some v) = ok v
  present field none = err (missing_field field)

-- What an arm does with an entry: its key, the language tag in it, its value, and the locals.
abbrev pub Case : Type 0 → Type 0 → Type 0 → Type 0
Case J S E = String → Option String → J → S → Result S (FieldError E)

module _ {J S E V : Type 0} (field : String) where
  -- `@case ... $field`
  unfoldable pub required_case :
      (S → Option V) → (S → Option V → S) → (J → Result V (FieldError E)) → Case J S E
  unfolding check_single
  required_case slot put next_value key language_tag_opt value locals = do
    check_single field (slot locals) language_tag_opt
    v ← next_value value
    ok (put locals (some v))

  -- `@case ... Option($field)`, and the arms for seconds, times and booleans, which differ in how the
  -- value is read
  unfoldable pub optional_case :
      (S → Option V) → (S → Option V → S) → (J → Result (Option V) (FieldError E)) → Case J S E
  unfolding check_single
  optional_case slot put next_value key language_tag_opt value locals = do
    check_single field (slot locals) language_tag_opt
    v ← next_value value
    ok (put locals v)

unfoldable pub or_new : {V : Type 0} → Option (LocalizedClaim V) → LocalizedClaim V
or_new none = LocalizedClaim.new
or_new (some localized_claim) = localized_claim

module _ {J S E V : Type 0} where
  -- `@case ... LanguageTag($field)`
  unfoldable pub localized_case :
      (S → Option (LocalizedClaim V))
      → (S → Option (LocalizedClaim V) → S)
      → (J → Result V (FieldError E))
      → Case J S E
  unfolding or_new
  localized_case slot put next_value key language_tag_opt value locals =
      let localized_claim = or_new (slot locals) in
      if contains_key localized_claim language_tag_opt
      then err (custom ("duplicate field " +++ quoted key))
      else (do
        v ← next_value value
        ok (put locals (some (insert localized_claim language_tag_opt v).0)))

module _ {J S E : Type 0} where
  -- The `match` on the name of a field; unknown fields are ignored.
  unfoldable pub match_field : List (String × Case J S E) → String → Case J S E
  match_field [] field_name key tag value locals = ok locals
  match_field ((field, arm) ∷ arms) field_name key tag value locals =
      let rest = match_field arms field_name key tag value locals in
      if field_name == field then arm key tag value locals else rest

  -- The body of the `while` loop.
  unfoldable pub visit_entry : List (String × Case J S E) → String × J → S → Result S (FieldError E)
  unfolding split_language_tag_key match_field
  visit_entry arms (key, value) locals =
      let (field_name, language_tag_opt) = split_language_tag_key key in
      match_field arms field_name key language_tag_opt value locals

  -- The `while` loop.
  unfoldable pub visit_entries :
      List (String × Case J S E) → List (String × J) → S → Result S (FieldError E)
  unfolding visit_entry
  visit_entries arms [] locals = ok locals
  visit_entries arms (e ∷ entries) locals = do
    next ← visit_entry arms e locals
    visit_entries arms entries next
