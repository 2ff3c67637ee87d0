-- ===== src/Fields/Writing.antt =====
-- src/macros.rs: serialize_fields!, as the entries of the object that it writes. Writing to the
-- serializer does not fail here.
pub mod Claim
pub mod Localized
pub mod Read
use openidconnect_rs.Prelude.{String, Option, none, some, List, [], ◌∷◌, map}
use openidconnect_rs.Text.{◌+++◌}
use openidconnect_rs.Types.LocalizedClaim.{LocalizedClaim, iter}

module _ {J V : Type 0} (field : String) (write : V → J) where
  -- `@case ... $field`
  unfoldable pub write_required : V → List (String × J)
  write_required v = (field, write v) ∷ []

  -- `@case ... Option($field)`, and the arms for seconds and times
  unfoldable pub write_optional : Option V → List (String × J)
  write_optional none = []
  write_optional (some v) = (field, write v) ∷ []

  unfoldable pub tagged_entry : Option String × V → String × J
  tagged_entry (none, v) = (field, write v)
  tagged_entry (some language_tag, v) = (field +++ "#" +++ language_tag, write v)

  -- `@case ... LanguageTag($field)`; `sorted` is that of the crate itertools.
  unfoldable pub write_localized :
      (List (Option String × V) → List (Option String × V))
      → Option (LocalizedClaim V)
      → List (String × J)
  unfolding tagged_entry iter
  write_localized sorted none = []
  write_localized sorted (some field_map) = map tagged_entry (sorted (iter field_map))
