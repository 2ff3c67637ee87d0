-- ===== src/Fields/Writing/Read.antt =====
-- What the reading of fields makes of the entries that were written for them.
use openidconnect_rs.Prelude.{
  String, ◌≡◌, refl, ap, ◌∙◌, sym, Option, none, some, List, [], ◌∷◌, ◌++◌, Result, ok, >>=-iff,
  >>=-intro, ok_inj,
}
use openidconnect_rs.Types.LanguageTag.{split_language_tag_key}
use openidconnect_rs.Fields.{
  FieldError, Case, check_single, required_case, optional_case, match_field, visit_entry,
  visit_entries,
}
use openidconnect_rs.Fields.Writing.{write_required, write_optional}

module _ {J S E : Type 0} (arms : List (String × Case J S E)) where
  -- The reading of entries takes one state of the locals to another.
  abbrev pub Reads : List (String × J) → S → S → Type 0
  Reads es s s' = visit_entries arms es s ≡ ok s'

  pub Reads-append :
      (es fs : List (String × J)) (s s1 s2 : S)
      → Reads es s s1
      → Reads fs s1 s2
      → Reads (es ++ fs) s s2
  unfolding visit_entries
  Reads-append [] fs s s1 s2 h k = rw (ok_inj h) k
  Reads-append (e ∷ es) fs s s1 s2 h k =
      let (next, visited, h1) = (>>=-iff (visit_entry arms e s) _).0 h in
      >>=-intro _ visited (Reads-append es fs next s1 s2 h1 k)

  pub Reads-one :
      (key field : String) (tag : Option String) (value : J) (s s' : S)
      → split_language_tag_key key ≡ (field, tag)
      → match_field arms field key tag value s ≡ ok s'
      → Reads ((key, value) ∷ []) s s'
  unfolding visit_entries visit_entry
  Reads-one key field tag value s s' splits matched =
      let visited : visit_entry arms (key, value) s ≡ ok s' =
        ap (λ w. match_field arms w.0 key w.1 value s) splits ∙ matched in
      >>=-intro _ visited refl

  -- The arm of a field.
  abbrev pub Arm : String → Case J S E → Type 0
  Arm field arm =
      (key : String) (tag : Option String) (value : J) (s : S)
      → match_field arms field key tag value s ≡ arm key tag value s

  module _ {V : Type 0} (field : String) (slot : S → Option V) (put : S → Option V → S)
      (write : V → J) (plain : split_language_tag_key field ≡ (field, none)) where
    pub Reads-write_required :
        (next_value : J → Result V (FieldError E))
        → Arm field (required_case field slot put next_value)
        → ((v : V) → next_value (write v) ≡ ok v)
        → (s : S) (v : V) → slot s ≡ none
        → Reads (write_required field write v) s (put s (some v))
    unfolding write_required required_case check_single
    Reads-write_required next_value arm read s v free =
        Reads-one field field none (write v) s (put s (some v)) plain
          (arm field none (write v) s ∙ rw free (>>=-intro _ (read v) refl))

    pub Reads-write_optional :
        (next_value : J → Result (Option V) (FieldError E))
        → Arm field (optional_case field slot put next_value)
        → (s : S) (o : Option V) → ((v : V) → o ≡ some v → next_value (write v) ≡ ok (some v))
        → slot s ≡ none
        → put s (slot s) ≡ s
        → Reads (write_optional field write o) s (put s o)
    unfolding write_optional optional_case check_single visit_entries
    Reads-write_optional next_value arm s none read free same = ap ok (sym (rw free at same))
    Reads-write_optional next_value arm s (some v) read free same =
        Reads-one field field none (write v) s (put s (some v)) plain
          (arm field none (write v) s ∙ rw free (>>=-intro _ (read v refl) refl))
