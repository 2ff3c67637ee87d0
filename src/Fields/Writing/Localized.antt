-- ===== src/Fields/Writing/Localized.antt =====
-- What the reading of a localized field makes of the entries that were written for it.
use openidconnect_rs.Prelude.{
  String, ◌≡◌, refl, ap, ◌∙◌, false, ◌==◌, Option, none, some, List, [], ◌∷◌, map, Result, ok,
  >>=-intro,
}
use openidconnect_rs.Text.{◌+++◌}
use openidconnect_rs.Types.LanguageTag.{split_language_tag_key}
use openidconnect_rs.Types.LocalizedClaim
use openidconnect_rs.Types.LocalizedClaim.{LocalizedClaim, contains_key, insert, iter}
use openidconnect_rs.Fields.{FieldError, Case, localized_case, or_new, match_field, visit_entries}
use openidconnect_rs.Fields.Writing.{tagged_entry}
use openidconnect_rs.Fields.Writing.Read.{Reads, Reads-append, Reads-one, Arm}

module _ {V : Type 0} where
  -- The values can be inserted one after the other, and none replaces another.
  abbrev pub Fresh : LocalizedClaim V → List (Option String × V) → Type 0
  Fresh c [] = Unit
  Fresh c ((tag, v) ∷ es) = (contains_key c tag ≡ false) × Fresh (insert c tag v).0 es

  abbrev pub inserted : LocalizedClaim V → List (Option String × V) → LocalizedClaim V
  inserted c [] = c
  inserted c ((tag, v) ∷ es) = inserted (insert c tag v).0 es

  -- No language tag is empty.
  abbrev pub Tagged : List (Option String × V) → Type 0
  Tagged [] = Unit
  Tagged ((none, v) ∷ es) = Tagged es
  Tagged ((some l, v) ∷ es) = ((l == "") ≡ false) × Tagged es

  abbrev pub HasValues : List (Option String × V) → Type 0
  HasValues [] = ⊥
  HasValues (e ∷ es) = Unit

module _ {J S E V : Type 0} (arms : List (String × Case J S E)) (field : String)
    (slot : S → Option (LocalizedClaim V)) (put : S → Option (LocalizedClaim V) → S) (write : V → J)
    (next_value : J → Result V (FieldError E))
    (arm : Arm arms field (localized_case slot put next_value))
    (read : (v : V) → next_value (write v) ≡ ok v)
    (plain : split_language_tag_key field ≡ (field, none))
    (tagged : (l : String)
      → (l == "") ≡ false
      → split_language_tag_key (field +++ "#" +++ l) ≡ (field, some l))
    (slot_put : (s : S) (o : Option (LocalizedClaim V)) → slot (put s o) ≡ o)
    (put_put : (s : S) (a b : Option (LocalizedClaim V)) → put (put s a) b ≡ put s b) where
  matched :
      (key : String) (tag : Option String) (v : V) (c : LocalizedClaim V) (s : S)
      → or_new (slot s) ≡ c
      → contains_key c tag ≡ false
      → match_field arms field key tag (write v) s ≡ ok (put s (some (insert c tag v).0))
  unfolding localized_case
  matched key tag v c s is_c free =
      arm key tag (write v) s ∙ rw (is_c, free) (>>=-intro _ (read v) refl)

  one_read :
      (e : Option String × V) (c : LocalizedClaim V) (s : S)
      → or_new (slot s) ≡ c
      → contains_key c e.0 ≡ false
      → Tagged (e ∷ [])
      → Reads arms (tagged_entry field write e ∷ []) s (put s (some (insert c e.0 e.1).0))
  unfolding tagged_entry
  one_read (none, v) c s is_c free named =
      Reads-one arms field field none (write v) s _ plain (matched field none v c s is_c free)
  one_read (some l, v) c s is_c free named =
      Reads-one arms (field +++ "#" +++ l) field (some l) (write v) s _ (tagged l named.0)
        (matched (field +++ "#" +++ l) (some l) v c s is_c free)

  head_named :
      (e : Option String × V) (es : List (Option String × V))
      → Tagged (e ∷ es)
      → Tagged (e ∷ []) × Tagged es
  head_named (none, v) es h = (tt, h)
  head_named (some l, v) es h = ((h.0, tt), h.1)

  more_read :
      (es : List (Option String × V)) (c : LocalizedClaim V) (s : S)
      → Fresh c es
      → Tagged es
      → Reads arms
          (map (tagged_entry field write) es)
          (put s (some c))
          (put s (some (inserted c es)))
  unfolding or_new visit_entries
  more_read [] c s fresh named = refl
  more_read (e ∷ es) c s (free, fresh) named =
      let (head, rest) = head_named e es named in
      let first = one_read e c (put s (some c)) (ap or_new (slot_put s (some c))) free head in
      Reads-append arms (tagged_entry field write e ∷ []) (map (tagged_entry field write) es) _ _ _
        (rw (put_put s (some c) (some (insert c e.0 e.1).0)) at first)
        (more_read es (insert c e.0 e.1).0 s fresh rest)

  pub all_read :
      (es : List (Option String × V)) (s : S)
      → slot s ≡ none
      → HasValues es
      → Fresh LocalizedClaim.new es
      → Tagged es
      → Reads arms
          (map (tagged_entry field write) es)
          s
          (put s (some (inserted LocalizedClaim.new es)))
  unfolding or_new
  all_read [] s empty values fresh named = absurd values
  all_read (e ∷ es) s empty values (free, fresh) named =
      let (head, rest) = head_named e es named in
      Reads-append arms (tagged_entry field write e ∷ []) (map (tagged_entry field write) es) _ _ _
        (one_read e LocalizedClaim.new s (ap or_new empty) free head)
        (more_read es (insert LocalizedClaim.new e.0 e.1).0 s fresh rest)
