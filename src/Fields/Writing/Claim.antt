-- ===== src/Fields/Writing/Claim.antt =====
-- The localized claims that are read as they were written.
use openidconnect_rs.Prelude.{
  String, ◌≡◌, refl, ap, ◌∙◌, sym, false, ◌==◌, eq_iff, Bool-cases, inl, inr, Option, none, some,
  List, [], ◌∷◌, ◌++◌, map, is_some, Result, ok, arith,
}
use mathlib.Core.List.{append-nil, append_assoc}
use openidconnect_rs.Types.HashMap
use openidconnect_rs.Types.HashMap.{HashMap}
use openidconnect_rs.Types.LocalizedClaim
use openidconnect_rs.Types.LocalizedClaim.{
  LocalizedClaim, contains_key, insert, iter, untagged_entries,
}
use openidconnect_rs.Text.{◌+++◌}
use openidconnect_rs.Types.LanguageTag.{split_language_tag_key}
use openidconnect_rs.Fields.{FieldError, Case, localized_case, visit_entries}
use openidconnect_rs.Fields.Writing.{write_localized}
use openidconnect_rs.Fields.Writing.Read.{Reads, Arm}
use openidconnect_rs.Fields.Writing.Localized.{Fresh, inserted, Tagged, HasValues, all_read}

apart_names : (k l : String) → (k == l) ≡ false → (l == k) ≡ false
apart_names k l h = ground (arith, eq_iff k l, eq_iff l k)

module _ {V : Type 0} where
  -- A HashMap of values by language tags that are not empty.
  abbrev pub IsTagMap : HashMap V → Type 0
  IsTagMap [] = Unit
  IsTagMap ((l, v) ∷ m) = ((l == "") ≡ false) × (HashMap.get l m ≡ none) × IsTagMap m

  abbrev pub tags : HashMap V → List (Option String × V)
  tags m = map (λ e. (some e.0, e.1)) m

  tags-Tagged : (m : HashMap V) → IsTagMap m → Tagged (tags m)
  tags-Tagged [] h = tt
  tags-Tagged ((l, v) ∷ m) (named, fresh, h) = (named, tags-Tagged m h)

  -- No tag of the second map is in the first.
  abbrev Apart : HashMap V → HashMap V → Type 0
  Apart held [] = Unit
  Apart held ((l, v) ∷ m) = (HashMap.get l held ≡ none) × Apart held m

  insert_new :
      (l : String) (v : V) (held : HashMap V)
      → HashMap.get l held ≡ none
      → HashMap.insert l v held ≡ held ++ (l, v) ∷ []
  unfolding HashMap.insert HashMap.get
  insert_new l v [] h = refl
  insert_new l v ((k, old) ∷ held) h = elim (Bool-cases (k == l)) [
    | inl same ↦ cc (rw same at h)
    | inr other ↦ rw other (ap (λ z. (k, old) ∷ z) (insert_new l v held (rw other at h)))
  ]

  Apart-insert :
      (l : String) (v : V) (held m : HashMap V)
      → Apart held m
      → HashMap.get l m ≡ none
      → Apart (HashMap.insert l v held) m
  unfolding HashMap.get
  Apart-insert l v held [] h fresh = tt
  Apart-insert l v held ((k, x) ∷ m) (free, h) fresh = elim (Bool-cases (k == l)) [
    | inl same ↦ cc (rw same at fresh)
    | inr other ↦ (
      HashMap.get-insert l k v held ∙ rw (apart_names k l other, free) refl,
      Apart-insert l v held m h (rw other at fresh),
    )
  ]

  tags-Fresh :
      (m held : HashMap V) (u : Option V)
      → IsTagMap m
      → Apart held m
      → Fresh (record { tagged = held; untagged = u }) (tags m)
  unfolding contains_key insert
  tags-Fresh [] held u h apart = tt
  tags-Fresh ((l, v) ∷ m) held u (named, fresh, h) (free, apart) = (
    ap is_some free,
    tags-Fresh m (HashMap.insert l v held) u h (Apart-insert l v held m apart fresh),
  )

  tags-inserted :
      (m held : HashMap V) (u : Option V)
      → IsTagMap m
      → Apart held m
      → inserted (record { tagged = held; untagged = u }) (tags m)
        ≡ record { tagged = held ++ m; untagged = u }
  unfolding insert
  tags-inserted [] held u h apart =
      ap (λ z. record { tagged = z; untagged = u }) (sym (append-nil held))
  tags-inserted ((l, v) ∷ m) held u (named, fresh, h) (free, apart) =
      tags-inserted m (HashMap.insert l v held) u h (Apart-insert l v held m apart fresh)
      ∙ ap (λ z. record { tagged = z; untagged = u })
          (ap (λ z. z ++ m) (insert_new l v held free) ∙ append_assoc held ((l, v) ∷ []) m)

  Apart-nil : (m : HashMap V) → Apart [] m
  unfolding HashMap.get
  Apart-nil [] = tt
  Apart-nil (e ∷ m) = (refl, Apart-nil m)

  -- A claim that is not empty, whose entries stand in the order that `sorted` gives them and whose
  -- language tags are not empty.
  abbrev pub IsWritable :
      (List (Option String × V) → List (Option String × V)) → LocalizedClaim V → Type 0
  IsWritable sorted c = (sorted (iter c) ≡ iter c) × IsTagMap c.tagged × HasValues (iter c)

  abbrev pub AllWritable :
      (List (Option String × V) → List (Option String × V)) → Option (LocalizedClaim V) → Type 0
  AllWritable sorted none = Unit
  AllWritable sorted (some c) = IsWritable sorted c

  pub iter-Tagged :
      (u : Option V) (m : HashMap V) → IsTagMap m → Tagged (untagged_entries u ++ tags m)
  unfolding untagged_entries
  iter-Tagged none m h = tags-Tagged m h
  iter-Tagged (some v) m h = tags-Tagged m h

  pub iter-Fresh :
      (u : Option V) (m : HashMap V)
      → IsTagMap m
      → Fresh LocalizedClaim.new (untagged_entries u ++ tags m)
  unfolding untagged_entries LocalizedClaim.new contains_key insert
  iter-Fresh none m h = tags-Fresh m [] none h (Apart-nil m)
  iter-Fresh (some v) m h = (refl, tags-Fresh m [] (some v) h (Apart-nil m))

  pub inserted-iter :
      (u : Option V) (m : HashMap V)
      → IsTagMap m
      → inserted LocalizedClaim.new (untagged_entries u ++ tags m)
        ≡ record { tagged = m; untagged = u }
  unfolding untagged_entries LocalizedClaim.new insert
  inserted-iter none m h = tags-inserted m [] none h (Apart-nil m)
  inserted-iter (some v) m h = tags-inserted m [] (some v) h (Apart-nil m)

module _ {J S E V : Type 0} (arms : List (String × Case J S E)) (field : String)
    (slot : S → Option (LocalizedClaim V)) (put : S → Option (LocalizedClaim V) → S) (write : V → J)
    (next_value : J → Result V (FieldError E))
    (sorted : List (Option String × V) → List (Option String × V)) where
  -- A localized claim that is written is read again by its arm.
  pub Reads-write_localized :
      Arm arms field (localized_case slot put next_value)
      → ((v : V) → next_value (write v) ≡ ok v)
      → split_language_tag_key field ≡ (field, none)
      → ((l : String)
          → (l == "") ≡ false
          → split_language_tag_key (field +++ "#" +++ l) ≡ (field, some l))
      → ((s : S) (o : Option (LocalizedClaim V)) → slot (put s o) ≡ o)
      → ((s : S) (a b : Option (LocalizedClaim V)) → put (put s a) b ≡ put s b)
      → (s : S) (o : Option (LocalizedClaim V)) → AllWritable sorted o
      → slot s ≡ none
      → put s (slot s) ≡ s
      → Reads arms (write_localized field write sorted o) s (put s o)
  unfolding write_localized visit_entries iter
  Reads-write_localized arm read plain tagged slot_put put_put s none writable free same =
      ap ok (sym (rw free at same))
  Reads-write_localized arm read plain tagged slot_put put_put s (some c) (in_order, map_ok, values)
        free same =
      let all =
        all_read arms field slot put write next_value arm read plain tagged slot_put put_put
          (iter c) s free values (iter-Fresh c.untagged c.tagged map_ok)
          (iter-Tagged c.untagged c.tagged map_ok) in
      let rebuilt : inserted LocalizedClaim.new (iter c) ≡ c =
        inserted-iter c.untagged c.tagged map_ok in
      rw in_order (rw rebuilt at all)
