-- ===== src/Fields/Once.antt =====
-- Fields that must be there, read by deserialize_fields!: from one entry, and from one only.
use openidconnect_rs.Prelude.{
  String, ◌≡◌, ◌⊎◌, inl, inr, refl, sym, ap, ◌∙◌, Option, none, some, List, [], ◌∷◌, Result, ok,
  >>=-iff, >>-eq-ok, ok_inj, ◌==◌, eq_iff, Bool-cases, All, OnlyPasses,
}
use openidconnect_rs.Types.LanguageTag.{split_language_tag_key}
use openidconnect_rs.Types.LocalizedClaim.{LocalizedClaim, contains_key}
use openidconnect_rs.Fields.{
  FieldError, Case, check_single, required_case, optional_case, localized_case, or_new, match_field,
  visit_entry, visit_entries,
}

-- An arm that leaves a local variable as it is.
abbrev pub Keeps : {J S E V : Type 0} → (S → V) → Case J S E → Type 0
Keeps {J} {S} f arm =
    (key : String) (tag : Option String) (value : J) (s s' : S)
    → arm key tag value s ≡ ok s'
    → f s' ≡ f s

module _ {J S E V W : Type 0} (f : S → W) (field : String) where
  pub optional_case-Keeps :
      (slot : S → Option V) (put : S → Option V → S)
      (next_value : J → Result (Option V) (FieldError E))
      → ((s : S) (o : Option V) → f (put s o) ≡ f s)
      → Keeps f (optional_case field slot put next_value)
  unfolding optional_case
  optional_case-Keeps slot put next_value same key tag value s s' e =
      let (single, e1) = >>-eq-ok _ _ e in
      let (v, read, made) = (>>=-iff (next_value value) _).0 e1 in
      ap f (sym (ok_inj made)) ∙ same s v

module _ {J S E V W : Type 0} (f : S → W) where
  pub localized_case-Keeps :
      (slot : S → Option (LocalizedClaim V)) (put : S → Option (LocalizedClaim V) → S)
      (next_value : J → Result V (FieldError E))
      → ((s : S) (o : Option (LocalizedClaim V)) → f (put s o) ≡ f s)
      → Keeps f (localized_case slot put next_value)
  unfolding localized_case
  localized_case-Keeps slot put next_value same key tag value s s' e =
      elim (Bool-cases (contains_key (or_new (slot s)) tag)) [
        | inl held ↦ cc (rw held at e)
        | inr free ↦
            let (v, read, made) = (>>=-iff (next_value value) _).0 (rw free at e) in
            ap f (sym (ok_inj made)) ∙ same s _
      ]

match_field-Keeps :
    {J S E W : Type 0} (f : S → W) (arms : List (String × Case J S E))
    → All (λ arm. Keeps f arm.1) arms
    → (name : String) → Keeps f (match_field arms name)
unfolding match_field
match_field-Keeps f [] h name key tag value s s' e = ap f (sym (ok_inj e))
match_field-Keeps f ((field, arm) ∷ arms) (k, h) name key tag value s s' e =
    elim (Bool-cases (name == field)) [
      | inl same ↦ k key tag value s s' (rw same at e)
      | inr other ↦ match_field-Keeps f arms h name key tag value s s' (rw other at e)
    ]

check_single_iff :
    {E V : Type 0} (field : String) (slot : Option V) (tag : Option String)
    → check_single {E = E} field slot tag ≡ ok tt
    → (slot ≡ none) × (tag ≡ none)
unfolding check_single
check_single_iff field none none e = (refl, refl)
check_single_iff field none (some l) e = cc
check_single_iff field (some v) tag e = cc

-- The key of an entry names the field.
abbrev pub Names : {J : Type 0} → String → String × J → Type 0
Names field e = (split_language_tag_key e.0).0 ≡ field

module _ {J S E V : Type 0} (field : String) (slot : S → Option V) (put : S → Option V → S)
    (next_value : J → Result V (FieldError E)) (arms : List (String × Case J S E))
    (put_slot : (s : S) (o : Option V) → slot (put s o) ≡ o)
    (others_keep : All (λ arm. Keeps slot arm.1) arms) where
  abbrev all_arms : List (String × Case J S E)
  all_arms = (field, required_case field slot put next_value) ∷ arms

  -- What the entry does to the field.
  step :
      (e : String × J) (s s' : S)
      → visit_entry all_arms e s ≡ ok s'
      → (Names field e
          × (slot s ≡ none)
          × ((split_language_tag_key e.0).1 ≡ none)
          × ((v : V) × (next_value e.1 ≡ ok v) × (slot s' ≡ some v)))
        ⊎ ((¬ Names field e) × (slot s' ≡ slot s))
  unfolding visit_entry match_field required_case
  step (key, value) s s' h =
      let (name, tag) = split_language_tag_key key in
      elim (Bool-cases (name == field)) [
        | inl same ↦
            let h1 : required_case field slot put next_value key tag value s ≡ ok s' =
              rw same at h in
            let (single, h2) = >>-eq-ok _ _ h1 in
            let (v, read, made) = (>>=-iff (next_value value) _).0 h2 in
            let (unset, untagged) = check_single_iff field (slot s) tag single in
            inl (
              (eq_iff name field).0 same,
              unset,
              untagged,
              (v, read, ap slot (sym (ok_inj made)) ∙ put_slot s (some v)),
            )
        | inr other ↦
            let h1 : match_field arms name key tag value s ≡ ok s' = rw other at h in
            inr (
              λ q. cc (other, (eq_iff name field).1 q),
              match_field-Keeps slot arms others_keep name key tag value s s' h1,
            )
      ]

  -- Once the field is set, no other entry names it.
  once_set :
      (entries : List (String × J)) (s s' : S) (v : V)
      → slot s ≡ some v
      → visit_entries all_arms entries s ≡ ok s'
      → (slot s' ≡ some v) × All (λ e. ¬ Names field e) entries
  unfolding visit_entries
  once_set [] s s' v set h = (ap slot (sym (ok_inj h)) ∙ set, tt)
  once_set (e ∷ entries) s s' v set h =
      let (t, one, h1) = (>>=-iff (visit_entry all_arms e s) _).0 h in
      elim (step e s t one) [
        | inl named ↦ cc (named.1, set)
        | inr unnamed ↦
            let (kept, none_left) = once_set entries t s' v (unnamed.1 ∙ set) h1 in
            (kept, (unnamed.0, none_left))
      ]

  -- If the field is set at the end and was not at the start, one entry names it, without a language
  -- tag, and gave the value.
  pub once :
      (entries : List (String × J)) (s s' : S) (v : V)
      → slot s ≡ none
      → visit_entries all_arms entries s ≡ ok s'
      → slot s' ≡ some v
      → (e : String × J) × OnlyPasses (Names field) entries e
        × ((split_language_tag_key e.0).1 ≡ none)
        × (next_value e.1 ≡ ok v)
  unfolding visit_entries
  once [] s s' v unset h set = cc (unset, ap slot (ok_inj h), set)
  once (e ∷ entries) s s' v unset h set =
      let (t, one, h1) = (>>=-iff (visit_entry all_arms e s) _).0 h in
      elim (step e s t one) [
        | inl named ↦
            let (w, read, now) = named.3 in
            let (kept, none_left) = once_set entries t s' w now h1 in
            let same : ◌≡◌ {A = Result V (FieldError E)} (ok w) (ok v) = cc (kept, set) in
            (
              e,
              record {
                before = [];
                after = entries;
                split = refl;
                passes = named.0;
                none_before = tt;
                none_after = none_left;
              },
              named.2,
              read ∙ same,
            )
        | inr unnamed ↦
            let (d, only, untagged, read) = once entries t s' v (unnamed.1 ∙ unset) h1 set in
            (
              d,
              record {
                before = e ∷ only.before;
                after = only.after;
                split = ap (λ l. e ∷ l) only.split;
                passes = only.passes;
                none_before = (unnamed.0, only.none_before);
                none_after = only.none_after;
              },
              untagged,
              read,
            )
      ]
