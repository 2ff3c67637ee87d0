-- ===== src/Claims/Fields/Additional.antt =====
-- The entries of an object that are left for the additional claims.
use openidconnect_rs.Prelude.{
  String, Bool, true, false, not, ◌&&◌, ◌||◌, ◌≡◌, ◌⊎◌, inl, inr, refl, ap, ◌∙◌, sym, Option, none,
  some, List, [], ◌∷◌, All, Result, ok, >>=-iff, >>-eq-ok, ok_inj, any, filter, is_some, ◌==◌,
  eq_iff, Bool-cases, Option-cases,
}
use openidconnect_rs.Types.Platform.{Platform}
use openidconnect_rs.Types.LanguageTag.{split_language_tag_key}
use openidconnect_rs.Fields.{
  FieldError, Case, check_single, required_case, optional_case, match_field, visit_entry,
  visit_entries,
}
use openidconnect_rs.Claims.Standard.{StandardClaims}
use openidconnect_rs.Claims.Fields.{
  ClaimValues, Locals, no_locals, next_value, next_option, next_time, other_arms, claim_arms,
  claims_of, visit_map, tagged_names, plain_names, should_include, filtered_flatten,
}

-- An arm that refuses every entry with a language tag.
abbrev RefusesTags : {J S E : Type 0} → Case J S E → Type 0
RefusesTags {J} {S} arm =
    (key language_tag : String) (value : J) (s s' : S)
    → ¬ (arm key (some language_tag) value s ≡ ok s')

-- Where `should_include` looks for the name of an arm.
abbrev Fits : {J S E : Type 0} → String × Case J S E → Type 0
Fits (field, arm) =
    (any (λ n. field == n) tagged_names ≡ true)
    ⊎ ((any (λ n. field == n) plain_names ≡ true) × RefusesTags arm)

tag_refused :
    {E V : Type 0} (field : String) (slot : Option V) (language_tag : String)
    → ¬ (check_single {E = E} field slot (some language_tag) ≡ ok tt)
unfolding check_single
tag_refused field none language_tag e = cc e
tag_refused field (some v) language_tag e = cc e

module _ {J S E V : Type 0} (field : String) (slot : S → Option V) (put : S → Option V → S) where
  optional_case-RefusesTags :
      (next_value : J → Result (Option V) (FieldError E))
      → RefusesTags (optional_case field slot put next_value)
  unfolding optional_case
  optional_case-RefusesTags next_value key language_tag value s s' e =
      tag_refused field (slot s) language_tag (>>-eq-ok _ _ e).0

  required_case-RefusesTags :
      (next_value : J → Result V (FieldError E))
      → RefusesTags (required_case field slot put next_value)
  unfolding required_case
  required_case-RefusesTags next_value key language_tag value s s' e =
      tag_refused field (slot s) language_tag (>>-eq-ok _ _ e).0

included_iff :
    (a b c : Bool) → not (a || (not b && c)) ≡ true → (a ≡ false) × (b ≡ false → c ≡ false)
included_iff true b c h = cc h
included_iff false true c h = (refl, λ k. cc k)
included_iff false false true h = cc h
included_iff false false false h = (refl, λ k. refl)

module _ {J S E : Type 0} where
  match_field-ignores :
      (arms : List (String × Case J S E))
      → All Fits arms
      → (name key : String) (tag : Option String) (value : J) (s s' : S)
      → any (λ n. name == n) tagged_names ≡ false
      → (is_some tag ≡ false → any (λ n. name == n) plain_names ≡ false)
      → match_field arms name key tag value s ≡ ok s'
      → (z : S) → match_field arms name key tag value z ≡ ok z
  unfolding match_field
  match_field-ignores [] h name key tag value s s' tagged plain e z = refl
  match_field-ignores ((field, arm) ∷ arms) (fits, h) name key tag value s s' tagged plain e z =
      elim (Bool-cases (name == field)) [
        | inl same ↦ elim fits [
          | inl is_tagged ↦
              (let moved = ap (λ n. any (λ m. n == m) tagged_names) ((eq_iff name field).0 same) in
                cc)
          | inr (is_plain, refuses) ↦ elim (Option-cases tag) [
            | inl untagged ↦
                (let moved = ap (λ n. any (λ m. n == m) plain_names) ((eq_iff name field).0 same) in
                  let not_plain = plain (ap is_some untagged) in cc)
            | inr (l, tagged_l) ↦ absurd (refuses key l value s s' (rw (same, tagged_l) at e))
          ]
        ]
        | inr other ↦
            rw other
              (match_field-ignores arms h name key tag value s s' tagged plain (rw other at e) z)
      ]

module _ {p : Platform} {GC J E : Type 0} (r : ClaimValues p GC J E) where
  abbrev Arm : Type 0
  Arm = Case J (Locals p GC) E

  claim_arms-Fits : All Fits (claim_arms r)
  unfolding claim_arms other_arms any
  claim_arms-Fits = (
    inr (
      refl,
      required_case-RefusesTags "sub" (λ (s : Locals p GC). s.sub) (λ s v. record s { sub = v })
          (next_value r r.text),
    ),
    (
      inl refl,
      (
        inl refl,
        (
          inl refl,
          (
            inl refl,
            (
              inl refl,
              (
                inr (
                  refl,
                  optional_case-RefusesTags "preferred_username"
                      (λ (s : Locals p GC). s.preferred_username)
                      (λ s v. record s { preferred_username = v }) (next_option r r.text),
                ),
                (
                  inl refl,
                  (
                    inl refl,
                    (
                      inl refl,
                      (
                        inr (
                          refl,
                          optional_case-RefusesTags "email" (λ (s : Locals p GC). s.email)
                              (λ s v. record s { email = v }) (next_option r r.text),
                        ),
                        (
                          inr (
                            refl,
                            optional_case-RefusesTags "email_verified"
                                (λ (s : Locals p GC). s.email_verified)
                                (λ s v. record s { email_verified = v }) (next_option r r.flag),
                          ),
                          (
                            inr (
                              refl,
                              optional_case-RefusesTags "gender" (λ (s : Locals p GC). s.gender)
                                  (λ s v. record s { gender = v }) (next_option r r.gender),
                            ),
                            (
                              inr (
                                refl,
                                optional_case-RefusesTags "birthday"
                                    (λ (s : Locals p GC). s.birthday)
                                    (λ s v. record s { birthday = v }) (next_option r r.text),
                              ),
                              (
                                inr (
                                  refl,
                                  optional_case-RefusesTags "zoneinfo"
                                      (λ (s : Locals p GC). s.zoneinfo)
                                      (λ s v. record s { zoneinfo = v }) (next_option r r.text),
                                ),
                                (
                                  inr (
                                    refl,
                                    optional_case-RefusesTags "locale"
                                        (λ (s : Locals p GC). s.locale)
                                        (λ s v. record s { locale = v }) (next_option r r.text),
                                  ),
                                  (
                                    inr (
                                      refl,
                                      optional_case-RefusesTags "phone_number"
                                          (λ (s : Locals p GC). s.phone_number)
                                          (λ s v. record s { phone_number = v })
                                          (next_option r r.text),
                                    ),
                                    (
                                      inr (
                                        refl,
                                        optional_case-RefusesTags "phone_number_verified"
                                            (λ (s : Locals p GC). s.phone_number_verified)
                                            (λ s v. record s { phone_number_verified = v })
                                            (next_option r r.flag),
                                      ),
                                      (
                                        inr (
                                          refl,
                                          optional_case-RefusesTags "address"
                                              (λ (s : Locals p GC). s.address)
                                              (λ s v. record s { address = v })
                                              (next_option r r.address),
                                        ),
                                        (
                                          inr (
                                            refl,
                                            optional_case-RefusesTags "updated_at"
                                                (λ (s : Locals p GC). s.updated_at)
                                                (λ s v. record s { updated_at = v })
                                                (next_time r "updated_at"),
                                          ),
                                          tt,
                                        ),
                                      ),
                                    ),
                                  ),
                                ),
                              ),
                            ),
                          ),
                        ),
                      ),
                    ),
                  ),
                ),
              ),
            ),
          ),
        ),
      ),
    ),
  )

  abbrev pub Ignores : String × J → Type 0
  Ignores e = (z : Locals p GC) → visit_entry (claim_arms r) e z ≡ ok z

  entry_ignored :
      (key : String) (value : J) (s s' : Locals p GC)
      → should_include key ≡ true
      → visit_entry (claim_arms r) (key, value) s ≡ ok s'
      → Ignores (key, value)
  unfolding visit_entry should_include
  entry_ignored key value s s' included e z =
      let (name, tag) = split_language_tag_key key in
      let (tagged, plain) = included_iff _ _ _ included in
      match_field-ignores (claim_arms r) claim_arms-Fits name key tag value s s' tagged plain e z

  rest_read :
      (entries : List (String × J)) (s s' : Locals p GC)
      → visit_entries (claim_arms r) entries s ≡ ok s'
      → (visit_entries (claim_arms r) (filter (λ e. not (should_include e.0)) entries) s ≡ ok s')
        × All Ignores (filter (λ e. should_include e.0) entries)
  unfolding visit_entries filter
  rest_read [] s s' h = (h, tt)
  rest_read ((key, value) ∷ entries) s s' h =
      let (next, visited, h1) = (>>=-iff (visit_entry (claim_arms r) (key, value) s) _).0 h in
      let (read, ignored) = rest_read entries next s' h1 in
      elim (Bool-cases (should_include key)) [
        | inl included ↦
            let ignores = entry_ignored key value s next included visited in
            let same : next ≡ s = ok_inj (sym visited ∙ ignores s) in
            rw included (rw same at read, (ignores, ignored))
        | inr claimed ↦ rw claimed ((>>=-iff _ _).1 (next, visited, read), ignored)
      ]

  -- If standard claims are read from an object, then every entry that FilteredFlatten hands to the
  -- additional claims is ignored by the reading of the standard claims, and the same standard claims
  -- are read from the other entries alone.
  pub additional_disjoint :
      (entries : List (String × J)) (c : StandardClaims p GC)
      → visit_map r entries ≡ ok c
      → (visit_map r (filter (λ e. not (should_include e.0)) entries) ≡ ok c)
        × filtered_flatten (All Ignores) entries
  unfolding visit_map filtered_flatten
  additional_disjoint entries c h =
      let (locals, visited, made) =
        (>>=-iff (visit_entries (claim_arms r) entries no_locals) (claims_of r)).0 h in
      let (read, ignored) = rest_read entries no_locals locals visited in
      ((>>=-iff _ _).1 (locals, read, made), ignored)
