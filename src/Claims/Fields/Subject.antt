-- ===== src/Claims/Fields/Subject.antt =====
-- The subject of the claims that are read from an object.
use openidconnect_rs.Prelude.{
  String, ◌≡◌, refl, ap, ◌∙◌, Option, none, some, List, All, OnlyPasses, ok, >>=-iff, map_err_iff,
  ok_inj,
}
use openidconnect_rs.Types.Platform.{Platform}
use openidconnect_rs.Types.LanguageTag.{split_language_tag_key}
use openidconnect_rs.Fields.{present, visit_entries}
use openidconnect_rs.Fields.Once.{Keeps, Names, optional_case-Keeps, localized_case-Keeps, once}
use openidconnect_rs.Claims.Standard.{StandardClaims}
use openidconnect_rs.Claims.Fields.{
  ClaimValues, Locals, no_locals, next_value, next_option, next_time, other_arms, claim_arms,
  claims_of, visit_map,
}

present_iff :
    {E V : Type 0} (field : String) (o : Option V) (v : V)
    → present {E = E} field o ≡ ok v
    → o ≡ some v
unfolding present
present_iff field none v h = cc
present_iff field (some w) v h = cc

module _ {p : Platform} {GC J E : Type 0} (r : ClaimValues p GC J E) where
  others_keep_sub : All (λ arm. Keeps (λ (s : Locals p GC). s.sub) arm.1) (other_arms r)
  unfolding other_arms
  others_keep_sub =
      let f : Locals p GC → Option String = λ s. s.sub in
      (
        localized_case-Keeps f (λ s. s.name) (λ s v. record s { name = v }) (next_value r r.text)
            (λ s o. refl),
        (
          localized_case-Keeps f (λ s. s.given_name) (λ s v. record s { given_name = v })
              (next_value r r.text) (λ s o. refl),
          (
            localized_case-Keeps f (λ s. s.family_name) (λ s v. record s { family_name = v })
                (next_value r r.text) (λ s o. refl),
            (
              localized_case-Keeps f (λ s. s.middle_name) (λ s v. record s { middle_name = v })
                  (next_value r r.text) (λ s o. refl),
              (
                localized_case-Keeps f (λ s. s.nickname) (λ s v. record s { nickname = v })
                    (next_value r r.text) (λ s o. refl),
                (
                  optional_case-Keeps f "preferred_username" (λ s. s.preferred_username)
                      (λ s v. record s { preferred_username = v }) (next_option r r.text)
                      (λ s o. refl),
                  (
                    localized_case-Keeps f (λ s. s.profile) (λ s v. record s { profile = v })
                        (next_value r r.text) (λ s o. refl),
                    (
                      localized_case-Keeps f (λ s. s.picture) (λ s v. record s { picture = v })
                          (next_value r r.text) (λ s o. refl),
                      (
                        localized_case-Keeps f (λ s. s.website) (λ s v. record s { website = v })
                            (next_value r r.text) (λ s o. refl),
                        (
                          optional_case-Keeps f "email" (λ s. s.email)
                              (λ s v. record s { email = v }) (next_option r r.text) (λ s o. refl),
                          (
                            optional_case-Keeps f "email_verified" (λ s. s.email_verified)
                                (λ s v. record s { email_verified = v }) (next_option r r.flag)
                                (λ s o. refl),
                            (
                              optional_case-Keeps f "gender" (λ s. s.gender)
                                  (λ s v. record s { gender = v }) (next_option r r.gender)
                                  (λ s o. refl),
                              (
                                optional_case-Keeps f "birthday" (λ s. s.birthday)
                                    (λ s v. record s { birthday = v }) (next_option r r.text)
                                    (λ s o. refl),
                                (
                                  optional_case-Keeps f "zoneinfo" (λ s. s.zoneinfo)
                                      (λ s v. record s { zoneinfo = v }) (next_option r r.text)
                                      (λ s o. refl),
                                  (
                                    optional_case-Keeps f "locale" (λ s. s.locale)
                                        (λ s v. record s { locale = v }) (next_option r r.text)
                                        (λ s o. refl),
                                    (
                                      optional_case-Keeps f "phone_number" (λ s. s.phone_number)
                                          (λ s v. record s { phone_number = v })
                                          (next_option r r.text) (λ s o. refl),
                                      (
                                        optional_case-Keeps f "phone_number_verified"
                                            (λ s. s.phone_number_verified)
                                            (λ s v. record s { phone_number_verified = v })
                                            (next_option r r.flag) (λ s o. refl),
                                        (
                                          optional_case-Keeps f "address" (λ s. s.address)
                                              (λ s v. record s { address = v })
                                              (next_option r r.address) (λ s o. refl),
                                          (
                                            optional_case-Keeps f "updated_at" (λ s. s.updated_at)
                                                (λ s v. record s { updated_at = v })
                                                (next_time r "updated_at") (λ s o. refl),
                                            tt,
                                          ),
                                        ),
                                      ),
                                    ),
                                  ),
                                ),
                              ),
                            ),
                          ),
                        ),
                      ),
                    ),
                  ),
                ),
              ),
            ),
          ),
        ),
      )

  -- The claims that are read from an object have the subject of its one entry whose key names it,
  -- without a language tag; an object without such an entry, or with a second one, is refused.
  pub subject_exact :
      (entries : List (String × J)) (c : StandardClaims p GC)
      → visit_map r entries ≡ ok c
      → (e : String × J) × OnlyPasses (Names "sub") entries e
        × ((split_language_tag_key e.0).1 ≡ none)
        × (r.text e.1 ≡ ok c.sub)
  unfolding visit_map claim_arms claims_of no_locals
  subject_exact entries c h =
      let (locals, visited, h1) =
        (>>=-iff (visit_entries (claim_arms r) entries no_locals) (claims_of r)).0 h in
      let (sub, is_sub, made) = (>>=-iff (present "sub" locals.sub) _).0 h1 in
      let (e, only, untagged, read) =
        once "sub" (λ s. s.sub) (λ s v. record s { sub = v }) (next_value r r.text) (other_arms r)
          (λ s o. refl) others_keep_sub entries no_locals locals sub refl visited
          (present_iff "sub" locals.sub sub is_sub) in
      (e, only, untagged, (map_err_iff _ _).0 read ∙ ap (λ z. ok z.sub) (ok_inj made))
