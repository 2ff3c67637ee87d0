-- ===== src/Claims/Fields/Writing/Arms.antt =====
-- What is written for one field of standard claims is read by the arm of that field.
use openidconnect_rs.Prelude.{String, ◌≡◌, refl, false, Bool, ◌==◌, Option, none, some, Result}
use openidconnect_rs.Text.{◌+++◌}
use openidconnect_rs.Types.Timestamp.{utc_to_seconds}
use openidconnect_rs.Types.Platform.{Platform}
use openidconnect_rs.Types.LanguageTag.{
  split_language_tag_key, split_mark, not_empty, has_no_mark, split_language_tag_key-append,
}
use openidconnect_rs.Types.LocalizedClaim.{LocalizedClaim}
use openidconnect_rs.Claims.Standard.{AddressClaim}
use openidconnect_rs.Fields.{optional_case, localized_case, match_field}
use openidconnect_rs.Fields.Writing.{write_required, write_optional, write_localized}
use openidconnect_rs.Fields.Writing.Read.{Reads, Arm, Reads-write_required, Reads-write_optional}
use openidconnect_rs.Fields.Writing.Claim.{AllWritable, Reads-write_localized}
use openidconnect_rs.Claims.Fields.{
  ClaimValues, Locals, next_value, next_option, next_time, other_arms, claim_arms,
}
use openidconnect_rs.Claims.Fields.Writing.{ClaimWriters}
use openidconnect_rs.Claims.Fields.Writing.Laws.{
  Rereads, WriterLaws, next_value_again, next_option_again, next_time_again,
}

module _ {p : Platform} {GC J E : Type 0} (r : ClaimValues p GC J E) (w : ClaimWriters r)
    (laws : WriterLaws r w) where
  localized_read :
      (field : String) (slot : Locals p GC → Option (LocalizedClaim String))
      (put : Locals p GC → Option (LocalizedClaim String) → Locals p GC)
      → Arm (claim_arms r) field (localized_case slot put (next_value r r.text))
      → split_language_tag_key field ≡ (field, none)
      → ((l : String)
          → (l == "") ≡ false
          → split_language_tag_key (field +++ "#" +++ l) ≡ (field, some l))
      → ((s : Locals p GC) (o : Option (LocalizedClaim String)) → slot (put s o) ≡ o)
      → ((s : Locals p GC) (a b : Option (LocalizedClaim String)) → put (put s a) b ≡ put s b)
      → (s : Locals p GC) (o : Option (LocalizedClaim String)) → AllWritable w.sorted o
      → slot s ≡ none
      → put s (slot s) ≡ s
      → Reads (claim_arms r) (write_localized field w.write_text w.sorted o) s (put s o)
  localized_read field slot put arm plain tagged slot_put put_put =
      Reads-write_localized (claim_arms r) field slot put w.write_text (next_value r r.text)
        w.sorted arm (next_value_again r w.write_text r.text laws.text_again) plain tagged slot_put
        put_put

  optional_read :
      {V : Type 0} (field : String) (slot : Locals p GC → Option V)
      (put : Locals p GC → Option V → Locals p GC) (write : V → J) (read : J → Result V E)
      → Rereads r write read
      → Arm (claim_arms r) field (optional_case field slot put (next_option r read))
      → split_language_tag_key field ≡ (field, none)
      → (s : Locals p GC) (o : Option V) → slot s ≡ none
      → put s (slot s) ≡ s
      → Reads (claim_arms r) (write_optional field write o) s (put s o)
  optional_read field slot put write read again arm plain s o =
      Reads-write_optional (claim_arms r) field slot put write plain (next_option r read) arm s o
        (λ v e. next_option_again r write read again v)

  pub sub_read :
      (s : Locals p GC) (o : String)
      → s.sub ≡ none
      → Reads (claim_arms r) (write_required "sub" w.write_text o) s (record s { sub = some o })
  unfolding claim_arms other_arms match_field split_language_tag_key split_mark not_empty
      has_no_mark
  sub_read s o free =
      Reads-write_required (claim_arms r) "sub" (λ (s : Locals p GC). s.sub)
        (λ s v. record s { sub = v }) w.write_text refl (next_value r r.text)
        (λ key tag value s. refl) (next_value_again r w.write_text r.text laws.text_again) s o free

  pub name_read :
      (s : Locals p GC) (o : Option (LocalizedClaim String))
      → AllWritable w.sorted o
      → s.name ≡ none
      → Reads
          (claim_arms r)
          (write_localized "name" w.write_text w.sorted o)
          s
          (record s { name = o })
  unfolding claim_arms other_arms match_field split_language_tag_key split_mark not_empty
      has_no_mark
  name_read s o writable free =
      localized_read "name" (λ (s : Locals p GC). s.name) (λ s v. record s { name = v })
        (λ key tag value s. refl) refl (λ l. split_language_tag_key-append "name" l refl)
        (λ s o. refl) (λ s a b. refl) s o writable free refl

  pub given_name_read :
      (s : Locals p GC) (o : Option (LocalizedClaim String))
      → AllWritable w.sorted o
      → s.given_name ≡ none
      → Reads
          (claim_arms r)
          (write_localized "given_name" w.write_text w.sorted o)
          s
          (record s { given_name = o })
  unfolding claim_arms other_arms match_field split_language_tag_key split_mark not_empty
      has_no_mark
  given_name_read s o writable free =
      localized_read "given_name" (λ (s : Locals p GC). s.given_name)
        (λ s v. record s { given_name = v }) (λ key tag value s. refl) refl
        (λ l. split_language_tag_key-append "given_name" l refl) (λ s o. refl) (λ s a b. refl) s o
        writable free refl

  pub family_name_read :
      (s : Locals p GC) (o : Option (LocalizedClaim String))
      → AllWritable w.sorted o
      → s.family_name ≡ none
      → Reads
          (claim_arms r)
          (write_localized "family_name" w.write_text w.sorted o)
          s
          (record s { family_name = o })
  unfolding claim_arms other_arms match_field split_language_tag_key split_mark not_empty
      has_no_mark
  family_name_read s o writable free =
      localized_read "family_name" (λ (s : Locals p GC). s.family_name)
        (λ s v. record s { family_name = v }) (λ key tag value s. refl) refl
        (λ l. split_language_tag_key-append "family_name" l refl) (λ s o. refl) (λ s a b. refl) s o
        writable free refl

  pub middle_name_read :
      (s : Locals p GC) (o : Option (LocalizedClaim String))
      → AllWritable w.sorted o
      → s.middle_name ≡ none
      → Reads
          (claim_arms r)
          (write_localized "middle_name" w.write_text w.sorted o)
          s
          (record s { middle_name = o })
  unfolding claim_arms other_arms match_field split_language_tag_key split_mark not_empty
      has_no_mark
  middle_name_read s o writable free =
      localized_read "middle_name" (λ (s : Locals p GC). s.middle_name)
        (λ s v. record s { middle_name = v }) (λ key tag value s. refl) refl
        (λ l. split_language_tag_key-append "middle_name" l refl) (λ s o. refl) (λ s a b. refl) s o
        writable free refl

  pub nickname_read :
      (s : Locals p GC) (o : Option (LocalizedClaim String))
      → AllWritable w.sorted o
      → s.nickname ≡ none
      → Reads
          (claim_arms r)
          (write_localized "nickname" w.write_text w.sorted o)
          s
          (record s { nickname = o })
  unfolding claim_arms other_arms match_field split_language_tag_key split_mark not_empty
      has_no_mark
  nickname_read s o writable free =
      localized_read "nickname" (λ (s : Locals p GC). s.nickname) (λ s v. record s { nickname = v })
        (λ key tag value s. refl) refl (λ l. split_language_tag_key-append "nickname" l refl)
        (λ s o. refl) (λ s a b. refl) s o writable free refl

  pub preferred_username_read :
      (s : Locals p GC) (o : Option String)
      → s.preferred_username ≡ none
      → Reads
          (claim_arms r)
          (write_optional "preferred_username" w.write_text o)
          s
          (record s { preferred_username = o })
  unfolding claim_arms other_arms match_field split_language_tag_key split_mark not_empty
      has_no_mark
  preferred_username_read s o free =
      optional_read "preferred_username" (λ (s : Locals p GC). s.preferred_username)
        (λ s v. record s { preferred_username = v }) w.write_text r.text laws.text_again
        (λ key tag value s. refl) refl s o free refl

  pub profile_read :
      (s : Locals p GC) (o : Option (LocalizedClaim String))
      → AllWritable w.sorted o
      → s.profile ≡ none
      → Reads
          (claim_arms r)
          (write_localized "profile" w.write_text w.sorted o)
          s
          (record s { profile = o })
  unfolding claim_arms other_arms match_field split_language_tag_key split_mark not_empty
      has_no_mark
  profile_read s o writable free =
      localized_read "profile" (λ (s : Locals p GC). s.profile) (λ s v. record s { profile = v })
        (λ key tag value s. refl) refl (λ l. split_language_tag_key-append "profile" l refl)
        (λ s o. refl) (λ s a b. refl) s o writable free refl

  pub picture_read :
      (s : Locals p GC) (o : Option (LocalizedClaim String))
      → AllWritable w.sorted o
      → s.picture ≡ none
      → Reads
          (claim_arms r)
          (write_localized "picture" w.write_text w.sorted o)
          s
          (record s { picture = o })
  unfolding claim_arms other_arms match_field split_language_tag_key split_mark not_empty
      has_no_mark
  picture_read s o writable free =
      localized_read "picture" (λ (s : Locals p GC). s.picture) (λ s v. record s { picture = v })
        (λ key tag value s. refl) refl (λ l. split_language_tag_key-append "picture" l refl)
        (λ s o. refl) (λ s a b. refl) s o writable free refl

  pub website_read :
      (s : Locals p GC) (o : Option (LocalizedClaim String))
      → AllWritable w.sorted o
      → s.website ≡ none
      → Reads
          (claim_arms r)
          (write_localized "website" w.write_text w.sorted o)
          s
          (record s { website = o })
  unfolding claim_arms other_arms match_field split_language_tag_key split_mark not_empty
      has_no_mark
  website_read s o writable free =
      localized_read "website" (λ (s : Locals p GC). s.website) (λ s v. record s { website = v })
        (λ key tag value s. refl) refl (λ l. split_language_tag_key-append "website" l refl)
        (λ s o. refl) (λ s a b. refl) s o writable free refl

  pub email_read :
      (s : Locals p GC) (o : Option String)
      → s.email ≡ none
      → Reads (claim_arms r) (write_optional "email" w.write_text o) s (record s { email = o })
  unfolding claim_arms other_arms match_field split_language_tag_key split_mark not_empty
      has_no_mark
  email_read s o free =
      optional_read "email" (λ (s : Locals p GC). s.email) (λ s v. record s { email = v })
        w.write_text r.text laws.text_again (λ key tag value s. refl) refl s o free refl

  pub email_verified_read :
      (s : Locals p GC) (o : Option Bool)
      → s.email_verified ≡ none
      → Reads
          (claim_arms r)
          (write_optional "email_verified" w.write_flag o)
          s
          (record s { email_verified = o })
  unfolding claim_arms other_arms match_field split_language_tag_key split_mark not_empty
      has_no_mark
  email_verified_read s o free =
      optional_read "email_verified" (λ (s : Locals p GC). s.email_verified)
        (λ s v. record s { email_verified = v }) w.write_flag r.flag laws.flag_again
        (λ key tag value s. refl) refl s o free refl

  pub gender_read :
      (s : Locals p GC) (o : Option GC)
      → s.gender ≡ none
      → Reads (claim_arms r) (write_optional "gender" w.write_gender o) s (record s { gender = o })
  unfolding claim_arms other_arms match_field split_language_tag_key split_mark not_empty
      has_no_mark
  gender_read s o free =
      optional_read "gender" (λ (s : Locals p GC). s.gender) (λ s v. record s { gender = v })
        w.write_gender r.gender laws.gender_again (λ key tag value s. refl) refl s o free refl

  pub birthday_read :
      (s : Locals p GC) (o : Option String)
      → s.birthday ≡ none
      → Reads
          (claim_arms r)
          (write_optional "birthday" w.write_text o)
          s
          (record s { birthday = o })
  unfolding claim_arms other_arms match_field split_language_tag_key split_mark not_empty
      has_no_mark
  birthday_read s o free =
      optional_read "birthday" (λ (s : Locals p GC). s.birthday) (λ s v. record s { birthday = v })
        w.write_text r.text laws.text_again (λ key tag value s. refl) refl s o free refl

  pub zoneinfo_read :
      (s : Locals p GC) (o : Option String)
      → s.zoneinfo ≡ none
      → Reads
          (claim_arms r)
          (write_optional "zoneinfo" w.write_text o)
          s
          (record s { zoneinfo = o })
  unfolding claim_arms other_arms match_field split_language_tag_key split_mark not_empty
      has_no_mark
  zoneinfo_read s o free =
      optional_read "zoneinfo" (λ (s : Locals p GC). s.zoneinfo) (λ s v. record s { zoneinfo = v })
        w.write_text r.text laws.text_again (λ key tag value s. refl) refl s o free refl

  pub locale_read :
      (s : Locals p GC) (o : Option String)
      → s.locale ≡ none
      → Reads (claim_arms r) (write_optional "locale" w.write_text o) s (record s { locale = o })
  unfolding claim_arms other_arms match_field split_language_tag_key split_mark not_empty
      has_no_mark
  locale_read s o free =
      optional_read "locale" (λ (s : Locals p GC). s.locale) (λ s v. record s { locale = v })
        w.write_text r.text laws.text_again (λ key tag value s. refl) refl s o free refl

  pub phone_number_read :
      (s : Locals p GC) (o : Option String)
      → s.phone_number ≡ none
      → Reads
          (claim_arms r)
          (write_optional "phone_number" w.write_text o)
          s
          (record s { phone_number = o })
  unfolding claim_arms other_arms match_field split_language_tag_key split_mark not_empty
      has_no_mark
  phone_number_read s o free =
      optional_read "phone_number" (λ (s : Locals p GC). s.phone_number)
        (λ s v. record s { phone_number = v }) w.write_text r.text laws.text_again
        (λ key tag value s. refl) refl s o free refl

  pub phone_number_verified_read :
      (s : Locals p GC) (o : Option Bool)
      → s.phone_number_verified ≡ none
      → Reads
          (claim_arms r)
          (write_optional "phone_number_verified" w.write_flag o)
          s
          (record s { phone_number_verified = o })
  unfolding claim_arms other_arms match_field split_language_tag_key split_mark not_empty
      has_no_mark
  phone_number_verified_read s o free =
      optional_read "phone_number_verified" (λ (s : Locals p GC). s.phone_number_verified)
        (λ s v. record s { phone_number_verified = v }) w.write_flag r.flag laws.flag_again
        (λ key tag value s. refl) refl s o free refl

  pub address_read :
      (s : Locals p GC) (o : Option AddressClaim)
      → s.address ≡ none
      → Reads
          (claim_arms r)
          (write_optional "address" w.write_address o)
          s
          (record s { address = o })
  unfolding claim_arms other_arms match_field split_language_tag_key split_mark not_empty
      has_no_mark
  address_read s o free =
      optional_read "address" (λ (s : Locals p GC). s.address) (λ s v. record s { address = v })
        w.write_address r.address laws.address_again (λ key tag value s. refl) refl s o free refl

  pub updated_at_read :
      (s : Locals p GC) (o : Option p.DateTime)
      → ((d : p.DateTime) → o ≡ some d → r.times.timestamp_subsec_nanos d ≡ 0)
      → s.updated_at ≡ none
      → Reads
          (claim_arms r)
          (write_optional "updated_at" (λ d. w.write_timestamp (utc_to_seconds r.times d)) o)
          s
          (record s { updated_at = o })
  unfolding claim_arms other_arms match_field split_language_tag_key split_mark not_empty
      has_no_mark
  updated_at_read s o whole free =
      Reads-write_optional (claim_arms r) "updated_at" (λ (s : Locals p GC). s.updated_at)
        (λ s v. record s { updated_at = v }) (λ d. w.write_timestamp (utc_to_seconds r.times d))
        refl (next_time r "updated_at") (λ key tag value s. refl) s o
        (λ d e. next_time_again r w laws d (whole d e)) free refl
