-- ===== src/Claims/Fields/Writing/RoundTrip.antt =====
-- What is written for standard claims is read as the same claims.
use openidconnect_rs.Prelude.{◌≡◌, refl, some, ◌++◌, ok, >>=-intro}
use openidconnect_rs.Types.Platform.{Platform}
use openidconnect_rs.Claims.Standard.{StandardClaims}
use openidconnect_rs.Fields.{present}
use openidconnect_rs.Fields.Writing.Read.{Reads, Reads-append}
use openidconnect_rs.Fields.Writing.Claim.{AllWritable}
use openidconnect_rs.Claims.Fields.{
  ClaimValues, Locals, no_locals, claim_arms, claims_of, visit_map,
}
use openidconnect_rs.Claims.Fields.Writing.{
  ClaimWriters, write_names, write_profile, write_rest, serialize,
}
use openidconnect_rs.Claims.Fields.Writing.Arms
use openidconnect_rs.Claims.Fields.Writing.Laws.{WriterLaws}

-- Claims whose localized values are writable and whose time is a whole number of seconds.
pub record IsWritten {p : Platform} {GC J E : Type 0} {r : ClaimValues p GC J E}
    (w : ClaimWriters r) (c : StandardClaims p GC) : Type 0 where
  pub name_writable : AllWritable w.sorted c.name
  pub given_name_writable : AllWritable w.sorted c.given_name
  pub family_name_writable : AllWritable w.sorted c.family_name
  pub middle_name_writable : AllWritable w.sorted c.middle_name
  pub nickname_writable : AllWritable w.sorted c.nickname
  pub profile_writable : AllWritable w.sorted c.profile
  pub picture_writable : AllWritable w.sorted c.picture
  pub website_writable : AllWritable w.sorted c.website
  pub whole_seconds :
      (d : p.DateTime) → c.updated_at ≡ some d → r.times.timestamp_subsec_nanos d ≡ 0

module _ {p : Platform} {GC J E : Type 0} (r : ClaimValues p GC J E) (w : ClaimWriters r)
    (laws : WriterLaws r w) (c : StandardClaims p GC) (writable : IsWritten w c) where
  abbrev after_names : Locals p GC
  after_names = record no_locals {
    sub = some c.sub;
    name = c.name;
    given_name = c.given_name;
    family_name = c.family_name;
    middle_name = c.middle_name;
    nickname = c.nickname;
  }

  abbrev after_profile : Locals p GC
  after_profile = record after_names {
    preferred_username = c.preferred_username;
    profile = c.profile;
    picture = c.picture;
    website = c.website;
    email = c.email;
    email_verified = c.email_verified;
  }

  abbrev after_rest : Locals p GC
  after_rest = record after_profile {
    gender = c.gender;
    birthday = c.birthday;
    zoneinfo = c.zoneinfo;
    locale = c.locale;
    phone_number = c.phone_number;
    phone_number_verified = c.phone_number_verified;
    address = c.address;
    updated_at = c.updated_at;
  }

  names_part : Reads (claim_arms r) (write_names w c) no_locals after_names
  unfolding write_names no_locals
  names_part =
      Reads-append (claim_arms r) _ _ no_locals _ _
        (Reads-append (claim_arms r) _ _ no_locals _ _
          (Reads-append (claim_arms r) _ _ no_locals _ _
            (Reads-append (claim_arms r) _ _ no_locals _ _
              (Reads-append (claim_arms r) _ _ no_locals _ _
                (Arms.sub_read r w laws no_locals c.sub refl)
                (Arms.name_read r w laws _ c.name writable.name_writable refl))
              (Arms.given_name_read r w laws _ c.given_name writable.given_name_writable refl))
            (Arms.family_name_read r w laws _ c.family_name writable.family_name_writable refl))
          (Arms.middle_name_read r w laws _ c.middle_name writable.middle_name_writable refl))
        (Arms.nickname_read r w laws _ c.nickname writable.nickname_writable refl)

  profile_part : Reads (claim_arms r) (write_profile w c) after_names after_profile
  unfolding write_profile no_locals
  profile_part =
      Reads-append (claim_arms r) _ _ after_names _ _
        (Reads-append (claim_arms r) _ _ after_names _ _
          (Reads-append (claim_arms r) _ _ after_names _ _
            (Reads-append (claim_arms r) _ _ after_names _ _
              (Reads-append (claim_arms r) _ _ after_names _ _
                (Arms.preferred_username_read r w laws after_names c.preferred_username refl)
                (Arms.profile_read r w laws _ c.profile writable.profile_writable refl))
              (Arms.picture_read r w laws _ c.picture writable.picture_writable refl))
            (Arms.website_read r w laws _ c.website writable.website_writable refl))
          (Arms.email_read r w laws _ c.email refl))
        (Arms.email_verified_read r w laws _ c.email_verified refl)

  rest_part : Reads (claim_arms r) (write_rest w c) after_profile after_rest
  unfolding write_rest no_locals
  rest_part =
      Reads-append (claim_arms r) _ _ after_profile _ _
        (Reads-append (claim_arms r) _ _ after_profile _ _
          (Reads-append (claim_arms r) _ _ after_profile _ _
            (Reads-append (claim_arms r) _ _ after_profile _ _
              (Reads-append (claim_arms r) _ _ after_profile _ _
                (Reads-append (claim_arms r) _ _ after_profile _ _
                  (Reads-append (claim_arms r) _ _ after_profile _ _
                    (Arms.gender_read r w laws after_profile c.gender refl)
                    (Arms.birthday_read r w laws _ c.birthday refl))
                  (Arms.zoneinfo_read r w laws _ c.zoneinfo refl))
                (Arms.locale_read r w laws _ c.locale refl))
              (Arms.phone_number_read r w laws _ c.phone_number refl))
            (Arms.phone_number_verified_read r w laws _ c.phone_number_verified refl))
          (Arms.address_read r w laws _ c.address refl))
        (Arms.updated_at_read r w laws _ c.updated_at writable.whole_seconds refl)

  -- Standard claims that are written to an object, with localized values that are not empty, have no
  -- empty language tag and stand in sorted order, and with a time in whole seconds, are read from it
  -- as the same claims, if every single value is, integers stay integers in numbers, and times are
  -- those of their seconds and nanoseconds.
  pub visit_map-serialize : visit_map r (serialize w c) ≡ ok c
  unfolding visit_map serialize no_locals claims_of present
  visit_map-serialize =
      >>=-intro (claims_of r)
        (Reads-append (claim_arms r) (write_names w c ++ write_profile w c) (write_rest w c)
          no_locals after_profile after_rest
          (Reads-append (claim_arms r) (write_names w c) (write_profile w c) no_locals after_names
            after_profile names_part profile_part)
          rest_part)
        refl
