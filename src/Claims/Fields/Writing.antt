-- ===== src/Claims/Fields/Writing.antt =====
-- src/claims.rs: Serialize of StandardClaims.
pub mod Arms
pub mod Laws
pub mod RoundTrip
use openidconnect_rs.Prelude.{String, Bool, Option, List, ◌++◌}
use openidconnect_rs.Types.Platform.{Platform}
use openidconnect_rs.Types.Timestamp.{Timestamp, utc_to_seconds}
use openidconnect_rs.Types.LocalizedClaim.{LocalizedClaim}
use openidconnect_rs.Fields.Writing.{write_required, write_optional, write_localized}
use openidconnect_rs.Claims.Standard.{AddressClaim, StandardClaims}
use openidconnect_rs.Claims.Fields.{ClaimValues}

-- How the values of claims are written, and `sorted` of the crate itertools.
pub record ClaimWriters {p : Platform} {GC J E : Type 0} (r : ClaimValues p GC J E) : Type 1 where
  pub write_text : String → J
  pub write_flag : Bool → J
  pub write_gender : GC → J
  pub write_address : AddressClaim → J
  pub write_timestamp : Timestamp r.times.Number → J
  pub sorted : List (Option String × String) → List (Option String × String)

module _ {p : Platform} {GC J E : Type 0} {r : ClaimValues p GC J E} (w : ClaimWriters r) where
  -- The fields from `sub` to `nickname`.
  unfoldable pub write_names : StandardClaims p GC → List (String × J)
  unfolding write_required write_optional write_localized
  write_names c =
      (write_required "sub" w.write_text c.sub)
      ++ (write_localized "name" w.write_text w.sorted c.name)
      ++ (write_localized "given_name" w.write_text w.sorted c.given_name)
      ++ (write_localized "family_name" w.write_text w.sorted c.family_name)
      ++ (write_localized "middle_name" w.write_text w.sorted c.middle_name)
      ++ (write_localized "nickname" w.write_text w.sorted c.nickname)

  -- The fields from `preferred_username` to `email_verified`.
  unfoldable pub write_profile : StandardClaims p GC → List (String × J)
  unfolding write_required write_optional write_localized
  write_profile c =
      (write_optional "preferred_username" w.write_text c.preferred_username)
      ++ (write_localized "profile" w.write_text w.sorted c.profile)
      ++ (write_localized "picture" w.write_text w.sorted c.picture)
      ++ (write_localized "website" w.write_text w.sorted c.website)
      ++ (write_optional "email" w.write_text c.email)
      ++ (write_optional "email_verified" w.write_flag c.email_verified)

  -- The fields from `gender` to `updated_at`.
  unfoldable pub write_rest : StandardClaims p GC → List (String × J)
  unfolding write_required write_optional write_localized utc_to_seconds
  write_rest c =
      (write_optional "gender" w.write_gender c.gender)
      ++ (write_optional "birthday" w.write_text c.birthday)
      ++ (write_optional "zoneinfo" w.write_text c.zoneinfo)
      ++ (write_optional "locale" w.write_text c.locale)
      ++ (write_optional "phone_number" w.write_text c.phone_number)
      ++ (write_optional "phone_number_verified" w.write_flag c.phone_number_verified)
      ++ (write_optional "address" w.write_address c.address)
      ++ (write_optional "updated_at" (λ d. w.write_timestamp (utc_to_seconds r.times d))
          c.updated_at)

  unfoldable pub serialize : StandardClaims p GC → List (String × J)
  unfolding write_names write_profile write_rest
  serialize c = write_names c ++ write_profile c ++ write_rest c
