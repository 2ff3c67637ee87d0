-- ===== src/Claims/Standard.antt =====
-- src/claims.rs: the standard claims.
use openidconnect_rs.Prelude.{String, Bool, Option, none}
use openidconnect_rs.Types.Platform.{Platform}
use openidconnect_rs.Types.LocalizedClaim.{LocalizedClaim}

pub record AddressClaim : Type 0 where
  pub formatted : Option String
  pub street_address : Option String
  pub locality : Option String
  pub region : Option String
  pub postal_code : Option String
  pub country : Option String

pub record StandardClaims (p : Platform) (GC : Type 0) : Type 0 where
  pub sub : String
  pub name : Option (LocalizedClaim String)
  pub given_name : Option (LocalizedClaim String)
  pub family_name : Option (LocalizedClaim String)
  pub middle_name : Option (LocalizedClaim String)
  pub nickname : Option (LocalizedClaim String)
  pub preferred_username : Option String
  pub profile : Option (LocalizedClaim String)
  pub picture : Option (LocalizedClaim String)
  pub website : Option (LocalizedClaim String)
  pub email : Option String
  pub email_verified : Option Bool
  pub gender : Option GC
  pub birthday : Option String
  pub zoneinfo : Option String
  pub locale : Option String
  pub phone_number : Option String
  pub phone_number_verified : Option Bool
  pub address : Option AddressClaim
  pub updated_at : Option p.DateTime

module _ {p : Platform} {GC : Type 0} where
  -- `StandardClaims::new`
  unfoldable pub new : String → StandardClaims p GC
  new subject = record {
    sub = subject;
    name = none;
    given_name = none;
    family_name = none;
    middle_name = none;
    nickname = none;
    preferred_username = none;
    profile = none;
    picture = none;
    website = none;
    email = none;
    email_verified = none;
    gender = none;
    birthday = none;
    zoneinfo = none;
    locale = none;
    phone_number = none;
    phone_number_verified = none;
    address = none;
    updated_at = none;
  }
