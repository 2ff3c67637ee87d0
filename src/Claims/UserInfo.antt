-- ===== src/Claims/UserInfo.antt =====
-- src/user_info.rs: the claims of a user info response.
use openidconnect_rs.Prelude.{String, Option, none, List}
use openidconnect_rs.Types.Platform.{Platform, UrlText}
use openidconnect_rs.Claims.Standard.{StandardClaims}
use openidconnect_rs.Claims.Access.{ClaimsAccess}

pub record UserInfoClaimsImpl (p : Platform) (AC GC : Type 0) : Type 0 where
  pub issuer : Option (UrlText p)
  pub audiences : Option (List String)
  pub standard_claims : StandardClaims p GC
  pub additional_claims : AC

module _ {p : Platform} {AC GC : Type 0} where
  -- `UserInfoClaims::new`
  unfoldable pub new : StandardClaims p GC → AC → UserInfoClaimsImpl p AC GC
  new standard_claims additional_claims = record {
    issuer = none;
    audiences = none;
    standard_claims = standard_claims;
    additional_claims = additional_claims;
  }

  instance abbrev pub user_info_access : ClaimsAccess p (UserInfoClaimsImpl p AC GC)
  user_info_access = record { issuer = λ c. c.issuer; audiences = λ c. c.audiences }
