-- ===== src/Claims/IdToken.antt =====
-- src/id_token.rs: the claims of an ID token.
use openidconnect_rs.Prelude.{String, Option, none, some, List}
use openidconnect_rs.Types.Platform.{Platform, UrlText}
use openidconnect_rs.Claims.Standard.{StandardClaims}
use openidconnect_rs.Claims.Access.{ClaimsAccess}

pub record IdTokenClaims (p : Platform) (AC GC : Type 0) : Type 0 where
  pub issuer : UrlText p
  pub audiences : List String
  pub expiration : p.DateTime
  pub issue_time : p.DateTime
  pub auth_time : Option p.DateTime
  pub nonce : Option String
  pub auth_context_ref : Option String
  pub auth_method_refs : Option (List String)
  pub authorized_party : Option String
  pub access_token_hash : Option String
  pub code_hash : Option String
  pub standard_claims : StandardClaims p GC
  pub additional_claims : AC

module _ {p : Platform} {AC GC : Type 0} where
  -- `IdTokenClaims::new`
  unfoldable pub new :
      UrlText p
      → List String
      → p.DateTime
      → p.DateTime
      → StandardClaims p GC
      → AC
      → IdTokenClaims p AC GC
  new issuer audiences expiration issue_time standard_claims additional_claims = record {
    issuer = issuer;
    audiences = audiences;
    expiration = expiration;
    issue_time = issue_time;
    auth_time = none;
    nonce = none;
    auth_context_ref = none;
    auth_method_refs = none;
    authorized_party = none;
    access_token_hash = none;
    code_hash = none;
    standard_claims = standard_claims;
    additional_claims = additional_claims;
  }

  -- An ID token always has its issuer and its audiences.
  instance abbrev pub id_token_access : ClaimsAccess p (IdTokenClaims p AC GC)
  id_token_access = record { issuer = λ c. some c.issuer; audiences = λ c. some c.audiences }
