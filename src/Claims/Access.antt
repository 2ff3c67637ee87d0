-- ===== src/Claims/Access.antt =====
-- src/verification.rs: the traits AudiencesClaim and IssuerClaim.
use openidconnect_rs.Prelude.{String, Option, List}
use openidconnect_rs.Types.Platform.{Platform, UrlText}

pub record ClaimsAccess (p : Platform) (C : Type 0) : Type 0 where
  pub issuer : C → Option (UrlText p)
  pub audiences : C → Option (List String)
