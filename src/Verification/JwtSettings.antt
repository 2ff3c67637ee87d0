-- ===== src/Verification/JwtSettings.antt =====
-- src/verification.rs: JwtClaimsVerifier, its defaults and its setters.
use openidconnect_rs.Prelude.{Bool, true, false, String, Option, none, some, List, [], ◌∷◌}
use openidconnect_rs.Types.Platform.{Platform, UrlText}
use openidconnect_rs.Types.KeySet.{JsonWebKeySet}
use openidconnect_rs.Traits.{Suite}

-- `allowed_algs` is a `HashSet`; only membership in it is used, and its order in a message.
pub record JwtClaimsVerifier (p : Platform) (t : Suite) : Type 0 where
  pub allowed_algs : Option (List t.SigningAlg)
  pub aud_match_required : Bool
  pub client_id : String
  pub client_secret : Option String
  pub iss_required : Bool
  pub issuer : UrlText p
  pub is_signature_check_enabled : Bool
  pub other_aud_verifier_fn : String → Bool
  pub signature_keys : JsonWebKeySet t

module _ {p : Platform} {t : Suite} where
  unfoldable pub new : String → UrlText p → JsonWebKeySet t → JwtClaimsVerifier p t
  new client_id issuer signature_keys = record {
    allowed_algs = some (t.rsa_sha_256 ∷ []);
    aud_match_required = true;
    client_id = client_id;
    client_secret = none;
    iss_required = true;
    issuer = issuer;
    is_signature_check_enabled = true;
    other_aud_verifier_fn = λ _. false;
    signature_keys = signature_keys;
  }

  unfoldable pub require_audience_match : JwtClaimsVerifier p t → Bool → JwtClaimsVerifier p t
  require_audience_match v aud_required = record v { aud_match_required = aud_required }

  unfoldable pub require_issuer_match : JwtClaimsVerifier p t → Bool → JwtClaimsVerifier p t
  require_issuer_match v iss_required = record v { iss_required = iss_required }

  unfoldable pub require_signature_check : JwtClaimsVerifier p t → Bool → JwtClaimsVerifier p t
  require_signature_check v sig_required = record v { is_signature_check_enabled = sig_required }

  unfoldable pub set_allowed_algs :
      JwtClaimsVerifier p t → List t.SigningAlg → JwtClaimsVerifier p t
  set_allowed_algs v algs = record v { allowed_algs = some algs }

  unfoldable pub allow_any_alg : JwtClaimsVerifier p t → JwtClaimsVerifier p t
  allow_any_alg v = record v { allowed_algs = none }

  unfoldable pub set_client_secret : JwtClaimsVerifier p t → String → JwtClaimsVerifier p t
  set_client_secret v client_secret = record v { client_secret = some client_secret }

  unfoldable pub set_other_audience_verifier_fn :
      JwtClaimsVerifier p t → (String → Bool) → JwtClaimsVerifier p t
  set_other_audience_verifier_fn v f = record v { other_aud_verifier_fn = f }
