-- ===== src/Verification/IdToken.antt =====
-- src/verification.rs: NonceVerifier and IdTokenVerifier.
pub mod Exact
pub mod Configured
pub mod Defaults
pub mod Issued
use openidconnect_rs.Prelude.{
  String, Bool, true, false, not, Option, none, some, List, [], Result, ok, err, ◌>>=◌, ◌>>◌, guard,
  map_err, ◌==◌,
}
use openidconnect_rs.Text.{◌+++◌}
use openidconnect_rs.Types.Errors.{
  ClaimsVerificationError, expired, invalid_nonce, invalid_auth_context, invalid_auth_time,
}
use openidconnect_rs.Types.Platform
use openidconnect_rs.Types.Platform.{UrlText}
use openidconnect_rs.Types.KeySet.{JsonWebKeySet}
use openidconnect_rs.Traits.{Suite}
use openidconnect_rs.Jwt.{JsonWebToken}
use openidconnect_rs.Claims.IdToken.{IdTokenClaims, id_token_access}
use openidconnect_rs.Verification.JwtSettings
use openidconnect_rs.Verification.JwtSettings.{JwtClaimsVerifier}
use openidconnect_rs.Verification.JwtChecks.{Check}
use openidconnect_rs.Verification.JwtChecks

-- A claim is valid, or there is a message that says why not.
abbrev pub Verdict : Type 0
Verdict = Result (Unit {0}) String

-- `NonceVerifier for &Nonce`. A closure is a nonce verifier as it stands.
unfoldable pub verify_nonce : String → Option String → Verdict
verify_nonce expected (some claims_nonce) = guard (claims_nonce == expected) "nonce mismatch"
verify_nonce expected none = err "missing nonce claim"

pub record IdTokenVerifier (p : Platform.Platform) (t : Suite) : Type 0 where
  pub acr_verifier_fn : Option String → Verdict
  pub auth_time_verifier_fn : Option p.DateTime → Verdict
  pub iat_verifier_fn : p.DateTime → Verdict
  pub jwt_verifier : JwtClaimsVerifier p t
  pub time_fn : Unit {0} → p.DateTime

module _ {p : Platform.Platform} {t : Suite} where
  unfoldable pub new : JwtClaimsVerifier p t → IdTokenVerifier p t
  new jwt_verifier = record {
    acr_verifier_fn = λ _. ok tt;
    auth_time_verifier_fn = λ _. ok tt;
    iat_verifier_fn = λ _. ok tt;
    jwt_verifier = jwt_verifier;
    time_fn = λ _. p.now;
  }

  unfoldable pub new_public_client : String → UrlText p → JsonWebKeySet t → IdTokenVerifier p t
  unfolding new JwtSettings.new
  new_public_client client_id issuer signature_keys =
      new (JwtSettings.new client_id issuer signature_keys)

  unfoldable pub new_confidential_client :
      String → String → UrlText p → JsonWebKeySet t → IdTokenVerifier p t
  unfolding new JwtSettings.new JwtSettings.set_client_secret
  new_confidential_client client_id client_secret issuer signature_keys = new (
      JwtSettings.set_client_secret (JwtSettings.new client_id issuer signature_keys) client_secret)

  unfoldable pub set_allowed_algs : IdTokenVerifier p t → List t.SigningAlg → IdTokenVerifier p t
  unfolding JwtSettings.set_allowed_algs
  set_allowed_algs v algs = record v {
    jwt_verifier = JwtSettings.set_allowed_algs v.jwt_verifier algs;
  }

  unfoldable pub allow_any_alg : IdTokenVerifier p t → IdTokenVerifier p t
  unfolding JwtSettings.allow_any_alg
  allow_any_alg v = record v { jwt_verifier = JwtSettings.allow_any_alg v.jwt_verifier }

  unfoldable pub set_auth_context_verifier_fn :
      IdTokenVerifier p t → (Option String → Verdict) → IdTokenVerifier p t
  set_auth_context_verifier_fn v f = record v { acr_verifier_fn = f }

  unfoldable pub set_auth_time_verifier_fn :
      IdTokenVerifier p t → (Option p.DateTime → Verdict) → IdTokenVerifier p t
  set_auth_time_verifier_fn v f = record v { auth_time_verifier_fn = f }

  unfoldable pub enable_signature_check : IdTokenVerifier p t → IdTokenVerifier p t
  unfolding JwtSettings.require_signature_check
  enable_signature_check v = record v {
    jwt_verifier = JwtSettings.require_signature_check v.jwt_verifier true;
  }

  unfoldable pub insecure_disable_signature_check : IdTokenVerifier p t → IdTokenVerifier p t
  unfolding JwtSettings.require_signature_check
  insecure_disable_signature_check v = record v {
    jwt_verifier = JwtSettings.require_signature_check v.jwt_verifier false;
  }

  unfoldable pub require_issuer_match : IdTokenVerifier p t → Bool → IdTokenVerifier p t
  unfolding JwtSettings.require_issuer_match
  require_issuer_match v iss_required = record v {
    jwt_verifier = JwtSettings.require_issuer_match v.jwt_verifier iss_required;
  }

  unfoldable pub require_audience_match : IdTokenVerifier p t → Bool → IdTokenVerifier p t
  unfolding JwtSettings.require_audience_match
  require_audience_match v aud_required = record v {
    jwt_verifier = JwtSettings.require_audience_match v.jwt_verifier aud_required;
  }

  unfoldable pub set_time_fn : IdTokenVerifier p t → (Unit {0} → p.DateTime) → IdTokenVerifier p t
  set_time_fn v f = record v { time_fn = f }

  unfoldable pub set_issue_time_verifier_fn :
      IdTokenVerifier p t → (p.DateTime → Verdict) → IdTokenVerifier p t
  set_issue_time_verifier_fn v f = record v { iat_verifier_fn = f }

  unfoldable pub set_other_audience_verifier_fn :
      IdTokenVerifier p t → (String → Bool) → IdTokenVerifier p t
  unfolding JwtSettings.set_other_audience_verifier_fn
  set_other_audience_verifier_fn v f = record v {
    jwt_verifier = JwtSettings.set_other_audience_verifier_fn v.jwt_verifier f;
  }

-- What `new_insecure_without_verification` makes of its placeholder issuer.
unfoldable pub insecure : {p : Platform.Platform} (t : Suite) → UrlText p → IdTokenVerifier p t
unfolding new_public_client insecure_disable_signature_check require_audience_match
    require_issuer_match
insecure t empty_issuer =
    let public = new_public_client "" empty_issuer (record { keys = [] }) in
    require_issuer_match (require_audience_match (insecure_disable_signature_check public) false)
      false

-- The placeholder has to parse, or the source panics.
unfoldable pub new_insecure_without_verification :
    (p : Platform.Platform) (t : Suite) → Result (IdTokenVerifier p t) p.UrlParseError
new_insecure_without_verification p t = do
  empty_issuer ← Platform.new p "https://0.0.0.0"
  ok (insecure t empty_issuer)

module _ {p : Platform.Platform} {t : Suite} {AC GC : Type 0} (v : IdTokenVerifier p t) where
  unfoldable pub verify_claims : IdTokenClaims p AC GC → (Option String → Verdict) → Check
  verify_claims claims nonce_verifier = do
    let cur_time = v.time_fn tt
    guard (not (p.time_leb claims.expiration cur_time)) (
        expired (
          "ID token expired at "
          +++ p.time_text claims.expiration
          +++ " (current time is "
          +++ p.time_text cur_time
          +++ ")"))
    map_err expired (v.iat_verifier_fn claims.issue_time)
    map_err invalid_nonce (nonce_verifier claims.nonce)
    map_err invalid_auth_context (v.acr_verifier_fn claims.auth_context_ref)
    map_err invalid_auth_time (v.auth_time_verifier_fn claims.auth_time)

  -- `verified_claims`, and `verified_claims_owned`: they differ in who owns the claims.
  unfoldable pub verified_claims :
      JsonWebToken t (IdTokenClaims p AC GC)
      → (Option String → Verdict)
      → Result (IdTokenClaims p AC GC) ClaimsVerificationError
  verified_claims jwt nonce_verifier = do
    partially_verified_claims ← JwtChecks.verified_claims v.jwt_verifier jwt
    verify_claims partially_verified_claims nonce_verifier
    ok partially_verified_claims
