-- ===== src/Tests/Tokens.antt =====
-- Verifiers on a token that is signed by RS256.
use mathlib.Core.Bool.{decide}
use openidconnect_rs.Prelude.{
  arith, any, filter, String, ◌≡◌, refl, true, false, some, none, [], ◌∷◌, ok, Any, All, OnlyPasses,
}
use openidconnect_rs.Text.{to_uppercase, as_bytes}
use openidconnect_rs.Types.Platform
use openidconnect_rs.Types.Platform.{UrlText}
use openidconnect_rs.Types.KeySet.{JsonWebKeySet}
use openidconnect_rs.Core.Values.JsonWebKeyUse
use openidconnect_rs.Core.Algorithms.{
  rsa, alg_eq, alg_discrete, uses_shared_secret, is_type, alg_key_type, key_type_eq,
  key_type_discrete, rsa_ssa_pkcs1_v15_sha256, CoreJwsSigningAlgorithm,
}
use openidconnect_rs.Core.Jwk.{CoreJsonWebKey, allows_signature}
use openidconnect_rs.Core.Jwk.Verify.{
  verify_signature, check_use, verify_with, verify_rsa, verify_rsa_signature, rsa_public_key,
}
use openidconnect_rs.Jwt.{verified_payload, JsonWebToken, JsonWebTokenHeader, signature}
use openidconnect_rs.Claims.Standard
use openidconnect_rs.Claims.IdToken.{IdTokenClaims, id_token_access}
use openidconnect_rs.Claims.UserInfo.{UserInfoClaimsImpl, user_info_access}
use openidconnect_rs.Verification.JwtSettings
use openidconnect_rs.Verification.JwtSettings.{JwtClaimsVerifier}
use openidconnect_rs.Verification.KeySelection.{is_eligible, select_key}
use openidconnect_rs.Verification.JwtChecks
use openidconnect_rs.Verification.Accepts.{Accepts, IsEligible, Verifies}
use openidconnect_rs.Verification.Accepts.Exact.{verified_claims_exact}
use openidconnect_rs.Verification.IdToken
use openidconnect_rs.Verification.IdToken.{
  IdTokenVerifier, new_public_client, verify_nonce, insecure, set_time_fn,
}
use openidconnect_rs.Verification.IdToken.Exact.{
  id_token_exact, IsCurrent, IsTimeOrder, accepted_earlier,
}
use openidconnect_rs.Verification.IdToken.Configured.{
  here, next, time, SameParties, Configured-SameParties,
}
use openidconnect_rs.Verification.IdToken.Defaults.{
  public_client_needs_key, public_client_defaults, insecure_exact,
}
use openidconnect_rs.Verification.UserInfo
use openidconnect_rs.Verification.UserInfo.{UserInfoVerifier, user_info_exact, HasSubject}
use openidconnect_rs.Tests.Sample.{clock, suite}

abbrev pub issuer : UrlText clock
issuer = record { url = "https://op.example"; text = "https://op.example" }

abbrev key : CoreJsonWebKey
key = record {
  kty = rsa;
  use_ = some JsonWebKeyUse.signature;
  kid = some "k1";
  n = some (7 ∷ []);
  e = some (1 ∷ []);
  crv = none;
  x = none;
  y = none;
  d = none;
  k = none;
}

abbrev pub keys : JsonWebKeySet suite
keys = record { keys = key ∷ [] }

abbrev header : JsonWebTokenHeader suite
header = record {
  alg = signature rsa_ssa_pkcs1_v15_sha256;
  crit = none;
  cty = none;
  kid = some "k1";
  typ = some "jwt";
}

abbrev pub claims : IdTokenClaims clock Unit Unit
claims = record {
  issuer = issuer;
  audiences = "client" ∷ [];
  expiration = 2000;
  issue_time = 900;
  auth_time = none;
  nonce = some "n";
  auth_context_ref = none;
  auth_method_refs = none;
  authorized_party = none;
  access_token_hash = none;
  code_hash = none;
  standard_claims = Standard.new "alice";
  additional_claims = tt;
}

-- The signature is the modulus before the digest of "h.p".
abbrev pub token : JsonWebToken suite (IdTokenClaims clock Unit Unit)
token = record {
  header = header;
  payload = claims;
  signature = 7 ∷ 262 ∷ 262 ∷ [];
  signing_input = "h.p";
}

abbrev pub client : JwtClaimsVerifier clock suite
client = record {
  allowed_algs = some (rsa_ssa_pkcs1_v15_sha256 ∷ []);
  aud_match_required = true;
  client_id = "client";
  client_secret = none;
  iss_required = true;
  issuer = issuer;
  is_signature_check_enabled = true;
  other_aud_verifier_fn = λ _. false;
  signature_keys = keys;
}

run : JwtChecks.verified_claims client token ≡ ok claims
unfolding JwtChecks.verified_claims JwtChecks.validate_jose_header JwtChecks.validate_typ
    JwtChecks.validate_cty to_uppercase JwtChecks.reject_encryption JwtChecks.check_issuer
    Platform.eq JwtChecks.check_audiences any JwtChecks.verify_signed JwtChecks.verify_with_alg
    JwtChecks.check_allowed alg_eq decide alg_discrete uses_shared_secret is_type alg_key_type
    key_type_eq key_type_discrete JwtChecks.verify_with_keys is_eligible allows_signature filter
    select_key verified_payload verify_signature check_use verify_with verify_rsa
    verify_rsa_signature rsa_public_key as_bytes
run = refl

abbrev accepted : Accepts client token
accepted = ((verified_claims_exact client token claims).0 run).0

verified_claims_exact_example : Accepts client token × (claims ≡ claims)
verified_claims_exact_example = (verified_claims_exact client token claims).0 run

abbrev pub verifier : IdTokenVerifier clock suite
verifier = record {
  acr_verifier_fn = λ _. ok tt;
  auth_time_verifier_fn = λ _. ok tt;
  iat_verifier_fn = λ _. ok tt;
  jwt_verifier = client;
  time_fn = λ _. 1000;
}

current : IsCurrent verifier claims (verify_nonce "n")
unfolding verify_nonce
current = record {
  expiration = refl;
  issue_time = refl;
  nonce = refl;
  auth_context = refl;
  auth_time = refl;
}

pub id_token_run : IdToken.verified_claims verifier token (verify_nonce "n") ≡ ok claims
id_token_run = (id_token_exact verifier token (verify_nonce "n") claims).1 (accepted, current, refl)

id_token_exact_example : IdToken.verified_claims verifier token (verify_nonce "n") ≡ ok claims
id_token_exact_example =
    (id_token_exact verifier token (verify_nonce "n") claims).1 (accepted, current, refl)

pub public_run :
    IdToken.verified_claims (new_public_client "client" issuer keys) token (verify_nonce "n")
    ≡ ok claims
unfolding new_public_client IdToken.new JwtSettings.new
public_run = id_token_run

checked :
    (new_public_client {p = clock} {t = suite} "client" issuer
      keys).jwt_verifier.is_signature_check_enabled
    ≡ true
unfolding new_public_client IdToken.new JwtSettings.new
checked = refl

public_client_needs_key_example :
    (alg : CoreJwsSigningAlgorithm) × (header.alg ≡ signature alg)
    × ((k : CoreJsonWebKey) × OnlyPasses (IsEligible suite alg (some "k1")) (key ∷ []) k
        × Verifies (new_public_client "client" issuer keys).jwt_verifier token alg k)
public_client_needs_key_example =
    public_client_needs_key "client" issuer keys (new_public_client "client" issuer keys) token
      (verify_nonce "n") claims here checked public_run

public_client_defaults_example :
    (header.alg ≡ signature rsa_ssa_pkcs1_v15_sha256)
    × (◌≡◌ {A = String} "https://op.example" "https://op.example")
    × Any (λ (aud : String). aud ≡ "client") ("client" ∷ [])
    × All (λ (aud : String). aud ≡ "client") ("client" ∷ [])
public_client_defaults_example =
    public_client_defaults "client" issuer keys token (verify_nonce "n") claims public_run

at_thousand :
    IdToken.verified_claims (set_time_fn verifier (λ _. 1000)) token (verify_nonce "n") ≡ ok claims
unfolding set_time_fn
at_thousand = id_token_run

time_order : IsTimeOrder clock
time_order = record { trans = λ a b c p q. ground arith }

accepted_earlier_example :
    IdToken.verified_claims (set_time_fn verifier (λ _. 500)) token (verify_nonce "n") ≡ ok claims
accepted_earlier_example =
    accepted_earlier verifier token (verify_nonce "n") 1000 500 claims time_order refl at_thousand

abbrev placeholder : UrlText clock
placeholder = record { url = "https://0.0.0.0"; text = "https://0.0.0.0" }

made : IdToken.new_insecure_without_verification clock suite ≡ ok (insecure suite placeholder)
unfolding IdToken.new_insecure_without_verification Platform.new
made = refl

insecure_exact_example :
    IdToken.verified_claims (insecure suite placeholder) token (verify_nonce "n") ≡ ok claims
insecure_exact_example =
    (insecure_exact (insecure suite placeholder) token (verify_nonce "n") claims made).1
      (accepted.header, refl, current.nonce, refl)

Configured-SameParties_example : SameParties verifier (set_time_fn verifier (λ _. 500))
Configured-SameParties_example = Configured-SameParties (next here (time (λ _. 500)))

abbrev pub user : UserInfoClaimsImpl clock Unit Unit
user = record {
  issuer = some issuer;
  audiences = some ("client" ∷ []);
  standard_claims = Standard.new "alice";
  additional_claims = tt;
}

abbrev user_token : JsonWebToken suite (UserInfoClaimsImpl clock Unit Unit)
user_token = record {
  header = header;
  payload = user;
  signature = 7 ∷ 262 ∷ 262 ∷ [];
  signing_input = "h.p";
}

pub about_alice : HasSubject (some "alice") user.standard_claims.sub
unfolding Standard.new
about_alice = refl

user_accepted : Accepts client user_token
user_accepted = record {
  header = accepted.header;
  issuer = accepted.issuer;
  audience = accepted.audience;
  signed = accepted.signed;
}

user_info_exact_example :
    UserInfo.verified_claims
      (record { jwt_verifier = client; expected_subject = some "alice" })
      user_token
    ≡ ok user
user_info_exact_example =
    (user_info_exact (record { jwt_verifier = client; expected_subject = some "alice" }) user_token
        user).1
      (user_accepted, about_alice, refl)
