-- ===== src/Tests/Issued.antt =====
-- A token that is signed with the client secret, at the verifier of the client.
use openidconnect_rs.Prelude.{◌+◌, String, ◌≡◌, refl, true, false, some, [], ◌∷◌, ok, err, inl}
use openidconnect_rs.Text.{as_bytes}
use openidconnect_rs.Core.Algorithms.{hmac_sha256}
use openidconnect_rs.Core.Jwk.Sign.{CoreHmacKey, hmac_sign, sign_hmac}
use openidconnect_rs.Core.Suite.{hmac_signing_key}
use openidconnect_rs.Jwt.{JsonWebToken}
use openidconnect_rs.Jwt.Encoding.{Codec, new, new_header}
use openidconnect_rs.Claims.IdToken.{IdTokenClaims}
use openidconnect_rs.Verification.IdToken.{IdTokenVerifier, verify_nonce, verified_claims}
use openidconnect_rs.Verification.IdToken.Exact.{IsCurrent}
use openidconnect_rs.Verification.IdToken.Issued.{verified_claims-new}
use openidconnect_rs.Tests.Sample.{clock, toy, toy-MacLaws, suite, sum, twice}
use openidconnect_rs.Tests.Tokens.{claims, issuer}

-- A codec that writes the same text for everything.
abbrev codec : Codec suite (IdTokenClaims clock Unit Unit)
codec = record {
  encode = λ bytes. "e";
  DecodeError = String;
  decode_error_text = λ e. e;
  decode = λ s. err "no";
  JsonError = String;
  json_error_text = λ e. e;
  header_to_string = λ h. ok "{}";
  header_from_slice = λ b. err "no";
  payload_to_string = λ c. ok "{}";
  payload_from_slice = λ b. err "no";
}

abbrev key : CoreHmacKey
key = record { secret = as_bytes "secret" }

abbrev token : JsonWebToken suite (IdTokenClaims clock Unit Unit)
token = record {
  header = new_header (hmac_signing_key toy key) hmac_sha256;
  payload = claims;
  signature = twice (sum (as_bytes "secret") + sum (as_bytes "e.e"));
  signing_input = "e.e";
}

made : new codec claims (hmac_signing_key toy key) hmac_sha256 ≡ ok token
unfolding new hmac_sign sign_hmac
made = refl

abbrev verifier : IdTokenVerifier clock suite
verifier = record {
  acr_verifier_fn = λ _. ok tt;
  auth_time_verifier_fn = λ _. ok tt;
  iat_verifier_fn = λ _. ok tt;
  jwt_verifier = record {
    allowed_algs = some (hmac_sha256 ∷ []);
    aud_match_required = true;
    client_id = "client";
    client_secret = some "secret";
    iss_required = true;
    issuer = issuer;
    is_signature_check_enabled = true;
    other_aud_verifier_fn = λ _. false;
    signature_keys = record { keys = [] };
  };
  time_fn = λ _. 1000;
}

current : IsCurrent verifier claims (verify_nonce "n")
unfolding verify_nonce
current = record {
  expiration = refl;
  issue_time = refl;
  nonce = refl;
  auth_context = refl;
  auth_time = refl;
}

verified_claims-new_example : verified_claims verifier token (verify_nonce "n") ≡ ok claims
verified_claims-new_example =
    verified_claims-new toy toy-MacLaws codec "secret" claims hmac_sha256 token verifier
      (verify_nonce "n") made refl (inl refl) refl (inl refl, (λ n. absurd (n refl), tt)) current
