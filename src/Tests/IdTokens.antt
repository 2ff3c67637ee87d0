-- ===== src/Tests/IdTokens.antt =====
-- An ID token for an access token, made, written and read.
use openidconnect_rs.Prelude.{◌+◌, String, ◌≡◌, refl, some, none, [], ◌∷◌, Any, ok}
use openidconnect_rs.Text.{as_bytes, ◌+++◌}
use openidconnect_rs.Core.Algorithms.{
  CoreJwsSigningAlgorithm, hmac_sha256, rsa_ssa_pkcs1_v15_sha256,
}
use openidconnect_rs.Core.Jwk.Sign.{hmac_sign, sign_hmac}
use openidconnect_rs.Core.Suite.{hash_bytes}
use openidconnect_rs.Jwt.Encoding
use openidconnect_rs.Jwt.Encoding.{Codec, CodecLaws, new_header}
use openidconnect_rs.Claims.IdToken.{IdTokenClaims}
use openidconnect_rs.Verification.IdToken.{verify_nonce}
use openidconnect_rs.IdToken.{
  IdToken, take, from_token, hash_or, new, from_str, to_string, claims, signing_alg,
}
use openidconnect_rs.IdToken.Hashes.{
  IsHash, IsBound, from_token_exact, new_binds, from_str-to_string,
}
use openidconnect_rs.IdToken.Trust.{signing_alg_of_claims}
use openidconnect_rs.Tests.Sample.{clock, suite, sum, twice}
use openidconnect_rs.Tests.Tokens
use openidconnect_rs.Tests.Keys.{encode, decode, signer, decode-encode, encode_no_dot}

abbrev bound : IdTokenClaims clock Unit Unit
bound = record Tokens.claims { access_token_hash = some (encode (294 ∷ [])) }

abbrev codec : Codec suite (IdTokenClaims clock Unit Unit)
codec = record {
  encode = encode;
  DecodeError = String;
  decode_error_text = λ e. e;
  decode = decode;
  JsonError = String;
  json_error_text = λ e. e;
  header_to_string = λ h. ok "{}";
  header_from_slice = λ b. ok (new_header signer hmac_sha256);
  payload_to_string = λ b. ok "{}";
  payload_from_slice = λ b. ok bound;
}

laws : CodecLaws codec
laws = record { decode-encode = decode-encode; encode_no_dot = encode_no_dot }

abbrev input : String
input = encode (as_bytes "{}") +++ "." +++ encode (as_bytes "{}")

abbrev token : IdToken clock suite Unit Unit
token = record {
  header = new_header signer hmac_sha256;
  payload = bound;
  signature = twice (sum (1 ∷ 2 ∷ []) + sum (as_bytes input));
  signing_input = input;
}

made : new codec Tokens.claims signer hmac_sha256 (some "abc") none ≡ ok token
unfolding new hash_or from_token take hash_bytes as_bytes Encoding.new hmac_sign sign_hmac
made = refl

from_token_exact_example : IsHash suite encode hmac_sha256 "abc" (encode (294 ∷ []))
unfolding from_token take hash_bytes as_bytes
from_token_exact_example =
    (from_token_exact suite encode hmac_sha256 "abc" (encode (294 ∷ []))).0 refl

new_binds_example :
    IsBound suite encode hmac_sha256 (some "abc") none (some (encode (294 ∷ [])))
    × IsBound suite encode hmac_sha256 none none none
    × (record bound { access_token_hash = none; code_hash = none } ≡ Tokens.claims)
    × (token.header ≡ new_header signer hmac_sha256)
    × (signer.sign hmac_sha256 (as_bytes token.signing_input) ≡ ok token.signature)
new_binds_example = new_binds codec Tokens.claims signer hmac_sha256 (some "abc") none token made

from_str-to_string_example : from_str codec (to_string codec token) ≡ ok token
from_str-to_string_example =
    from_str-to_string codec Tokens.claims signer hmac_sha256 (some "abc") none token laws
      (λ s w. refl) (λ s w. refl) made

claims_run : claims Tokens.token Tokens.verifier (verify_nonce "n") ≡ ok Tokens.claims
unfolding claims
claims_run = Tokens.id_token_run

signing_alg_of_claims_example :
    (alg : CoreJwsSigningAlgorithm) × (signing_alg Tokens.token ≡ ok alg)
    × Any (λ a. alg ≡ a) (rsa_ssa_pkcs1_v15_sha256 ∷ [])
signing_alg_of_claims_example =
    signing_alg_of_claims Tokens.token Tokens.verifier (verify_nonce "n") Tokens.claims refl
      claims_run
