-- ===== src/Tests/Keys.antt =====
-- Keys that sign and verify, and tokens that are written and read.
use Prim.Native.Char.{code}
use Prim.Native.String
use openidconnect_rs.Prelude.{
  ℕ, zero, suc, String, ◌≡◌, refl, ap, sym, ◌+◌, Bool, true, false, some, none, List, [], ◌∷◌,
  Result, ok, err, nat_eq, if◌then◌else◌, ok_inj,
}
use mathlib.Core.Bool.{decide}
use openidconnect_rs.Text.{as_bytes, ◌+++◌}
use openidconnect_rs.Text.Split.{has_dot}
use openidconnect_rs.Types.Errors.{panic}
use openidconnect_rs.Traits.{SigningKey}
use openidconnect_rs.Core.Values.JsonWebKeyUse
use openidconnect_rs.Core.Crypto.{sha256}
use openidconnect_rs.Core.Suite.{hmac_signing_key}
use openidconnect_rs.Core.Algorithms
use openidconnect_rs.Core.Algorithms.{
  hmac_sha256, rsa_ssa_pss_sha256, ecdsa_p256_sha256, elliptic_curve, is_type, alg_key_type,
  key_type_eq, key_type_discrete,
}
use openidconnect_rs.Core.Jwk.{CoreJsonWebKey, new_symmetric, allows_signature}
use openidconnect_rs.Core.Jwk.Verify.{
  verify_signature, check_use, verify_with, verify_ecdsa, is_curve, verify_ec_signature,
  ec_public_key, verify_on, verify_on_curve,
}
use openidconnect_rs.Core.Jwk.Sign.{
  CoreHmacKey, CoreRsaPrivateSigningKey, hmac_sign, sign_hmac, hmac_as_verification_key, rsa_sign,
  sign_pss, rsa_as_verification_key,
}
use openidconnect_rs.Core.Jwk.Valid.{IsValid}
use openidconnect_rs.Core.Jwk.Valid.Exact.{verify_signature_exact}
use openidconnect_rs.Core.Jwk.Sound.{hmac_sign-verify, rsa_sign-verify}
use openidconnect_rs.Core.Jwk.Panics.{verify_signature-panic_iff}
use openidconnect_rs.Jwt.{JsonWebToken, verified_payload, signature}
use openidconnect_rs.Jwt.Algorithm
use openidconnect_rs.Jwt.Algorithm.{reread, deserialize-serialize}
use openidconnect_rs.Jwt.Encoding.{Codec, CodecLaws, new, new_header, serialize, visit_str}
use openidconnect_rs.Jwt.Encoding.RoundTrip.{visit_str-serialize, verified_payload-new}
use openidconnect_rs.Tests.Sample.{
  toy, toy-MacLaws, toy-RsaLaws, suite, same_bytes, same_bytes_iff, sum, twice,
}

-- The point (1, 2), whose key signs by repeating its uncompressed form before the message 9.
abbrev ec_key : CoreJsonWebKey
ec_key = record {
  kty = elliptic_curve;
  use_ = some JsonWebKeyUse.signature;
  kid = none;
  n = none;
  e = none;
  crv = some Algorithms.p256;
  x = some (1 ∷ []);
  y = some (2 ∷ []);
  d = none;
  k = none;
}

ec_run : verify_signature toy ec_key ecdsa_p256_sha256 (9 ∷ []) (4 ∷ 1 ∷ 2 ∷ 9 ∷ []) ≡ ok tt
unfolding verify_signature check_use allows_signature is_type alg_key_type key_type_eq
    key_type_discrete decide verify_with verify_ecdsa is_curve verify_ec_signature ec_public_key
    verify_on verify_on_curve
ec_run = refl

verify_signature_exact_example : IsValid toy ec_key (9 ∷ []) (4 ∷ 1 ∷ 2 ∷ 9 ∷ []) ecdsa_p256_sha256
verify_signature_exact_example =
    (verify_signature_exact toy ec_key (9 ∷ []) (4 ∷ 1 ∷ 2 ∷ 9 ∷ []) ecdsa_p256_sha256).0 ec_run

abbrev pub hmac_key : CoreHmacKey
hmac_key = record { secret = 1 ∷ 2 ∷ [] }

hmac_signed : hmac_sign toy hmac_key hmac_sha256 (9 ∷ []) ≡ ok (12 ∷ 12 ∷ [])
unfolding hmac_sign sign_hmac
hmac_signed = refl

hmac_sign-verify_example :
    verify_signature toy (hmac_as_verification_key toy hmac_key) hmac_sha256 (9 ∷ []) (12 ∷ 12 ∷ [])
    ≡ ok tt
hmac_sign-verify_example =
    hmac_sign-verify toy toy-MacLaws hmac_key (9 ∷ []) hmac_sha256 (12 ∷ 12 ∷ []) hmac_signed

abbrev rsa_key : CoreRsaPrivateSigningKey toy
rsa_key = record { key_pair = 7 ∷ []; rng = tt; kid = some "k1" }

rsa_signed : rsa_sign toy rsa_key rsa_ssa_pss_sha256 (9 ∷ []) ≡ ok (7 ∷ 2 ∷ 9 ∷ 9 ∷ [])
unfolding rsa_sign sign_pss
rsa_signed = refl

rsa_sign-verify_example :
    verify_signature toy
      (rsa_as_verification_key toy rsa_key)
      rsa_ssa_pss_sha256
      (9 ∷ [])
      (7 ∷ 2 ∷ 9 ∷ 9 ∷ [])
    ≡ ok tt
rsa_sign-verify_example =
    rsa_sign-verify toy toy-RsaLaws rsa_key (9 ∷ []) rsa_ssa_pss_sha256 (7 ∷ 2 ∷ 9 ∷ 9 ∷ [])
      rsa_signed

verify_signature-panic_iff_example :
    verify_signature toy (new_symmetric (1 ∷ [])) hmac_sha256 (9 ∷ []) [] ≡ err panic
verify_signature-panic_iff_example =
    (verify_signature-panic_iff toy (1 ∷ []) (9 ∷ []) [] hmac_sha256 sha256 refl).1
      (1, refl, λ e. cc)

deserialize-serialize_example :
    Algorithm.deserialize suite (Algorithm.serialize suite (signature hmac_sha256))
    ≡ ok (signature hmac_sha256)
deserialize-serialize_example = deserialize-serialize toy (signature hmac_sha256)

-- Each byte in unary, with a mark at its end.
abbrev pub unary : ℕ → String → String
unary zero s = String.◌∷◌ (String.char_at "b" 0) s
unary (suc n) s = String.◌∷◌ (String.char_at "a" 0) (unary n s)

abbrev pub encode : List ℕ → String
encode [] = ""
encode (b ∷ bytes) = unary b (encode bytes)

abbrev pub increment : Result (List ℕ) String → Result (List ℕ) String
increment (ok (b ∷ bytes)) = ok (suc b ∷ bytes)
increment _ = err "no mark"

abbrev pub start : Result (List ℕ) String → Result (List ℕ) String
start (ok bytes) = ok (0 ∷ bytes)
start (err e) = err e

abbrev pub decode : String → Result (List ℕ) String
decode String.[] = ok []
decode (String.◌∷◌ c s) =
    let rest = decode s in if nat_eq (code c) b'b' then start rest else increment rest

decode-unary :
    (n : ℕ) (s : String) (bytes : List ℕ)
    → decode s ≡ ok bytes
    → decode (unary n s) ≡ ok (n ∷ bytes)
decode-unary zero s bytes e = ap start e
decode-unary (suc n) s bytes e = ap increment (decode-unary n s bytes e)

pub decode-encode : (bytes : List ℕ) → decode (encode bytes) ≡ ok bytes
decode-encode [] = refl
decode-encode (b ∷ bytes) = decode-unary b (encode bytes) bytes (decode-encode bytes)

unary_no_dot : (n : ℕ) (s : String) → has_dot s ≡ false → has_dot (unary n s) ≡ false
unfolding has_dot
unary_no_dot zero s e = e
unary_no_dot (suc n) s e = unary_no_dot n s e

pub encode_no_dot : (bytes : List ℕ) → has_dot (encode bytes) ≡ false
unfolding has_dot
encode_no_dot [] = refl
encode_no_dot (b ∷ bytes) = unary_no_dot b (encode bytes) (encode_no_dot bytes)

-- Tokens whose payload is true or false.
abbrev codec : Codec suite Bool
codec = record {
  encode = encode;
  DecodeError = String;
  decode_error_text = λ e. e;
  decode = decode;
  JsonError = String;
  json_error_text = λ e. e;
  header_to_string = λ h. ok "{}";
  header_from_slice = λ b. ok (new_header (hmac_signing_key toy hmac_key) hmac_sha256);
  payload_to_string = λ b. ok (if b then "true" else "false");
  payload_from_slice = λ b. ok (same_bytes b (as_bytes "true"));
}

codec-CodecLaws : CodecLaws codec
codec-CodecLaws = record { decode-encode = decode-encode; encode_no_dot = encode_no_dot }

abbrev pub signer : SigningKey suite
signer = hmac_signing_key toy hmac_key

abbrev input : String
input = encode (as_bytes "{}") +++ "." +++ encode (as_bytes "true")

abbrev made_token : JsonWebToken suite Bool
made_token = record {
  header = new_header signer hmac_sha256;
  payload = true;
  signature = twice (sum (1 ∷ 2 ∷ []) + sum (as_bytes input));
  signing_input = input;
}

made : new codec true signer hmac_sha256 ≡ ok made_token
unfolding new hmac_sign sign_hmac
made = refl

payload_read :
    (s : String)
    → codec.payload_to_string true ≡ ok s
    → codec.payload_from_slice (as_bytes s) ≡ ok true
payload_read s e =
    ap ok ((same_bytes_iff (as_bytes s) (as_bytes "true")).1 (ap as_bytes (sym (ok_inj e))))

visit_str-serialize_example : visit_str codec (serialize codec made_token) ≡ ok made_token
visit_str-serialize_example =
    visit_str-serialize codec true signer hmac_sha256 codec-CodecLaws (λ s e. refl) payload_read
      made_token made

verified_payload-new_example :
    verified_payload made_token hmac_sha256 signer.as_verification_key ≡ ok true
verified_payload-new_example =
    verified_payload-new codec true signer hmac_sha256
      (λ msg sig. hmac_sign-verify toy toy-MacLaws hmac_key msg hmac_sha256 sig) made_token made
