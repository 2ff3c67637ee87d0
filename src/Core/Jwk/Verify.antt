-- ===== src/Core/Jwk/Verify.antt =====
-- src/core/jwk.rs and src/core/crypto.rs: CoreJsonWebKey::verify_signature.
use openidconnect_rs.Prelude.{
  ℕ, String, Bool, true, false, Option, none, some, List, ◌∷◌, ◌++◌, length, nat_eq, if◌then◌else◌,
  Result, ok, err, ◌>>=◌, ◌>>◌, guard, map_err, ok_or,
}
use openidconnect_rs.Text.{◌+++◌}
use openidconnect_rs.Types.Errors.{
  SignatureVerificationError, invalid_key, crypto_error, unsupported_alg, other, panic,
}
use openidconnect_rs.Core.Values.JsonWebKeyUse.{CoreJsonWebKeyUse}
use openidconnect_rs.Core.Crypto.{
  Crypto, Hash, sha256, sha384, sha512, Padding, pkcs1_v15, pss, EcCurve,
}
use openidconnect_rs.Core.Algorithms.{
  rsa, elliptic_curve, CoreJsonCurveType, p256, p384, p521, CoreJwsSigningAlgorithm, hmac_sha256,
  hmac_sha384, hmac_sha512, rsa_ssa_pkcs1_v15_sha256, rsa_ssa_pkcs1_v15_sha384,
  rsa_ssa_pkcs1_v15_sha512, rsa_ssa_pss_sha256, rsa_ssa_pss_sha384, rsa_ssa_pss_sha512,
  ecdsa_p256_sha256, ecdsa_p384_sha384, key_type_eq, is_type, alg_key_type, alg_text,
}
use openidconnect_rs.Core.Jwk.{CoreJsonWebKey, allows_signature}

-- What the verification of a signature returns.
abbrev pub Verified : Type 0
Verified = Result (Unit {0}) SignatureVerificationError

unfoldable pub rsa_public_key : CoreJsonWebKey → Result (List ℕ × List ℕ) String
rsa_public_key key =
    if key_type_eq key.kty rsa
    then (do
      n ← ok_or key.n "RSA modulus `n` is missing"
      e ← ok_or key.e "RSA exponent `e` is missing"
      ok (n, e))
    else err "RSA key required"

unfoldable pub ec_public_key :
    CoreJsonWebKey → Result (List ℕ × (List ℕ × CoreJsonCurveType)) String
ec_public_key key =
    if key_type_eq key.kty elliptic_curve
    then (do
      x ← ok_or key.x "EC `x` part is missing"
      y ← ok_or key.y "EC `y` part is missing"
      crv ← ok_or key.crv "EC `crv` part is missing"
      ok (x, (y, crv)))
    else err "EC key required"

-- `*key_use != CoreJsonWebKeyUse::Signature` of a key that states its use
unfoldable pub check_use : Option CoreJsonWebKeyUse → Verified
check_use none = ok tt
check_use (some key_use) =
    guard (allows_signature key_use) (invalid_key "key usage not permitted for digital signatures")

-- `matches!(self.crv, Some(...))`
unfoldable pub is_curve : CoreJsonCurveType → Option CoreJsonCurveType → Bool
is_curve p256 (some p256) = true
is_curve p384 (some p384) = true
is_curve p521 (some p521) = true
is_curve _ _ = false

module _ (c : Crypto) where
  unfoldable pub verify_rsa_signature : CoreJsonWebKey → Padding → List ℕ → List ℕ → Verified
  unfolding rsa_public_key
  verify_rsa_signature key padding msg signature = do
    ne ← map_err invalid_key (rsa_public_key key)
    public_key ←
        map_err invalid_key (c.rsa_public_key_new (c.from_bytes_be ne.0) (c.from_bytes_be ne.1))
    guard (c.rsa_verify public_key padding msg signature) (crypto_error "bad signature")

  -- The arm of one of the two curves that are supported; 4 opens an uncompressed point.
  unfoldable pub verify_on_curve : EcCurve → List ℕ → List ℕ → List ℕ → List ℕ → Verified
  verify_on_curve curve x y msg signature = do
    public_key ← map_err invalid_key (c.from_sec1_bytes curve (4 ∷ x ++ y))
    sig ← ok_or (c.ec_signature_from_slice curve signature) (crypto_error "Invalid signature")
    guard (c.ec_verify curve public_key msg sig) (crypto_error "EC Signature was wrong")

  unfoldable pub verify_on : CoreJsonCurveType → List ℕ → List ℕ → List ℕ → List ℕ → Verified
  unfolding verify_on_curve
  verify_on p256 x y msg signature = verify_on_curve EcCurve.p256 x y msg signature
  verify_on p384 x y msg signature = verify_on_curve EcCurve.p384 x y msg signature
  verify_on p521 x y msg signature = err (unsupported_alg "P521")

  unfoldable pub verify_ec_signature : CoreJsonWebKey → List ℕ → List ℕ → Verified
  unfolding ec_public_key verify_on
  verify_ec_signature key msg signature = do
    xyc ← map_err invalid_key (ec_public_key key)
    verify_on xyc.1.1 xyc.0 xyc.1.0 msg signature

  -- The arm of one of the three HMAC algorithms. `signature.into()` makes an array of the size of the
  -- output from a slice, and panics when the slice has another length.
  unfoldable pub verify_hmac : CoreJsonWebKey → Hash → List ℕ → List ℕ → Verified
  verify_hmac key h message signature = do
    k ← ok_or key.k (invalid_key "Symmetric key `k` is missing")
    mac ← map_err (λ e. other ("Could not create key: " +++ e)) (c.mac_new h k)
    if nat_eq (length signature) (c.output_size h)
        then guard (c.mac_verify h (c.mac_update h mac message) signature) (crypto_error "bad HMAC")
        else err panic

  -- The arm of one of the ECDSA algorithms with a curve that is supported.
  unfoldable pub verify_ecdsa : CoreJsonWebKey → CoreJsonCurveType → List ℕ → List ℕ → Verified
  unfolding is_curve verify_ec_signature
  verify_ecdsa key curve message signature =
      if is_curve curve key.crv
      then verify_ec_signature key message signature
      else err (invalid_key "Key uses different CRV than JWT")

  -- The arm of one of the RSA algorithms.
  unfoldable pub verify_rsa : CoreJsonWebKey → (Hash → Padding) → Hash → List ℕ → List ℕ → Verified
  unfolding verify_rsa_signature
  verify_rsa key padding h message signature =
      verify_rsa_signature key (padding h) (c.digest h message) signature

  -- The `match` on the algorithm.
  unfoldable pub verify_with : CoreJsonWebKey → CoreJwsSigningAlgorithm → List ℕ → List ℕ → Verified
  unfolding verify_rsa verify_hmac verify_ecdsa alg_text
  verify_with key rsa_ssa_pkcs1_v15_sha256 msg sig = verify_rsa key pkcs1_v15 sha256 msg sig
  verify_with key rsa_ssa_pkcs1_v15_sha384 msg sig = verify_rsa key pkcs1_v15 sha384 msg sig
  verify_with key rsa_ssa_pkcs1_v15_sha512 msg sig = verify_rsa key pkcs1_v15 sha512 msg sig
  verify_with key rsa_ssa_pss_sha256 msg sig = verify_rsa key pss sha256 msg sig
  verify_with key rsa_ssa_pss_sha384 msg sig = verify_rsa key pss sha384 msg sig
  verify_with key rsa_ssa_pss_sha512 msg sig = verify_rsa key pss sha512 msg sig
  verify_with key hmac_sha256 msg sig = verify_hmac key sha256 msg sig
  verify_with key hmac_sha384 msg sig = verify_hmac key sha384 msg sig
  verify_with key hmac_sha512 msg sig = verify_hmac key sha512 msg sig
  verify_with key ecdsa_p256_sha256 msg sig = verify_ecdsa key p256 msg sig
  verify_with key ecdsa_p384_sha384 msg sig = verify_ecdsa key p384 msg sig
  verify_with key other_alg msg sig = err (unsupported_alg (alg_text other_alg))

  unfoldable pub verify_signature :
      CoreJsonWebKey → CoreJwsSigningAlgorithm → List ℕ → List ℕ → Verified
  unfolding check_use verify_with
  verify_signature key signature_alg message signature = do
    check_use key.use_
    guard (is_type key.kty (alg_key_type signature_alg))
        (invalid_key "key type does not match signature algorithm")
    verify_with key signature_alg message signature
