-- ===== src/Core/Jwk/Valid/Exact.antt =====
-- src/core/jwk.rs: verify_signature against the description of the signatures that are valid.
use openidconnect_rs.Prelude.{
  ℕ, ◌≡◌, ◌↔◌, refl, true, Option, none, some, List, Result, ok, >>-eq-ok, >>-intro, guard_iff, ◌≢◌,
}
use openidconnect_rs.Types.Errors.{SignatureVerificationError}
use openidconnect_rs.Core.Values.JsonWebKeyUse.{CoreJsonWebKeyUse, signature, encryption, other}
use openidconnect_rs.Core.Crypto.{Crypto, pkcs1_v15, pss}
use openidconnect_rs.Core.Algorithms.{
  CoreJsonWebKeyType, CoreJwsSigningAlgorithm, hmac_sha256, hmac_sha384, hmac_sha512,
  rsa_ssa_pkcs1_v15_sha256, rsa_ssa_pkcs1_v15_sha384, rsa_ssa_pkcs1_v15_sha512, rsa_ssa_pss_sha256,
  rsa_ssa_pss_sha384, rsa_ssa_pss_sha512, ecdsa_p256_sha256, ecdsa_p384_sha384, ecdsa_p521_sha512,
  alg_key_type, is_type, key_type_eq_iff,
}
use openidconnect_rs.Core.Jwk.{CoreJsonWebKey, allows_signature}
use openidconnect_rs.Core.Jwk.Valid.{Scheme, scheme, IsValid, IsValidBy}
use openidconnect_rs.Core.Jwk.Valid.Arms.{verify_hmac_iff, verify_rsa_iff, verify_ecdsa_iff}
use openidconnect_rs.Core.Jwk.Verify.{check_use, verify_with, verify_signature}

IsUsable : Option CoreJsonWebKeyUse → Type 0
IsUsable use_ = (u : CoreJsonWebKeyUse) → use_ ≡ some u → u ≡ signature

check_use_iff : (use_ : Option CoreJsonWebKeyUse) → (check_use use_ ≡ ok tt) ↔ IsUsable use_
unfolding IsUsable check_use allows_signature
check_use_iff none = (λ h u e. cc, λ h. refl)
check_use_iff (some signature) = (λ h u e. cc, λ h. refl)
check_use_iff (some encryption) = (λ h. cc, λ h. cc (h encryption refl))
check_use_iff (some (other s)) = (λ h. cc, λ h. cc (h (other s) refl))

pub is_type_iff :
    (kty : CoreJsonWebKeyType) (wanted : Option CoreJsonWebKeyType)
    → (is_type kty wanted ≡ true) ↔ (wanted ≡ some kty)
unfolding is_type
is_type_iff kty none = (λ h. cc, λ h. cc)
is_type_iff kty (some k) =
    (λ h. cc ((key_type_eq_iff kty k).0 h), λ h. (key_type_eq_iff kty k).1 (cc))

module _ (c : Crypto) (key : CoreJsonWebKey) (msg sig : List ℕ) where
  IsByScheme : CoreJwsSigningAlgorithm → Type 0
  IsByScheme alg = (s : Scheme) × (scheme alg ≡ some s) × IsValidBy c key msg sig s

  -- One arm, from what it verifies.
  arm :
      (alg : CoreJwsSigningAlgorithm) {r : Result (Unit {0}) SignatureVerificationError}
      (s : Scheme)
      → scheme alg ≡ some s
      → (r ≡ ok tt) ↔ IsValidBy c key msg sig s
      → (r ≡ ok tt) ↔ IsByScheme alg
  unfolding IsByScheme
  arm alg s e h = (λ v. (s, e, h.0 v), λ (s', e', w). let same : s ≡ s' = cc in h.1 (rw same w))

  -- An algorithm without a scheme.
  no_arm :
      (alg : CoreJwsSigningAlgorithm) {r : Result (Unit {0}) SignatureVerificationError}
      → scheme alg ≡ none
      → r ≢ ok tt
      → (r ≡ ok tt) ↔ IsByScheme alg
  unfolding IsByScheme
  no_arm alg e h = (λ v. absurd (h v), λ (s', e', w). cc)

  verify_with_iff :
      (alg : CoreJwsSigningAlgorithm)
      → alg_key_type alg ≡ some key.kty
      → (verify_with c key alg msg sig ≡ ok tt) ↔ IsByScheme alg
  unfolding verify_with alg_key_type
  verify_with_iff hmac_sha256 t = arm hmac_sha256 _ refl (verify_hmac_iff c key msg sig _)
  verify_with_iff hmac_sha384 t = arm hmac_sha384 _ refl (verify_hmac_iff c key msg sig _)
  verify_with_iff hmac_sha512 t = arm hmac_sha512 _ refl (verify_hmac_iff c key msg sig _)
  verify_with_iff rsa_ssa_pkcs1_v15_sha256 t =
      arm rsa_ssa_pkcs1_v15_sha256 _ refl (verify_rsa_iff c key msg sig pkcs1_v15 _ (cc))
  verify_with_iff rsa_ssa_pkcs1_v15_sha384 t =
      arm rsa_ssa_pkcs1_v15_sha384 _ refl (verify_rsa_iff c key msg sig pkcs1_v15 _ (cc))
  verify_with_iff rsa_ssa_pkcs1_v15_sha512 t =
      arm rsa_ssa_pkcs1_v15_sha512 _ refl (verify_rsa_iff c key msg sig pkcs1_v15 _ (cc))
  verify_with_iff rsa_ssa_pss_sha256 t =
      arm rsa_ssa_pss_sha256 _ refl (verify_rsa_iff c key msg sig pss _ (cc))
  verify_with_iff rsa_ssa_pss_sha384 t =
      arm rsa_ssa_pss_sha384 _ refl (verify_rsa_iff c key msg sig pss _ (cc))
  verify_with_iff rsa_ssa_pss_sha512 t =
      arm rsa_ssa_pss_sha512 _ refl (verify_rsa_iff c key msg sig pss _ (cc))
  verify_with_iff ecdsa_p256_sha256 t =
      arm ecdsa_p256_sha256 _ refl (verify_ecdsa_iff c key msg sig _ (cc))
  verify_with_iff ecdsa_p384_sha384 t =
      arm ecdsa_p384_sha384 _ refl (verify_ecdsa_iff c key msg sig _ (cc))
  verify_with_iff ecdsa_p521_sha512 t = no_arm ecdsa_p521_sha512 refl (λ h. cc)
  verify_with_iff CoreJwsSigningAlgorithm.none t =
      no_arm CoreJwsSigningAlgorithm.none refl (λ h. cc)

  -- A key verifies a signature exactly when the key states no other use than signing, is of the type
  -- that the algorithm asks for and has the parts that the algorithm's scheme needs, and the crates
  -- verify the signature under them: by HMAC over the message, by RSA with the algorithm's padding
  -- over its digest, or by ECDSA on the curve of the key. For ES512 and `none` there is no scheme, so
  -- that no signature is verified.
  pub verify_signature_exact :
      (alg : CoreJwsSigningAlgorithm)
      → (verify_signature c key alg msg sig ≡ ok tt) ↔ IsValid c key msg sig alg
  unfolding verify_signature IsUsable IsByScheme
  verify_signature_exact alg = (
    λ h.
        let (u, r) = >>-eq-ok _ _ h in
        let (g, v) = >>-eq-ok _ _ r in
        let t = (is_type_iff _ _).0 ((guard_iff _ _).0 g) in
        record {
          may_sign = (check_use_iff _).0 u;
          type = t;
          by_scheme = (verify_with_iff alg t).0 v;
        },
    λ w. >>-intro ((check_use_iff key.use_).1 w.may_sign) (
        >>-intro ((guard_iff _ _).1 ((is_type_iff _ _).1 w.type))
          ((verify_with_iff alg w.type).1 w.by_scheme)),
  )
