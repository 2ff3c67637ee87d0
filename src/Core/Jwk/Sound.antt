-- ===== src/Core/Jwk/Sound.antt =====
-- src/core/jwk.rs: a key verifies what its private key signs, and when an HMAC signature panics.
use openidconnect_rs.Prelude.{
  ok_or, ok_inj, ℕ, ◌≡◌, refl, sym, ap, ◌∙◌, some, List, length, ok, >>=-iff, map_err_iff,
  ok_or_iff,
}
use openidconnect_rs.Types.Errors.{SigningError}
use openidconnect_rs.Core.Crypto.{
  Crypto, Hash, SigningPadding, pss_with_salt, verifying, HasDigestSalt, MacLaws, RsaLaws,
}
use openidconnect_rs.Core.Algorithms.{
  CoreJwsSigningAlgorithm, symmetric, rsa, hmac_sha256, hmac_sha384, hmac_sha512,
  rsa_ssa_pkcs1_v15_sha256, rsa_ssa_pkcs1_v15_sha384, rsa_ssa_pkcs1_v15_sha512, rsa_ssa_pss_sha256,
  rsa_ssa_pss_sha384, rsa_ssa_pss_sha512, alg_key_type,
}
use openidconnect_rs.Core.Jwk.{new_symmetric}
use openidconnect_rs.Core.Jwk.Sign.{
  CoreHmacKey, CoreRsaPrivateSigningKey, sign_hmac, hmac_sign, hmac_as_verification_key, sign_pkcs1,
  sign_pss, rsa_sign, rsa_as_verification_key,
}
use openidconnect_rs.Core.Jwk.Valid.{mac, rsa_with, scheme, IsMac}
use openidconnect_rs.Core.Jwk.Valid.Exact.{verify_signature_exact}
use openidconnect_rs.Core.Jwk.Verify.{verify_signature}

module _ (c : Crypto) (laws : MacLaws c) (key : CoreHmacKey) (msg : List ℕ) where
  sign_hmac-IsMac :
      (h : Hash) {sig : List ℕ}
      → sign_hmac c key h msg ≡ ok sig
      → IsMac c (hmac_as_verification_key c key) msg sig h
  unfolding sign_hmac hmac_as_verification_key new_symmetric
  sign_hmac-IsMac h {sig} e =
      let (m, em, q) = (>>=-iff _ _).0 e in
      let tag : c.mac_finalize h (c.mac_update h m msg) ≡ sig = ok_inj q in
      (
        key.secret,
        refl,
        m,
        (map_err_iff _ _).0 em,
        ap length (sym tag) ∙ laws.finalize_size h _,
        (laws.verify_iff h _ sig).1 (sym tag),
      )

  mac_verifies :
      (alg : CoreJwsSigningAlgorithm) (h : Hash) {sig : List ℕ}
      → scheme alg ≡ some (mac h)
      → alg_key_type alg ≡ some symmetric
      → sign_hmac c key h msg ≡ ok sig
      → verify_signature c (hmac_as_verification_key c key) alg msg sig ≡ ok tt
  unfolding hmac_as_verification_key new_symmetric
  mac_verifies alg h {sig} s t e =
      (verify_signature_exact c (hmac_as_verification_key c key) msg sig alg).1
        (record { may_sign = λ u p. cc; type = t; by_scheme = (mac h, s, sign_hmac-IsMac h e) })

  -- If the crate hmac verifies exactly the code that it computes, in the size of its output, then a
  -- signature that `CoreHmacKey::sign` returns, under whatever algorithm, is verified under that
  -- algorithm by the key that `as_verification_key` returns.
  pub hmac_sign-verify :
      (alg : CoreJwsSigningAlgorithm) (sig : List ℕ)
      → hmac_sign c key alg msg ≡ ok sig
      → verify_signature c (hmac_as_verification_key c key) alg msg sig ≡ ok tt
  unfolding hmac_sign alg_key_type
  hmac_sign-verify hmac_sha256 sig e = mac_verifies hmac_sha256 _ refl refl e
  hmac_sign-verify hmac_sha384 sig e = mac_verifies hmac_sha384 _ refl refl e
  hmac_sign-verify hmac_sha512 sig e = mac_verifies hmac_sha512 _ refl refl e
  hmac_sign-verify _ sig e = cc

module _ (c : Crypto) (laws : RsaLaws c) (key : CoreRsaPrivateSigningKey c) (msg : List ℕ) where
  rsa_verifies :
      (alg : CoreJwsSigningAlgorithm) (p : SigningPadding) (h : Hash) {sig : List ℕ}
      → HasDigestSalt c p
      → scheme alg ≡ some (rsa_with (verifying p) h)
      → alg_key_type alg ≡ some rsa
      → ok_or (c.sign_with_rng key.key_pair key.rng p (c.digest h msg)) SigningError.crypto_error
        ≡ ok sig
      → verify_signature c (rsa_as_verification_key c key) alg msg sig ≡ ok tt
  unfolding rsa_as_verification_key
  rsa_verifies alg p h {sig} salt s t e =
      let signed =
        laws.sign_verifies key.key_pair key.rng p (c.digest h msg) sig salt ((ok_or_iff _ _).0 e) in
      (verify_signature_exact c (rsa_as_verification_key c key) msg sig alg).1 (record {
        may_sign = λ u q. cc;
        type = t;
        by_scheme = (
          rsa_with (verifying p) h,
          s,
          (
            _,
            _,
            refl,
            refl,
            c.to_public_key key.key_pair,
            laws.public_key_parts key.key_pair,
            signed,
          ),
        );
      })

  -- If digests have the size of the output, and the crate rsa rebuilds a public key from its modulus
  -- and exponent and verifies what the private key signs, with PSS only if the salt has the size of the
  -- digest, then a signature that `CoreRsaPrivateSigningKey::sign` returns, under whatever
  -- algorithm, is verified under that algorithm by the key that `as_verification_key` returns.
  pub rsa_sign-verify :
      (alg : CoreJwsSigningAlgorithm) (sig : List ℕ)
      → rsa_sign c key alg msg ≡ ok sig
      → verify_signature c (rsa_as_verification_key c key) alg msg sig ≡ ok tt
  unfolding rsa_sign sign_pkcs1 sign_pss alg_key_type
  rsa_sign-verify rsa_ssa_pkcs1_v15_sha256 sig e =
      rsa_verifies rsa_ssa_pkcs1_v15_sha256 (SigningPadding.pkcs1_v15 _) _ tt refl refl e
  rsa_sign-verify rsa_ssa_pkcs1_v15_sha384 sig e =
      rsa_verifies rsa_ssa_pkcs1_v15_sha384 (SigningPadding.pkcs1_v15 _) _ tt refl refl e
  rsa_sign-verify rsa_ssa_pkcs1_v15_sha512 sig e =
      rsa_verifies rsa_ssa_pkcs1_v15_sha512 (SigningPadding.pkcs1_v15 _) _ tt refl refl e
  rsa_sign-verify rsa_ssa_pss_sha256 sig e =
      rsa_verifies rsa_ssa_pss_sha256 (pss_with_salt _ _) _ (laws.digest_size _ msg) refl refl e
  rsa_sign-verify rsa_ssa_pss_sha384 sig e =
      rsa_verifies rsa_ssa_pss_sha384 (pss_with_salt _ _) _ (laws.digest_size _ msg) refl refl e
  rsa_sign-verify rsa_ssa_pss_sha512 sig e =
      rsa_verifies rsa_ssa_pss_sha512 (pss_with_salt _ _) _ (laws.digest_size _ msg) refl refl e
  rsa_sign-verify _ sig e = cc
