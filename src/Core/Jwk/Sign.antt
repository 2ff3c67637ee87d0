-- ===== src/Core/Jwk/Sign.antt =====
-- src/core/jwk.rs: the keys that sign, CoreHmacKey and CoreRsaPrivateSigningKey.
use openidconnect_rs.Prelude.{
  ℕ, String, Option, none, some, List, length, Result, ok, err, ◌>>=◌, map_err, ok_or,
}
use openidconnect_rs.Text.{◌+++◌}
use openidconnect_rs.Types.Errors.{SigningError, crypto_error, unsupported_alg, other}
use openidconnect_rs.Core.Values.JsonWebKeyUse.{signature}
use openidconnect_rs.Core.Crypto.{Crypto, Hash, sha256, sha384, sha512, pkcs1_v15, pss_with_salt}
use openidconnect_rs.Core.Algorithms.{
  rsa, CoreJwsSigningAlgorithm, hmac_sha256, hmac_sha384, hmac_sha512, rsa_ssa_pkcs1_v15_sha256,
  rsa_ssa_pkcs1_v15_sha384, rsa_ssa_pkcs1_v15_sha512, rsa_ssa_pss_sha256, rsa_ssa_pss_sha384,
  rsa_ssa_pss_sha512, alg_text,
}
use openidconnect_rs.Core.Jwk.{CoreJsonWebKey, new_symmetric}

pub record CoreHmacKey : Type 0 where
  pub secret : List ℕ

pub record CoreRsaPrivateSigningKey (c : Crypto) : Type 0 where
  pub key_pair : c.RsaPrivateKey
  pub rng : c.Rng
  pub kid : Option String

module _ (c : Crypto) where
  -- The arm of one of the HMAC algorithms.
  unfoldable pub sign_hmac : CoreHmacKey → Hash → List ℕ → Result (List ℕ) SigningError
  sign_hmac key h message = do
    mac ← map_err (λ e. other ("Could not create key: " +++ e)) (c.mac_new h key.secret)
    ok (c.mac_finalize h (c.mac_update h mac message))

  -- `CoreHmacKey::sign`
  unfoldable pub hmac_sign :
      CoreHmacKey → CoreJwsSigningAlgorithm → List ℕ → Result (List ℕ) SigningError
  unfolding sign_hmac
  hmac_sign key hmac_sha256 message = sign_hmac key sha256 message
  hmac_sign key hmac_sha384 message = sign_hmac key sha384 message
  hmac_sign key hmac_sha512 message = sign_hmac key sha512 message
  hmac_sign key other_alg message = err (unsupported_alg (alg_text other_alg))

  -- `CoreHmacKey::as_verification_key`
  unfoldable pub hmac_as_verification_key : CoreHmacKey → CoreJsonWebKey
  hmac_as_verification_key key = new_symmetric key.secret

  -- `CoreRsaPrivateSigningKey::from_pem_internal`
  unfoldable pub from_pem_internal :
      String → c.Rng → Option String → Result (CoreRsaPrivateSigningKey c) String
  from_pem_internal pem rng kid = do
    key_pair ← c.from_pkcs1_pem pem
    ok (record { key_pair = key_pair; rng = rng; kid = kid })

  -- An arm with PKCS#1 padding.
  unfoldable pub sign_pkcs1 :
      CoreRsaPrivateSigningKey c → Hash → List ℕ → Result (List ℕ) SigningError
  sign_pkcs1 key h msg =
      ok_or (c.sign_with_rng key.key_pair key.rng (pkcs1_v15 h) (c.digest h msg)) crypto_error

  -- An arm with PSS padding, with a salt of the length of the digest.
  unfoldable pub sign_pss :
      CoreRsaPrivateSigningKey c → Hash → List ℕ → Result (List ℕ) SigningError
  sign_pss key h msg =
      let hash = c.digest h msg in
      ok_or (c.sign_with_rng key.key_pair key.rng (pss_with_salt h (length hash)) hash) crypto_error

  -- `CoreRsaPrivateSigningKey::sign`
  unfoldable pub rsa_sign :
      CoreRsaPrivateSigningKey c → CoreJwsSigningAlgorithm → List ℕ → Result (List ℕ) SigningError
  unfolding sign_pkcs1 sign_pss
  rsa_sign key rsa_ssa_pkcs1_v15_sha256 msg = sign_pkcs1 key sha256 msg
  rsa_sign key rsa_ssa_pkcs1_v15_sha384 msg = sign_pkcs1 key sha384 msg
  rsa_sign key rsa_ssa_pkcs1_v15_sha512 msg = sign_pkcs1 key sha512 msg
  rsa_sign key rsa_ssa_pss_sha256 msg = sign_pss key sha256 msg
  rsa_sign key rsa_ssa_pss_sha384 msg = sign_pss key sha384 msg
  rsa_sign key rsa_ssa_pss_sha512 msg = sign_pss key sha512 msg
  rsa_sign key other_alg msg = err (unsupported_alg (alg_text other_alg))

  -- `CoreRsaPrivateSigningKey::as_verification_key`
  unfoldable pub rsa_as_verification_key : CoreRsaPrivateSigningKey c → CoreJsonWebKey
  rsa_as_verification_key key =
      let public_key = c.to_public_key key.key_pair in
      record {
        kty = rsa;
        use_ = some signature;
        kid = key.kid;
        n = some (c.to_bytes_be (c.modulus public_key));
        e = some (c.to_bytes_be (c.exponent public_key));
        crv = none;
        x = none;
        y = none;
        d = none;
        k = none;
      }
