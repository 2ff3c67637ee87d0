-- ===== src/Core/Suite.antt =====
-- src/core: the traits of src/types.rs, filled with the types of this module.
use openidconnect_rs.Prelude.{ℕ, String, List, Result, ok, err}
use openidconnect_rs.Traits.{Suite, SigningKey}
use openidconnect_rs.Core.Crypto.{Crypto, sha256, sha384, sha512}
use openidconnect_rs.Core.Values.JsonWebKeyUse.{CoreJsonWebKeyUse}
use openidconnect_rs.Core.Algorithms
use openidconnect_rs.Core.Algorithms.{
  CoreJwsSigningAlgorithm, hmac_sha256, hmac_sha384, hmac_sha512, rsa_ssa_pkcs1_v15_sha256,
  rsa_ssa_pkcs1_v15_sha384, rsa_ssa_pkcs1_v15_sha512, rsa_ssa_pss_sha256, rsa_ssa_pss_sha384,
  rsa_ssa_pss_sha512, ecdsa_p256_sha256, ecdsa_p384_sha384, ecdsa_p521_sha512, none,
}
use openidconnect_rs.Core.Jwk
use openidconnect_rs.Core.Jwk.{CoreJsonWebKey}
use openidconnect_rs.Core.Jwk.Verify
use openidconnect_rs.Core.Jwk.Sign

module _ (c : Crypto) where
  -- `CoreJwsSigningAlgorithm::hash_bytes`
  unfoldable pub hash_bytes : CoreJwsSigningAlgorithm → List ℕ → Result (List ℕ) String
  hash_bytes hmac_sha256 bytes = ok (c.digest sha256 bytes)
  hash_bytes rsa_ssa_pkcs1_v15_sha256 bytes = ok (c.digest sha256 bytes)
  hash_bytes rsa_ssa_pss_sha256 bytes = ok (c.digest sha256 bytes)
  hash_bytes ecdsa_p256_sha256 bytes = ok (c.digest sha256 bytes)
  hash_bytes hmac_sha384 bytes = ok (c.digest sha384 bytes)
  hash_bytes rsa_ssa_pkcs1_v15_sha384 bytes = ok (c.digest sha384 bytes)
  hash_bytes rsa_ssa_pss_sha384 bytes = ok (c.digest sha384 bytes)
  hash_bytes ecdsa_p384_sha384 bytes = ok (c.digest sha384 bytes)
  hash_bytes hmac_sha512 bytes = ok (c.digest sha512 bytes)
  hash_bytes rsa_ssa_pkcs1_v15_sha512 bytes = ok (c.digest sha512 bytes)
  hash_bytes rsa_ssa_pss_sha512 bytes = ok (c.digest sha512 bytes)
  hash_bytes ecdsa_p521_sha512 bytes = ok (c.digest sha512 bytes)
  hash_bytes none bytes = err "signature algorithm `none` has no corresponding hash algorithm"

  abbrev pub core_suite : Suite
  core_suite = record {
    KeyType = Algorithms.CoreJsonWebKeyType;
    SigningAlg = CoreJwsSigningAlgorithm;
    KeyUse = CoreJsonWebKeyUse;
    EncryptionAlg = Algorithms.CoreJweContentEncryptionAlgorithm;
    Key = CoreJsonWebKey;
    key_type_eq = Algorithms.key_type_eq;
    key_type_eq_iff = Algorithms.key_type_eq_iff;
    alg_eq = Algorithms.alg_eq;
    alg_eq_iff = Algorithms.alg_eq_iff;
    alg_text = Algorithms.alg_text;
    encryption_text = Algorithms.encryption_text;
    key_type_text = Algorithms.key_type_text;
    alg_read = Algorithms.alg_read;
    encryption_read = Algorithms.encryption_read;
    alg_key_type = Algorithms.alg_key_type;
    uses_shared_secret = Algorithms.uses_shared_secret;
    hash_bytes = hash_bytes;
    rsa_sha_256 = rsa_ssa_pkcs1_v15_sha256;
    allows_signature = Jwk.allows_signature;
    allows_encryption = Jwk.allows_encryption;
    key_id = λ key. key.kid;
    key_type = λ key. key.kty;
    key_use = λ key. key.use_;
    new_symmetric = Jwk.new_symmetric;
    verify_signature = Verify.verify_signature c;
  }

  -- `CoreHmacKey` as a `PrivateSigningKey`
  abbrev pub hmac_signing_key : Sign.CoreHmacKey → SigningKey core_suite
  hmac_signing_key key = record {
    sign = Sign.hmac_sign c key;
    as_verification_key = Sign.hmac_as_verification_key c key;
  }

  -- `CoreRsaPrivateSigningKey` as a `PrivateSigningKey`
  abbrev pub rsa_signing_key : Sign.CoreRsaPrivateSigningKey c → SigningKey core_suite
  rsa_signing_key key = record {
    sign = Sign.rsa_sign c key;
    as_verification_key = Sign.rsa_as_verification_key c key;
  }
