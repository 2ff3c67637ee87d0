-- ===== src/Jwt/Algorithm.antt =====
-- src/jwt.rs: Deserialize and Serialize of JsonWebTokenAlgorithm, on the text of the JSON value.
use openidconnect_rs.Prelude.{String, ◌≡◌, refl, Option, some, Result, ok, err, ◌==◌, if◌then◌else◌}
use openidconnect_rs.Text.{◌+++◌, quoted}
use openidconnect_rs.Traits.{Suite}
use openidconnect_rs.Core.Crypto.{Crypto}
use openidconnect_rs.Core.Algorithms.{
  CoreJwsSigningAlgorithm, hmac_sha256, hmac_sha384, hmac_sha512, rsa_ssa_pkcs1_v15_sha256,
  rsa_ssa_pkcs1_v15_sha384, rsa_ssa_pkcs1_v15_sha512, rsa_ssa_pss_sha256, rsa_ssa_pss_sha384,
  rsa_ssa_pss_sha512, ecdsa_p256_sha256, ecdsa_p384_sha384, ecdsa_p521_sha512,
  aes128_cbc_hmac_sha256, aes192_cbc_hmac_sha384, aes256_cbc_hmac_sha512, aes128_gcm, aes192_gcm,
  aes256_gcm, alg_text, alg_read, encryption_text, encryption_read,
}
use openidconnect_rs.Core.Suite.{core_suite}
use openidconnect_rs.Jwt.{JsonWebTokenAlgorithm, encryption, signature, none}

module _ (t : Suite) where
  -- The last tests: for an algorithm of signatures.
  unfoldable pub read_signature :
      String → Option t.SigningAlg → Result (JsonWebTokenAlgorithm t) String
  read_signature s (some val) = ok (signature val)
  read_signature s Option.none = err ("unrecognized JSON Web Algorithm " +++ quoted s)

  unfoldable pub read_either :
      String → Option t.EncryptionAlg → Result (JsonWebTokenAlgorithm t) String
  unfolding read_signature
  read_either s (some val) = ok (encryption val)
  read_either s Option.none = read_signature s (t.alg_read s)

  -- `Deserialize::deserialize`, of a JSON string
  unfoldable pub deserialize : String → Result (JsonWebTokenAlgorithm t) String
  unfolding read_either
  deserialize s = if s == "none" then ok none else read_either s (t.encryption_read s)

  -- `Serialize::serialize`, as the JSON string that it writes
  unfoldable pub serialize : JsonWebTokenAlgorithm t → String
  serialize (encryption enc) = t.encryption_text enc
  serialize (signature sig) = t.alg_text sig
  serialize none = "none"

-- The algorithm that a written algorithm is read as: CoreJwsSigningAlgorithm::None writes the text of
-- JsonWebTokenAlgorithm::None.
abbrev pub reread :
    (c : Crypto) → JsonWebTokenAlgorithm (core_suite c) → JsonWebTokenAlgorithm (core_suite c)
reread c (signature CoreJwsSigningAlgorithm.none) = none
reread c alg = alg

-- The text that is written for an algorithm of the specifications is read back as that algorithm, save
-- for a signature "by no algorithm", which is read as no signature.
pub deserialize-serialize :
    (c : Crypto) (alg : JsonWebTokenAlgorithm (core_suite c))
    → deserialize (core_suite c) (serialize (core_suite c) alg) ≡ ok (reread c alg)
unfolding deserialize serialize read_either read_signature alg_text alg_read encryption_text
    encryption_read
deserialize-serialize c none = refl
deserialize-serialize c (encryption aes128_cbc_hmac_sha256) = refl
deserialize-serialize c (encryption aes192_cbc_hmac_sha384) = refl
deserialize-serialize c (encryption aes256_cbc_hmac_sha512) = refl
deserialize-serialize c (encryption aes128_gcm) = refl
deserialize-serialize c (encryption aes192_gcm) = refl
deserialize-serialize c (encryption aes256_gcm) = refl
deserialize-serialize c (signature hmac_sha256) = refl
deserialize-serialize c (signature hmac_sha384) = refl
deserialize-serialize c (signature hmac_sha512) = refl
deserialize-serialize c (signature rsa_ssa_pkcs1_v15_sha256) = refl
deserialize-serialize c (signature rsa_ssa_pkcs1_v15_sha384) = refl
deserialize-serialize c (signature rsa_ssa_pkcs1_v15_sha512) = refl
deserialize-serialize c (signature rsa_ssa_pss_sha256) = refl
deserialize-serialize c (signature rsa_ssa_pss_sha384) = refl
deserialize-serialize c (signature rsa_ssa_pss_sha512) = refl
deserialize-serialize c (signature ecdsa_p256_sha256) = refl
deserialize-serialize c (signature ecdsa_p384_sha384) = refl
deserialize-serialize c (signature ecdsa_p521_sha512) = refl
deserialize-serialize c (signature CoreJwsSigningAlgorithm.none) = refl
