-- ===== src/Core/Algorithms.antt =====
-- src/core/mod.rs and src/core/jwk.rs: key types, curves and algorithms, and the names by which
-- serde reads and writes them.
use mathlib.Core.Bool.{decide, decide_iff}
use openidconnect_rs.Prelude.{
  String, ◌≡◌, ◌↔◌, Bool, true, false, Option, some, ◌==◌, if◌then◌else◌,
}

pub data CoreJsonWebKeyType : Type 0 where
  elliptic_curve rsa symmetric : CoreJsonWebKeyType

pub data CoreJsonCurveType : Type 0 where
  p256 p384 p521 : CoreJsonCurveType

pub data CoreJweContentEncryptionAlgorithm : Type 0 where
  aes128_cbc_hmac_sha256 aes192_cbc_hmac_sha384 aes256_cbc_hmac_sha512 aes128_gcm aes192_gcm
        aes256_gcm :
      CoreJweContentEncryptionAlgorithm

pub data CoreJwsSigningAlgorithm : Type 0 where
  hmac_sha256 hmac_sha384 hmac_sha512 rsa_ssa_pkcs1_v15_sha256 rsa_ssa_pkcs1_v15_sha384
        rsa_ssa_pkcs1_v15_sha512 ecdsa_p256_sha256 ecdsa_p384_sha384 ecdsa_p521_sha512
        rsa_ssa_pss_sha256 rsa_ssa_pss_sha384 rsa_ssa_pss_sha512 none :
      CoreJwsSigningAlgorithm

unfoldable pub key_type_text : CoreJsonWebKeyType → String
key_type_text elliptic_curve = "EC"
key_type_text rsa = "RSA"
key_type_text symmetric = "oct"

unfoldable pub curve_text : CoreJsonCurveType → String
curve_text p256 = "P-256"
curve_text p384 = "P-384"
curve_text p521 = "P-521"

unfoldable pub encryption_text : CoreJweContentEncryptionAlgorithm → String
encryption_text aes128_cbc_hmac_sha256 = "A128CBC-HS256"
encryption_text aes192_cbc_hmac_sha384 = "A192CBC-HS384"
encryption_text aes256_cbc_hmac_sha512 = "A256CBC-HS512"
encryption_text aes128_gcm = "A128GCM"
encryption_text aes192_gcm = "A192GCM"
encryption_text aes256_gcm = "A256GCM"

unfoldable pub alg_text : CoreJwsSigningAlgorithm → String
alg_text hmac_sha256 = "HS256"
alg_text hmac_sha384 = "HS384"
alg_text hmac_sha512 = "HS512"
alg_text rsa_ssa_pkcs1_v15_sha256 = "RS256"
alg_text rsa_ssa_pkcs1_v15_sha384 = "RS384"
alg_text rsa_ssa_pkcs1_v15_sha512 = "RS512"
alg_text ecdsa_p256_sha256 = "ES256"
alg_text ecdsa_p384_sha384 = "ES384"
alg_text ecdsa_p521_sha512 = "ES512"
alg_text rsa_ssa_pss_sha256 = "PS256"
alg_text rsa_ssa_pss_sha384 = "PS384"
alg_text rsa_ssa_pss_sha512 = "PS512"
alg_text none = "none"

unfoldable pub encryption_read : String → Option CoreJweContentEncryptionAlgorithm
encryption_read s =
    if s == "A128CBC-HS256"
    then some aes128_cbc_hmac_sha256
    else if s == "A192CBC-HS384"
    then some aes192_cbc_hmac_sha384
    else if s == "A256CBC-HS512"
    then some aes256_cbc_hmac_sha512
    else if s == "A128GCM"
    then some aes128_gcm
    else if s == "A192GCM"
    then some aes192_gcm
    else if s == "A256GCM"
    then some aes256_gcm
    else Option.none

unfoldable pub alg_read : String → Option CoreJwsSigningAlgorithm
alg_read s =
    if s == "HS256"
    then some hmac_sha256
    else if s == "HS384"
    then some hmac_sha384
    else if s == "HS512"
    then some hmac_sha512
    else if s == "RS256"
    then some rsa_ssa_pkcs1_v15_sha256
    else if s == "RS384"
    then some rsa_ssa_pkcs1_v15_sha384
    else if s == "RS512"
    then some rsa_ssa_pkcs1_v15_sha512
    else if s == "ES256"
    then some ecdsa_p256_sha256
    else if s == "ES384"
    then some ecdsa_p384_sha384
    else if s == "ES512"
    then some ecdsa_p521_sha512
    else if s == "PS256"
    then some rsa_ssa_pss_sha256
    else if s == "PS384"
    then some rsa_ssa_pss_sha384
    else if s == "PS512"
    then some rsa_ssa_pss_sha512
    else if s == "none"
    then some none
    else Option.none

-- `JwsSigningAlgorithm::key_type`
unfoldable pub alg_key_type : CoreJwsSigningAlgorithm → Option CoreJsonWebKeyType
alg_key_type hmac_sha256 = some symmetric
alg_key_type hmac_sha384 = some symmetric
alg_key_type hmac_sha512 = some symmetric
alg_key_type rsa_ssa_pkcs1_v15_sha256 = some rsa
alg_key_type rsa_ssa_pkcs1_v15_sha384 = some rsa
alg_key_type rsa_ssa_pkcs1_v15_sha512 = some rsa
alg_key_type ecdsa_p256_sha256 = some elliptic_curve
alg_key_type ecdsa_p384_sha384 = some elliptic_curve
alg_key_type ecdsa_p521_sha512 = some elliptic_curve
alg_key_type rsa_ssa_pss_sha256 = some rsa
alg_key_type rsa_ssa_pss_sha384 = some rsa
alg_key_type rsa_ssa_pss_sha512 = some rsa
alg_key_type none = Option.none

unfoldable pub key_type_discrete : Discrete CoreJsonWebKeyType
key_type_discrete = hlevel

unfoldable pub alg_discrete : Discrete CoreJwsSigningAlgorithm
alg_discrete = hlevel

-- `PartialEq` of the key types
unfoldable pub key_type_eq : CoreJsonWebKeyType → CoreJsonWebKeyType → Bool
key_type_eq a b = decide (key_type_discrete a b)

pub key_type_eq_iff : (a b : CoreJsonWebKeyType) → (key_type_eq a b ≡ true) ↔ (a ≡ b)
unfolding key_type_eq
key_type_eq_iff a b = decide_iff (key_type_discrete a b)

-- `PartialEq` of the algorithms
unfoldable pub alg_eq : CoreJwsSigningAlgorithm → CoreJwsSigningAlgorithm → Bool
alg_eq a b = decide (alg_discrete a b)

pub alg_eq_iff : (a b : CoreJwsSigningAlgorithm) → (alg_eq a b ≡ true) ↔ (a ≡ b)
unfolding alg_eq
alg_eq_iff a b = decide_iff (alg_discrete a b)

-- The key is of the type that is asked for, if one is.
unfoldable pub is_type : CoreJsonWebKeyType → Option CoreJsonWebKeyType → Bool
is_type kty Option.none = false
is_type kty (some wanted) = key_type_eq kty wanted

-- `JwsSigningAlgorithm::uses_shared_secret`
unfoldable pub uses_shared_secret : CoreJwsSigningAlgorithm → Bool
uses_shared_secret alg = is_type symmetric (alg_key_type alg)
