-- ===== src/Traits.antt =====
-- The traits of src/types.rs over which the library is generic, as one record of types and
-- operations; `Core` fills it. What `serde_plain::to_string` writes for an algorithm or a key type is
-- the operation `..._text`.
use openidconnect_rs.Prelude.{ℕ, String, ◌≡◌, ◌↔◌, Bool, true, Option, List, Result}
use openidconnect_rs.Types.Errors.{SignatureVerificationError, SigningError}

-- The traits JsonWebKeyType, JwsSigningAlgorithm, JsonWebKeyUse, JweContentEncryptionAlgorithm and
-- JsonWebKey, with their `PartialEq`.
pub record Suite : Type 1 where
  pub KeyType : Type 0
  pub SigningAlg : Type 0
  pub KeyUse : Type 0
  pub EncryptionAlg : Type 0
  pub Key : Type 0
  pub key_type_eq : KeyType → KeyType → Bool
  pub key_type_eq_iff : (a b : KeyType) → (key_type_eq a b ≡ true) ↔ (a ≡ b)
  pub alg_eq : SigningAlg → SigningAlg → Bool
  pub alg_eq_iff : (a b : SigningAlg) → (alg_eq a b ≡ true) ↔ (a ≡ b)
  pub alg_text : SigningAlg → String
  pub encryption_text : EncryptionAlg → String
  pub key_type_text : KeyType → String
  -- what serde reads from the text of an algorithm
  pub alg_read : String → Option SigningAlg
  pub encryption_read : String → Option EncryptionAlg
  pub alg_key_type : SigningAlg → Option KeyType
  pub uses_shared_secret : SigningAlg → Bool
  pub hash_bytes : SigningAlg → List ℕ → Result (List ℕ) String
  pub rsa_sha_256 : SigningAlg
  pub allows_signature : KeyUse → Bool
  pub allows_encryption : KeyUse → Bool
  pub key_id : Key → Option String
  pub key_type : Key → KeyType
  pub key_use : Key → Option KeyUse
  pub new_symmetric : List ℕ → Key
  pub verify_signature :
      Key → SigningAlg → List ℕ → List ℕ → Result (Unit {0}) SignatureVerificationError

-- The trait PrivateSigningKey.
pub record SigningKey (t : Suite) : Type 0 where
  pub sign : t.SigningAlg → List ℕ → Result (List ℕ) SigningError
  pub as_verification_key : t.Key
