-- ===== src/Core/Crypto.antt =====
-- What src/core takes from the crates sha2, hmac, rsa, p256 and p384, and what their documentation
-- promises of it.
use openidconnect_rs.Prelude.{ℕ, String, ◌≡◌, ◌↔◌, Bool, true, Option, List, length, Result, ok}

pub data Hash : Type 0 where
  sha256 sha384 sha512 : Hash

-- The signature schemes of the crate rsa, as verification takes them.
pub data Padding : Type 0 where
  pkcs1_v15 pss : Hash → Padding

-- The schemes as signing takes them: PSS with the length of the salt.
pub data SigningPadding : Type 0 where
  pkcs1_v15 : Hash → SigningPadding
  pss_with_salt : Hash → ℕ → SigningPadding

pub data EcCurve : Type 0 where
  p256 p384 : EcCurve

pub record Crypto : Type 1 where
  pub digest : Hash → List ℕ → List ℕ
  -- The length of a `GenericArray` that holds a digest.
  pub output_size : Hash → ℕ
  -- `Hmac::<H>`: `new_from_slice`, `update`, `finalize` and `verify`
  pub Mac : Hash → Type 0
  pub mac_new : (h : Hash) → List ℕ → Result (Mac h) String
  pub mac_update : (h : Hash) → Mac h → List ℕ → Mac h
  pub mac_finalize : (h : Hash) → Mac h → List ℕ
  pub mac_verify : (h : Hash) → Mac h → List ℕ → Bool
  -- `BigUint::from_bytes_be` and `to_bytes_be`, `RsaPublicKey::new`, `n`, `e` and `verify`
  pub BigUint : Type 0
  pub from_bytes_be : List ℕ → BigUint
  pub to_bytes_be : BigUint → List ℕ
  pub RsaPublicKey : Type 0
  pub rsa_public_key_new : BigUint → BigUint → Result RsaPublicKey String
  pub modulus : RsaPublicKey → BigUint
  pub exponent : RsaPublicKey → BigUint
  pub rsa_verify : RsaPublicKey → Padding → List ℕ → List ℕ → Bool
  -- `RsaPrivateKey`: `from_pkcs1_pem`, `to_public_key` and `sign_with_rng`, whose generator holds
  -- the random numbers that it will give
  pub RsaPrivateKey : Type 0
  pub Rng : Type 0
  pub from_pkcs1_pem : String → Result RsaPrivateKey String
  pub to_public_key : RsaPrivateKey → RsaPublicKey
  pub sign_with_rng : RsaPrivateKey → Rng → SigningPadding → List ℕ → Option (List ℕ)
  -- `VerifyingKey::from_sec1_bytes` and `verify`, `Signature::from_slice`
  pub EcKey : EcCurve → Type 0
  pub EcSignature : EcCurve → Type 0
  pub from_sec1_bytes : (c : EcCurve) → List ℕ → Result (EcKey c) String
  pub ec_signature_from_slice : (c : EcCurve) → List ℕ → Option (EcSignature c)
  pub ec_verify : (c : EcCurve) → EcKey c → List ℕ → EcSignature c → Bool

-- `verify` compares with what `finalize` gives, which has the size of the output.
pub record MacLaws (c : Crypto) : Type 0 where
  pub verify_iff :
      (h : Hash) (m : c.Mac h) (tag : List ℕ)
      → (c.mac_verify h m tag ≡ true) ↔ (tag ≡ c.mac_finalize h m)
  pub finalize_size : (h : Hash) (m : c.Mac h) → length (c.mac_finalize h m) ≡ c.output_size h

-- The scheme that verification uses for signatures of a signing scheme.
abbrev pub verifying : SigningPadding → Padding
verifying (SigningPadding.pkcs1_v15 h) = Padding.pkcs1_v15 h
verifying (pss_with_salt h n) = pss h

-- `Pss::new` verifies with a salt of the size of the digest; PKCS#1 has no salt.
abbrev pub HasDigestSalt : (c : Crypto) → SigningPadding → Type 0
HasDigestSalt c (SigningPadding.pkcs1_v15 h) = Unit
HasDigestSalt c (pss_with_salt h n) = n ≡ c.output_size h

-- A digest has the size of the output. A public key is that of its two numbers, and verifies what the
-- private key signs with a salt of that size.
pub record RsaLaws (c : Crypto) : Type 0 where
  pub digest_size : (h : Hash) (msg : List ℕ) → length (c.digest h msg) ≡ c.output_size h
  pub public_key_parts :
      (k : c.RsaPrivateKey)
      → c.rsa_public_key_new
          (c.from_bytes_be (c.to_bytes_be (c.modulus (c.to_public_key k))))
          (c.from_bytes_be (c.to_bytes_be (c.exponent (c.to_public_key k))))
        ≡ ok (c.to_public_key k)
  pub sign_verifies :
      (k : c.RsaPrivateKey) (r : c.Rng) (p : SigningPadding) (hashed sig : List ℕ)
      → HasDigestSalt c p
      → c.sign_with_rng k r p hashed ≡ Option.some sig
      → c.rsa_verify (c.to_public_key k) (verifying p) hashed sig ≡ true
