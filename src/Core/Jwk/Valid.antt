-- ===== src/Core/Jwk/Valid.antt =====
-- src/core/jwk.rs and src/core/crypto.rs: which signatures a key should verify.
pub mod Arms
pub mod Exact
use openidconnect_rs.Prelude.{ℕ, ◌≡◌, true, Option, some, List, ◌∷◌, ◌++◌, length, ok}
use openidconnect_rs.Core.Values.JsonWebKeyUse.{CoreJsonWebKeyUse, signature}
use openidconnect_rs.Core.Crypto.{
  Crypto, Hash, sha256, sha384, sha512, Padding, pkcs1_v15, pss, EcCurve,
}
use openidconnect_rs.Core.Algorithms.{
  CoreJsonCurveType, p256, p384, CoreJwsSigningAlgorithm, hmac_sha256, hmac_sha384, hmac_sha512,
  rsa_ssa_pkcs1_v15_sha256, rsa_ssa_pkcs1_v15_sha384, rsa_ssa_pkcs1_v15_sha512, rsa_ssa_pss_sha256,
  rsa_ssa_pss_sha384, rsa_ssa_pss_sha512, ecdsa_p256_sha256, ecdsa_p384_sha384, alg_key_type,
}
use openidconnect_rs.Core.Jwk.{CoreJsonWebKey}

-- The schemes that stand behind the algorithms.
pub data Scheme : Type 0 where
  mac : Hash → Scheme
  rsa_with : Padding → Hash → Scheme
  ecdsa : EcCurve → Scheme

-- The scheme of an algorithm, when it is supported.
abbrev pub scheme : CoreJwsSigningAlgorithm → Option Scheme
scheme hmac_sha256 = some (mac sha256)
scheme hmac_sha384 = some (mac sha384)
scheme hmac_sha512 = some (mac sha512)
scheme rsa_ssa_pkcs1_v15_sha256 = some (rsa_with (pkcs1_v15 sha256) sha256)
scheme rsa_ssa_pkcs1_v15_sha384 = some (rsa_with (pkcs1_v15 sha384) sha384)
scheme rsa_ssa_pkcs1_v15_sha512 = some (rsa_with (pkcs1_v15 sha512) sha512)
scheme rsa_ssa_pss_sha256 = some (rsa_with (pss sha256) sha256)
scheme rsa_ssa_pss_sha384 = some (rsa_with (pss sha384) sha384)
scheme rsa_ssa_pss_sha512 = some (rsa_with (pss sha512) sha512)
scheme ecdsa_p256_sha256 = some (ecdsa EcCurve.p256)
scheme ecdsa_p384_sha384 = some (ecdsa EcCurve.p384)
scheme _ = Option.none

-- The name of a curve in a key.
abbrev pub curve_name : EcCurve → CoreJsonCurveType
curve_name EcCurve.p256 = p256
curve_name EcCurve.p384 = p384

module _ (c : Crypto) (key : CoreJsonWebKey) (msg sig : List ℕ) where
  -- The key holds a secret, under which the signature is the code of the message.
  abbrev pub IsMac : Hash → Type 0
  IsMac h =
      (k : List ℕ) × (key.k ≡ some k)
      × (m : c.Mac h) × (c.mac_new h k ≡ ok m)
      × (length sig ≡ c.output_size h)
      × (c.mac_verify h (c.mac_update h m msg) sig ≡ true)

  -- The key holds a modulus and an exponent, and their public key verifies the digest's signature.
  abbrev pub IsRsaSignature : Padding → Hash → Type 0
  IsRsaSignature padding h =
      (n : List ℕ) × (e : List ℕ) × (key.n ≡ some n)
      × (key.e ≡ some e)
      × (pk : c.RsaPublicKey) × (c.rsa_public_key_new (c.from_bytes_be n) (c.from_bytes_be e)
          ≡ ok pk)
      × (c.rsa_verify pk padding (c.digest h msg) sig ≡ true)

  -- The key holds a point of the curve, whose uncompressed form verifies the signature.
  abbrev pub IsEcSignature : EcCurve → Type 0
  IsEcSignature curve =
      (x : List ℕ) × (y : List ℕ) × (key.x ≡ some x)
      × (key.y ≡ some y)
      × (key.crv ≡ some (curve_name curve))
      × (pk : c.EcKey curve) × (c.from_sec1_bytes curve (4 ∷ x ++ y) ≡ ok pk)
      × (s : c.EcSignature curve) × (c.ec_signature_from_slice curve sig ≡ some s)
      × (c.ec_verify curve pk msg s ≡ true)

  abbrev pub IsValidBy : Scheme → Type 0
  IsValidBy (mac h) = IsMac h
  IsValidBy (rsa_with padding h) = IsRsaSignature padding h
  IsValidBy (ecdsa curve) = IsEcSignature curve

  -- A key that may sign and is of the type that the algorithm asks for, and a signature that is valid
  -- by the algorithm's scheme.
  pub record IsValid (alg : CoreJwsSigningAlgorithm) : Type 0 where
    pub may_sign : (u : CoreJsonWebKeyUse) → key.use_ ≡ some u → u ≡ signature
    pub type : alg_key_type alg ≡ some key.kty
    pub by_scheme : (s : Scheme) × (scheme alg ≡ some s) × IsValidBy s
