-- ===== src/IdToken.antt =====
-- src/id_token.rs: IdToken and IdTokenFields; the hashes of src/types.rs that bind an access token or
-- a code to an ID token.
pub mod Hashes
pub mod Trust
use openidconnect_rs.Prelude.{
  ℕ, zero, suc, ◌/◌, String, Option, none, some, List, [], ◌∷◌, length, Result, ok, err, ◌>>=◌,
  map_err,
}
use openidconnect_rs.Text.{as_bytes}
use openidconnect_rs.Types.Errors.{ClaimsVerificationError, SigningError, unsupported_alg}
use openidconnect_rs.Types.Platform.{Platform}
use openidconnect_rs.Traits.{Suite, SigningKey}
use openidconnect_rs.Jwt.{JsonWebToken, JsonWebTokenAlgorithm, encryption, signature}
use openidconnect_rs.Jwt.Encoding
use openidconnect_rs.Jwt.Encoding.{Codec, JsonWebTokenError, signing_error, visit_str, serialize}
use openidconnect_rs.Claims.IdToken.{IdTokenClaims}
use openidconnect_rs.Verification.IdToken.{Verdict, IdTokenVerifier, verified_claims}

-- `&xs[0..n]`
unfoldable pub take {ℓ} : {A : Type ℓ} → ℕ → List A → List A
take zero xs = []
take (suc n) [] = []
take (suc n) (x ∷ xs) = x ∷ take n xs

module _ (t : Suite) (encode : List ℕ → String) where
  -- `AccessTokenHash::from_token` of the secret of the token
  unfoldable pub from_token : String → t.SigningAlg → Result String SigningError
  unfolding take
  from_token access_token alg = do
    hash ← map_err unsupported_alg (t.hash_bytes alg (as_bytes access_token))
    ok (encode (take (length hash / 2) hash))

  -- `AuthorizationCodeHash::from_code` of the secret of the code
  unfoldable pub from_code : String → t.SigningAlg → Result String SigningError
  unfolding take
  from_code code alg = do
    hash ← map_err unsupported_alg (t.hash_bytes alg (as_bytes code))
    ok (encode (take (length hash / 2) hash))

-- `.map(hash).transpose()?.or_else(kept)`
unfoldable pub hash_or {ℓ} :
    {E : Type ℓ}
    → (String → Result String E)
    → Option String
    → Option String
    → Result (Option String) E
hash_or hash none kept = ok kept
hash_or hash (some secret) kept = do h ← hash secret; ok (some h)

-- The newtype of a token with the claims of an ID token.
abbrev pub IdToken : Platform → Suite → Type 0 → Type 0 → Type 0
IdToken p t AC GC = JsonWebToken t (IdTokenClaims p AC GC)

module _ {p : Platform} {t : Suite} {AC GC : Type 0} (j : Codec t (IdTokenClaims p AC GC)) where
  unfoldable pub from_str : String → Result (IdToken p t AC GC) String
  from_str s = visit_str j s

  unfoldable pub to_string : IdToken p t AC GC → String
  to_string token = serialize j token

  unfoldable pub new :
      IdTokenClaims p AC GC
      → SigningKey t
      → t.SigningAlg
      → Option String
      → Option String
      → Result (IdToken p t AC GC) (JsonWebTokenError j.JsonError)
  unfolding hash_or
  new claims signing_key alg access_token code = do
    at_hash ←
        hash_or (λ at. map_err signing_error (from_token t j.encode at alg)) access_token
          claims.access_token_hash
    c_hash ← hash_or (λ c. map_err signing_error (from_code t j.encode c alg)) code claims.code_hash
    Encoding.new j (record claims { access_token_hash = at_hash; code_hash = c_hash }) signing_key
        alg

module _ {p : Platform} {t : Suite} {AC GC : Type 0} where
  -- `claims`, and `into_claims`
  unfoldable pub claims :
      IdToken p t AC GC
      → IdTokenVerifier p t
      → (Option String → Verdict)
      → Result (IdTokenClaims p AC GC) ClaimsVerificationError
  claims token verifier nonce_verifier = verified_claims verifier token nonce_verifier

-- The `match` of `signing_alg`
unfoldable pub algorithm_of :
    {t : Suite} → JsonWebTokenAlgorithm t → Result t.SigningAlg SigningError
algorithm_of (signature signing_alg) = ok signing_alg
algorithm_of {t} (encryption other) = err (unsupported_alg (t.encryption_text other))
algorithm_of JsonWebTokenAlgorithm.none = err (unsupported_alg "none")

module _ {p : Platform} {t : Suite} {AC GC : Type 0} where
  unfoldable pub signing_alg : IdToken p t AC GC → Result t.SigningAlg SigningError
  unfolding algorithm_of
  signing_alg token = algorithm_of token.header.alg

pub record IdTokenFields (p : Platform) (t : Suite) (AC GC EF : Type 0) : Type 0 where
  pub id_token : Option (IdToken p t AC GC)
  pub extra_fields : EF
