-- ===== src/Verification/Accepts.antt =====
-- Which tokens a JwtClaimsVerifier should accept, stated without the order of its checks, its
-- loops and its messages.
pub mod Header
pub mod Parties
pub mod Keys
pub mod Exact
use openidconnect_rs.Prelude.{
  String, Bool, true, false, ◌≡◌, ◌≢◌, ◌⊎◌, Option, none, some, List, All, Any, OnlyPasses, ok,
}
use openidconnect_rs.Text.{to_uppercase, as_bytes}
use openidconnect_rs.Types.Platform.{Platform, UrlText}
use openidconnect_rs.Traits.{Suite}
use openidconnect_rs.Jwt.{JsonWebToken, JsonWebTokenHeader, encryption, signature}
use openidconnect_rs.Claims.Access.{ClaimsAccess}
use openidconnect_rs.Verification.JwtSettings.{JwtClaimsVerifier}

abbrev pub IsJwtType : Option String → Type 0
IsJwtType none = Unit
IsJwtType (some typ) = to_uppercase typ ≡ "JWT"

-- A header that asks for nothing that the library does not do.
pub record IsPlain {t : Suite} (h : JsonWebTokenHeader t) : Type 0 where
  pub typ : IsJwtType h.typ
  pub cty : h.cty ≡ none
  pub crit : h.crit ≡ none
  pub alg : (e : t.EncryptionAlg) → h.alg ≢ encryption e

module _ {p : Platform} {t : Suite} (v : JwtClaimsVerifier p t) where
  abbrev pub IsExpectedIssuer : Option (UrlText p) → Type 0
  IsExpectedIssuer none = ⊥
  IsExpectedIssuer (some issuer) = issuer.text ≡ v.issuer.text

  -- The client is among the audiences, and every other one is trusted.
  abbrev pub IsTrustedAudience : Option (List String) → Type 0
  IsTrustedAudience none = ⊥
  IsTrustedAudience (some audiences) =
      Any (λ aud. aud ≡ v.client_id) audiences
      × All (λ aud. aud ≢ v.client_id → v.other_aud_verifier_fn aud ≡ true) audiences

  abbrev pub IsAllowed : t.SigningAlg → Option (List t.SigningAlg) → Type 0
  IsAllowed alg none = Unit
  IsAllowed alg (some allowed_algs) = Any (λ a. alg ≡ a) allowed_algs

-- A key of the type that the algorithm asks for, that may sign and has the key id of the header.
pub record IsEligible (t : Suite) (alg : t.SigningAlg) (kid : Option String) (key : t.Key)
    : Type 0 where
  pub key_type : t.alg_key_type alg ≡ some (t.key_type key)
  pub key_use : (u : t.KeyUse) → t.key_use key ≡ some u → t.allows_signature u ≡ true
  pub key_id : (k : String) → kid ≡ some k → t.key_id key ≡ some k

module _ {p : Platform} {t : Suite} {C : Type 0} (v : JwtClaimsVerifier p t)
    (jwt : JsonWebToken t C) where
  -- The signature is one of the signing input under the key.
  abbrev pub Verifies : t.SigningAlg → t.Key → Type 0
  Verifies alg key = t.verify_signature key alg (as_bytes jwt.signing_input) jwt.signature ≡ ok tt

  -- By the client secret, for algorithms of shared secrets; else by the one eligible public key.
  abbrev pub IsSignedBy : t.SigningAlg → Type 0
  IsSignedBy alg =
      ((t.uses_shared_secret alg ≡ true)
        × ((secret : String) × (v.client_secret ≡ some secret)
            × Verifies alg (t.new_symmetric (as_bytes secret))))
      ⊎ ((t.uses_shared_secret alg ≡ false)
          × ((key : t.Key) × OnlyPasses (IsEligible t alg jwt.header.kid) v.signature_keys.keys key
              × Verifies alg key))

  abbrev pub IsSigned : Type 0
  IsSigned =
      (alg : t.SigningAlg) × (jwt.header.alg ≡ signature alg)
      × IsAllowed v alg v.allowed_algs
      × IsSignedBy alg

  pub record Accepts ⦃access : ClaimsAccess p C⦄ : Type 0 where
    pub header : IsPlain jwt.header
    pub issuer : v.iss_required ≡ true → IsExpectedIssuer v (access.issuer jwt.payload)
    pub audience : v.aud_match_required ≡ true → IsTrustedAudience v (access.audiences jwt.payload)
    pub signed : v.is_signature_check_enabled ≡ true → IsSigned
