-- ===== src/Verification/IdToken/Issued.antt =====
-- Tokens that a provider signs with the client secret, and the verifier of the client.
use openidconnect_rs.Prelude.{ℕ, String, ◌≡◌, refl, ap, ◌∙◌, true, Option, some, List, ok, inl}
use openidconnect_rs.Text.{as_bytes}
use openidconnect_rs.Types.Platform.{Platform}
use openidconnect_rs.Traits.{SigningKey}
use openidconnect_rs.Core.Crypto.{Crypto, MacLaws}
use openidconnect_rs.Core.Algorithms.{
  CoreJwsSigningAlgorithm, hmac_sha256, hmac_sha384, hmac_sha512, uses_shared_secret, alg_key_type,
}
use openidconnect_rs.Core.Jwk.Sign.{CoreHmacKey, hmac_sign, hmac_as_verification_key}
use openidconnect_rs.Core.Jwk.Sound.{hmac_sign-verify}
use openidconnect_rs.Core.Jwk.Valid.Exact.{is_type_iff}
use openidconnect_rs.Core.Suite.{core_suite, hmac_signing_key}
use openidconnect_rs.Jwt.{JsonWebToken, signature}
use openidconnect_rs.Jwt.Encoding.{Codec, new, new_header}
use openidconnect_rs.Jwt.Encoding.RoundTrip.{new-Made}
use openidconnect_rs.Claims.IdToken.{IdTokenClaims, id_token_access}
use openidconnect_rs.Verification.Accepts.{IsPlain, IsAllowed, IsTrustedAudience, IsSigned}
use openidconnect_rs.Verification.IdToken.{Verdict, IdTokenVerifier, verified_claims}
use openidconnect_rs.Verification.IdToken.Exact.{id_token_exact, IsCurrent}

-- An HMAC key signs under the algorithms of shared secrets only.
hmac_sign-shared :
    (c : Crypto) (key : CoreHmacKey) (msg sig : List ℕ) (alg : CoreJwsSigningAlgorithm)
    → hmac_sign c key alg msg ≡ ok sig
    → uses_shared_secret alg ≡ true
unfolding hmac_sign uses_shared_secret alg_key_type
hmac_sign-shared c key msg sig hmac_sha256 e = (is_type_iff _ _).1 refl
hmac_sign-shared c key msg sig hmac_sha384 e = (is_type_iff _ _).1 refl
hmac_sign-shared c key msg sig hmac_sha512 e = (is_type_iff _ _).1 refl
hmac_sign-shared c key msg sig _ e = cc

-- A header as `new` writes it asks for nothing that is not supported.
new_header-IsPlain :
    (c : Crypto) (sk : SigningKey (core_suite c)) (alg : CoreJwsSigningAlgorithm)
    → IsPlain (new_header sk alg)
unfolding new_header
new_header-IsPlain c sk alg = record { typ = tt; cty = refl; crit = refl; alg = λ e q. cc }

module _ (c : Crypto) (laws : MacLaws c) {p : Platform} {AC GC : Type 0} where
  -- A token that the provider makes with the client secret, by any HMAC algorithm that the verifier
  -- allows, is accepted by the verifier with that secret, and gives the claims that it was made of, if
  -- they are of the expected issuer, for trusted audiences and current, and if the crate hmac verifies
  -- exactly the codes that it computes.
  pub verified_claims-new :
      (j : Codec (core_suite c) (IdTokenClaims p AC GC)) (secret : String)
      (claims : IdTokenClaims p AC GC) (alg : CoreJwsSigningAlgorithm)
      (jwt : JsonWebToken (core_suite c) (IdTokenClaims p AC GC))
      (v : IdTokenVerifier p (core_suite c)) (n : Option String → Verdict)
      → new j claims (hmac_signing_key c (record { secret = as_bytes secret })) alg ≡ ok jwt
      → v.jwt_verifier.client_secret ≡ some secret
      → IsAllowed v.jwt_verifier alg v.jwt_verifier.allowed_algs
      → claims.issuer.text ≡ v.jwt_verifier.issuer.text
      → IsTrustedAudience v.jwt_verifier (some claims.audiences)
      → IsCurrent v claims n
      → verified_claims v jwt n ≡ ok claims
  unfolding hmac_as_verification_key new_header
  verified_claims-new j secret claims alg jwt v n made has_secret allowed same_issuer trusted
        current =
      let key : CoreHmacKey = record { secret = as_bytes secret } in
      let sk = hmac_signing_key c key in
      let m = new-Made j claims sk alg jwt made in
      let by_secret =
        hmac_sign-verify c laws key (as_bytes jwt.signing_input) alg jwt.signature m.signed in
      let shared = hmac_sign-shared c key (as_bytes jwt.signing_input) jwt.signature alg m.signed in
      let is_alg : jwt.header.alg ≡ signature alg = ap (λ h. h.alg) m.header in
      let signed : IsSigned v.jwt_verifier jwt =
        (alg, is_alg, allowed, inl (shared, (secret, has_secret, by_secret))) in
      (id_token_exact v jwt n claims).1 (
        record {
          header = rw m.header (new_header-IsPlain c sk alg);
          issuer = λ _. ap (λ k. k.issuer.text) m.claims ∙ same_issuer;
          audience = λ _. rw m.claims trusted;
          signed = λ _. signed;
        },
        rw m.claims current,
        m.claims,
      )
