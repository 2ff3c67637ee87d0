-- ===== src/IdToken/Trust.antt =====
-- The algorithm of an ID token whose claims were accepted.
use openidconnect_rs.Prelude.{◌≡◌, ◌↔◌, ap, true, String, Option, ok, ok_inj}
use openidconnect_rs.Types.Platform.{Platform}
use openidconnect_rs.Traits.{Suite}
use openidconnect_rs.Jwt.{JsonWebTokenAlgorithm, encryption, signature}
use openidconnect_rs.Claims.IdToken.{IdTokenClaims, id_token_access}
use openidconnect_rs.Verification.Accepts.{IsAllowed}
use openidconnect_rs.Verification.IdToken.{Verdict, IdTokenVerifier}
use openidconnect_rs.Verification.IdToken.Exact.{id_token_exact}
use openidconnect_rs.IdToken.{IdToken, claims, algorithm_of, signing_alg}

algorithm_of_iff :
    {t : Suite} (a : JsonWebTokenAlgorithm t) (alg : t.SigningAlg)
    → (algorithm_of a ≡ ok alg) ↔ (a ≡ signature alg)
unfolding algorithm_of
algorithm_of_iff (signature x) alg = (λ h. ap signature (ok_inj h), λ h. cc)
algorithm_of_iff (encryption x) alg = (λ h. cc, λ h. cc)
algorithm_of_iff JsonWebTokenAlgorithm.none alg = (λ h. cc, λ h. cc)

module _ {p : Platform} {t : Suite} {AC GC : Type 0} where
  -- If a verifier that checks signatures gives the claims of an ID token, its signing_alg is an
  -- algorithm, and one that the verifier allows, never an error.
  pub signing_alg_of_claims :
      (token : IdToken p t AC GC) (v : IdTokenVerifier p t) (n : Option String → Verdict)
      (c : IdTokenClaims p AC GC)
      → v.jwt_verifier.is_signature_check_enabled ≡ true
      → claims token v n ≡ ok c
      → (alg : t.SigningAlg) × (signing_alg token ≡ ok alg)
        × IsAllowed v.jwt_verifier alg v.jwt_verifier.allowed_algs
  unfolding claims signing_alg
  signing_alg_of_claims token v n c checked h =
      let (accepted, current, e) = (id_token_exact v token n c).0 h in
      let (alg, is_alg, allowed, signed) = accepted.signed checked in
      (alg, (algorithm_of_iff token.header.alg alg).1 is_alg, allowed)
