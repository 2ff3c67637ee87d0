-- ===== src/Verification/IdToken/Exact.antt =====
-- IdTokenVerifier accepts exactly the tokens that it should, and the earlier the more.
use openidconnect_rs.Prelude.{
  ◌≡◌, ◌↔◌, refl, String, true, false, Option, ok, >>=-iff, >>-eq-ok, ok_inj, arith, ◌∙◌, ap,
}
use openidconnect_rs.Types.Platform.{Platform}
use openidconnect_rs.Traits.{Suite}
use openidconnect_rs.Jwt.{JsonWebToken}
use openidconnect_rs.Claims.IdToken.{IdTokenClaims, id_token_access}
use openidconnect_rs.Verification.JwtChecks
use openidconnect_rs.Verification.Accepts.{Accepts}
use openidconnect_rs.Verification.Accepts.Exact.{verified_claims_exact}
use openidconnect_rs.Verification.IdToken.{
  Verdict, IdTokenVerifier, set_time_fn, verify_claims, verified_claims,
}

module _ {p : Platform} {t : Suite} {AC GC : Type 0} (v : IdTokenVerifier p t) where
  -- The claims have not expired and pass the client's own checks.
  pub record IsCurrent (claims : IdTokenClaims p AC GC) (nonce_verifier : Option String → Verdict)
      : Type 0 where
    pub expiration : p.time_leb claims.expiration (v.time_fn tt) ≡ false
    pub issue_time : v.iat_verifier_fn claims.issue_time ≡ ok tt
    pub nonce : nonce_verifier claims.nonce ≡ ok tt
    pub auth_context : v.acr_verifier_fn claims.auth_context_ref ≡ ok tt
    pub auth_time : v.auth_time_verifier_fn claims.auth_time ≡ ok tt

  pub IsCurrent-iff :
      (claims : IdTokenClaims p AC GC) (n : Option String → Verdict)
      → (verify_claims v claims n ≡ ok tt) ↔ IsCurrent claims n
  unfolding verify_claims
  IsCurrent-iff claims n = (λ h. ground arith, λ c. ground arith)

module _ {p : Platform} {t : Suite} {AC GC : Type 0} (v : IdTokenVerifier p t)
    (jwt : JsonWebToken t (IdTokenClaims p AC GC)) (n : Option String → Verdict) where
  -- An ID token verifier returns the claims of a token exactly if the token is acceptable as a
  -- signed token and its claims are current.
  pub id_token_exact :
      (c : IdTokenClaims p AC GC)
      → (verified_claims v jwt n ≡ ok c)
        ↔ (Accepts v.jwt_verifier jwt × IsCurrent v jwt.payload n × (jwt.payload ≡ c))
  unfolding verified_claims
  id_token_exact c = (
    λ h.
        let (d, verified, h₁) = (>>=-iff (JwtChecks.verified_claims v.jwt_verifier jwt) _).0 h in
        let (accepted, e) = (verified_claims_exact v.jwt_verifier jwt d).0 verified in
        let (current, e') = >>-eq-ok (verify_claims v d n) _ h₁ in
        (accepted, (IsCurrent-iff v jwt.payload n).0 (rw e current), e ∙ ok_inj e'),
    λ (accepted, current, e).
        rw
          (
            (verified_claims_exact v.jwt_verifier jwt jwt.payload).1 (accepted, refl),
            (IsCurrent-iff v jwt.payload n).1 current,
          )
          (ap ok e),
  )

-- What the source relies on in the order of chrono's `DateTime`.
pub record IsTimeOrder (p : Platform) : Type 0 where
  pub trans :
      (a b c : p.DateTime) → p.time_leb a b ≡ true → p.time_leb b c ≡ true → p.time_leb a c ≡ true

module _ {p : Platform} {t : Suite} {AC GC : Type 0} (v : IdTokenVerifier p t)
    (jwt : JsonWebToken t (IdTokenClaims p AC GC)) (n : Option String → Verdict) where
  -- If the order of times is transitive, a token that is accepted at some time is accepted by the same
  -- verifier, with the same claims, at each earlier time.
  pub accepted_earlier :
      (now earlier : p.DateTime) (c : IdTokenClaims p AC GC)
      → IsTimeOrder p
      → p.time_leb earlier now ≡ true
      → verified_claims (set_time_fn v (λ _. now)) jwt n ≡ ok c
      → verified_claims (set_time_fn v (λ _. earlier)) jwt n ≡ ok c
  unfolding set_time_fn
  accepted_earlier now earlier c order before h =
      let (accepted, current, e) = (id_token_exact (set_time_fn v (λ _. now)) jwt n c).0 h in
      (id_token_exact (set_time_fn v (λ _. earlier)) jwt n c).1 (
        record {
          header = accepted.header;
          issuer = accepted.issuer;
          audience = accepted.audience;
          signed = accepted.signed;
        },
        record {
          expiration =
              ground (arith, order.trans jwt.payload.expiration earlier now, current.expiration);
          issue_time = current.issue_time;
          nonce = current.nonce;
          auth_context = current.auth_context;
          auth_time = current.auth_time;
        },
        e,
      )
