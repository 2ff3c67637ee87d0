-- ===== src/Verification/IdToken/Defaults.antt =====
-- What the verifiers of a client accept before and after their settings are changed.
use openidconnect_rs.Prelude.{
  ◌≡◌, ◌≢◌, ◌↔◌, inl, inr, refl, String, Bool, true, false, Option, none, List, [], ◌∷◌, All, Any,
  OnlyPasses, ok, arith, eq_iff, ap, ◌∙◌, >>=-iff, ok_inj,
}
use openidconnect_rs.Types.Platform
use openidconnect_rs.Types.Platform.{UrlText}
use openidconnect_rs.Types.KeySet.{JsonWebKeySet}
use openidconnect_rs.Traits.{Suite}
use openidconnect_rs.Jwt.{JsonWebToken, signature}
use openidconnect_rs.Claims.IdToken.{IdTokenClaims, id_token_access}
use openidconnect_rs.Verification.Accepts.{IsPlain, IsEligible, Verifies, IsSignedBy}
use openidconnect_rs.Verification.IdToken.{
  Verdict, IdTokenVerifier, new_public_client, verified_claims, insecure,
  new_insecure_without_verification,
}
use openidconnect_rs.Verification.IdToken.Exact.{id_token_exact}
use openidconnect_rs.Verification.IdToken.Configured.{Configured, Configured-SameParties}

own_only :
    (client_id : String) (auds : List String)
    → All (λ aud. aud ≢ client_id → ◌≡◌ {A = Bool} false true) auds
    → All (λ aud. aud ≡ client_id) auds
own_only client_id [] h = tt
own_only client_id (a ∷ auds) (f, h) =
    (ground (arith, f, eq_iff a client_id), own_only client_id auds h)

module _ {p : Platform.Platform} {t : Suite} {AC GC : Type 0} (client_id : String)
    (issuer : UrlText p) (keys : JsonWebKeySet t) where
  by_public_key :
      (w : IdTokenVerifier p t) (jwt : JsonWebToken t (IdTokenClaims p AC GC)) (alg : t.SigningAlg)
      → w.jwt_verifier.client_secret ≡ none
      → w.jwt_verifier.signature_keys ≡ keys
      → IsSignedBy w.jwt_verifier jwt alg
      → (key : t.Key) × OnlyPasses (IsEligible t alg jwt.header.kid) keys.keys key
        × Verifies w.jwt_verifier jwt alg key
  by_public_key w jwt alg no_secret same (inl (shared, (secret, has, _))) = cc (no_secret, has)
  by_public_key w jwt alg no_secret same (inr (public, (key, only, verifies))) =
      (key, rw same at only, verifies)

  -- However a public client's verifier is configured, while signatures are checked it accepts no
  -- token but one that verifies under the one eligible key of the provider's key set.
  pub public_client_needs_key :
      (w : IdTokenVerifier p t) (jwt : JsonWebToken t (IdTokenClaims p AC GC))
      (n : Option String → Verdict) (c : IdTokenClaims p AC GC)
      → Configured (new_public_client client_id issuer keys) w
      → w.jwt_verifier.is_signature_check_enabled ≡ true
      → verified_claims w jwt n ≡ ok c
      → (alg : t.SigningAlg) × (jwt.header.alg ≡ signature alg)
        × ((key : t.Key) × OnlyPasses (IsEligible t alg jwt.header.kid) keys.keys key
            × Verifies w.jwt_verifier jwt alg key)
  unfolding new_public_client
  public_client_needs_key w jwt n c configured checked h =
      let (accepted, _, _) = (id_token_exact w jwt n c).0 h in
      let (alg, is_alg, _, signed) = accepted.signed checked in
      let same = Configured-SameParties configured in
      (alg, is_alg, by_public_key w jwt alg same.client_secret same.signature_keys signed)

  -- As new_public_client makes it, a verifier accepts only tokens of the algorithm RS256 of the issuer
  -- it was made for, which name the client and nobody else as audience.
  pub public_client_defaults :
      (jwt : JsonWebToken t (IdTokenClaims p AC GC)) (n : Option String → Verdict)
      (c : IdTokenClaims p AC GC)
      → verified_claims (new_public_client client_id issuer keys) jwt n ≡ ok c
      → (jwt.header.alg ≡ signature t.rsa_sha_256)
        × (c.issuer.text ≡ issuer.text)
        × Any (λ aud. aud ≡ client_id) c.audiences
        × All (λ aud. aud ≡ client_id) c.audiences
  unfolding new_public_client
  public_client_defaults jwt n c h =
      let (accepted, _, e) =
        (id_token_exact (new_public_client client_id issuer keys) jwt n c).0 h in
      let (alg, is_alg, allowed, _) = accepted.signed refl in
      let (mine, others) = accepted.audience refl in
      (
        elim allowed [ inl same ↦ is_alg ∙ ap signature same | inr no_other ↦ absurd no_other ],
        rw (← e) (accepted.issuer refl),
        rw (← e) mine,
        rw (← e) (own_only client_id jwt.payload.audiences others),
      )

module _ {p : Platform.Platform} {t : Suite} {AC GC : Type 0} where
  insecure_at :
      (u : UrlText p) (jwt : JsonWebToken t (IdTokenClaims p AC GC)) (n : Option String → Verdict)
      (c : IdTokenClaims p AC GC)
      → (verified_claims (insecure t u) jwt n ≡ ok c) ↔ (
          IsPlain jwt.header
          × (p.time_leb jwt.payload.expiration p.now ≡ false)
          × (n jwt.payload.nonce ≡ ok tt)
          × (jwt.payload ≡ c))
  unfolding insecure
  insecure_at u jwt n c = (
    λ h.
        let (accepted, current, e) = (id_token_exact (insecure t u) jwt n c).0 h in
        (accepted.header, current.expiration, current.nonce, e),
    λ (plain, fresh, nonce, e). (id_token_exact (insecure t u) jwt n c).1 (
      record { header = plain; issuer = λ on. cc on; audience = λ on. cc on; signed = λ on. cc on },
      record {
        expiration = fresh;
        issue_time = refl;
        nonce = nonce;
        auth_context = refl;
        auth_time = refl;
      },
      e,
    ),
  )

  -- If its placeholder URL parses, the verifier of new_insecure_without_verification accepts exactly
  -- the tokens with a plain header whose claims have not expired and pass the nonce verifier, and
  -- returns their claims.
  pub insecure_exact :
      (v : IdTokenVerifier p t) (jwt : JsonWebToken t (IdTokenClaims p AC GC))
      (n : Option String → Verdict) (c : IdTokenClaims p AC GC)
      → new_insecure_without_verification p t ≡ ok v
      → (verified_claims v jwt n ≡ ok c) ↔ (
          IsPlain jwt.header
          × (p.time_leb jwt.payload.expiration p.now ≡ false)
          × (n jwt.payload.nonce ≡ ok tt)
          × (jwt.payload ≡ c))
  unfolding new_insecure_without_verification
  insecure_exact v jwt n c h =
      let (u, parsed, made) =
        (>>=-iff (Platform.new p "https://0.0.0.0") (λ u. ok (insecure t u))).0 h in
      rw (← ok_inj made) (insecure_at u jwt n c)
