-- ===== src/Verification/Accepts/Exact.antt =====
-- JwtClaimsVerifier::verified_claims accepts exactly the tokens that it should.
use openidconnect_rs.Prelude.{
  ◌≡◌, ◌↔◌, refl, ap, Bool, true, false, Result, ok, >>-eq-ok, if◌then◌else◌, arith,
}
use openidconnect_rs.Types.Errors.{ClaimsVerificationError}
use openidconnect_rs.Types.Platform.{Platform}
use openidconnect_rs.Traits.{Suite}
use openidconnect_rs.Jwt.{JsonWebToken}
use openidconnect_rs.Claims.Access.{ClaimsAccess}
use openidconnect_rs.Verification.JwtSettings.{JwtClaimsVerifier}
use openidconnect_rs.Verification.JwtChecks.{
  Check, validate_jose_header, reject_encryption, check_issuer, check_audiences, verify_signed,
  verified_claims,
}
use openidconnect_rs.Verification.Accepts.{Accepts, IsSigned}
use openidconnect_rs.Verification.Accepts.Header.{header_iff}
use openidconnect_rs.Verification.Accepts.Parties.{issuer_iff, audience_iff}
use openidconnect_rs.Verification.Accepts.Keys.{signed_iff}

-- A check that is made only if it is asked for.
asked_iff :
    (b : Bool) (m : Check) {P : Type 0}
    → (m ≡ ok tt) ↔ P
    → ((if b then m else ok tt) ≡ ok tt) ↔ (b ≡ true → P)
asked_iff true m i = (λ h e. i.0 h, λ f. i.1 (f refl))
asked_iff false m i = (λ h e. cc, λ f. refl)

-- A verification that is made only if it is asked for, and else returns the payload as it is.
enabled_iff :
    {C S : Type 0} (b : Bool) (m : Result C ClaimsVerificationError) (d c : C)
    → (m ≡ ok c) ↔ (S × (d ≡ c))
    → ((if b then m else ok d) ≡ ok c) ↔ ((b ≡ true → S) × (d ≡ c))
enabled_iff true m d c i = (λ h. (λ _. (i.0 h).0, (i.0 h).1), λ (f, e). i.1 (f refl, e))
enabled_iff false m d c i = (λ h. (λ on. cc on, ground (arith, h)), λ (f, e). ap ok e)

module _ {p : Platform} {t : Suite} {C : Type 0} (v : JwtClaimsVerifier p t)
    (jwt : JsonWebToken t C) where
  signature_iff :
      (c : C)
      → ((if v.is_signature_check_enabled
            then verify_signed v jwt jwt.header.alg
            else ok jwt.payload)
          ≡ ok c)
        ↔ ((v.is_signature_check_enabled ≡ true → IsSigned v jwt) × (jwt.payload ≡ c))
  signature_iff c = enabled_iff v.is_signature_check_enabled _ jwt.payload c (signed_iff v jwt c)

  -- The verifier returns claims exactly if it accepts the token, and they are the token's claims.
  pub verified_claims_exact :
      ⦃access : ClaimsAccess p C⦄ (c : C)
      → (verified_claims v jwt ≡ ok c) ↔ (Accepts v jwt × (jwt.payload ≡ c))
  unfolding verified_claims
  verified_claims_exact ⦃access⦄ c = (
    λ h.
        let (plain, h₁) = >>-eq-ok (validate_jose_header jwt.header) _ h in
        let (clear, h₂) = >>-eq-ok (reject_encryption jwt.header.alg) _ h₁ in
        let (iss, h₃) =
          >>-eq-ok (if v.iss_required then check_issuer v (access.issuer jwt.payload) else ok tt) _
            h₂ in
        let (aud, h₄) =
          >>-eq-ok
            (if v.aud_match_required
              then check_audiences v (access.audiences jwt.payload)
              else ok tt)
            _ h₃ in
        let (signed, e) = (signature_iff c).0 h₄ in
        (
          record {
            header = (header_iff jwt.header).0 (rw plain clear);
            issuer = (asked_iff v.iss_required _ (issuer_iff v (access.issuer jwt.payload))).0 iss;
            audience =
                (asked_iff v.aud_match_required _ (audience_iff v (access.audiences jwt.payload))).0
                  aud;
            signed = signed;
          },
          e,
        ),
    λ (a, e).
        let (plain, clear) =
          >>-eq-ok (validate_jose_header jwt.header) _ ((header_iff jwt.header).1 a.header) in
        rw
          (
            plain,
            clear,
            (asked_iff v.iss_required _ (issuer_iff v (access.issuer jwt.payload))).1 a.issuer,
            (asked_iff v.aud_match_required _ (audience_iff v (access.audiences jwt.payload))).1
                a.audience,
          )
          ((signature_iff c).1 (a.signed, e)),
  )
