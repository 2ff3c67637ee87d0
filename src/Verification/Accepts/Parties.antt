-- ===== src/Verification/Accepts/Parties.antt =====
-- The checks of the issuer and of the audiences decide that the claims are meant for this client.
use openidconnect_rs.Prelude.{
  String, ◌≡◌, ◌≢◌, ◌↔◌, refl, true, false, not, Option, none, some, List, [], ◌∷◌, All, Any, any,
  any-to-Any, Any-to-any, find-filter-to-All, All-to-find-filter, Bool-cases, inl, inr, length, ltb,
  ok, arith, eq_iff, ◌==◌,
}
use openidconnect_rs.Types.Platform
use openidconnect_rs.Types.Platform.{UrlText}
use openidconnect_rs.Traits.{Suite}
use openidconnect_rs.Verification.JwtSettings.{JwtClaimsVerifier}
use openidconnect_rs.Verification.JwtChecks.{check_issuer, reject_untrusted, check_audiences}
use openidconnect_rs.Verification.Accepts.{IsExpectedIssuer, IsTrustedAudience}

module _ {p : Platform.Platform} {t : Suite} (v : JwtClaimsVerifier p t) where
  pub issuer_iff : (o : Option (UrlText p)) → (check_issuer v o ≡ ok tt) ↔ IsExpectedIssuer v o
  unfolding check_issuer Platform.eq
  issuer_iff none = (λ h. cc, λ h. absurd h)
  issuer_iff (some i) = (
    λ h. ground (arith, eq_iff i.text v.issuer.text),
    λ h. ground (arith, eq_iff i.text v.issuer.text),
  )

  -- An audience that is not the client's own is one that the test keeps.
  trusted_to :
      (auds : List String)
      → All (λ y. not (y == v.client_id) ≡ true → not (v.other_aud_verifier_fn y) ≡ false) auds
      → All (λ y. y ≢ v.client_id → v.other_aud_verifier_fn y ≡ true) auds
  trusted_to [] h = tt
  trusted_to (y ∷ ys) (f, h) = (λ n. ground (arith, f, eq_iff y v.client_id), trusted_to ys h)

  trusted_from :
      (auds : List String)
      → All (λ y. y ≢ v.client_id → v.other_aud_verifier_fn y ≡ true) auds
      → All (λ y. not (y == v.client_id) ≡ true → not (v.other_aud_verifier_fn y) ≡ false) auds
  trusted_from [] h = tt
  trusted_from (y ∷ ys) (f, h) = (λ e. ground (arith, f, eq_iff y v.client_id), trusted_from ys h)

  -- A lone audience that is the client's own leaves no other to distrust.
  alone :
      (auds : List String)
      → Any (λ aud. aud ≡ v.client_id) auds
      → ltb 1 (length auds) ≡ false
      → All (λ y. y ≢ v.client_id → v.other_aud_verifier_fn y ≡ true) auds
  alone [] a h = tt
  alone (y ∷ []) (inl e) h = (λ n. absurd (n e), tt)
  alone (y ∷ []) (inr a) h = absurd a
  alone (y ∷ z ∷ rest) a h = ground arith

  untrusted_iff : (o : Option String) → (reject_untrusted v o ≡ ok tt) ↔ (o ≡ none)
  unfolding reject_untrusted
  untrusted_iff none = (λ _. refl, λ _. refl)
  untrusted_iff (some aud) = (λ h. cc, λ h. cc)

  own : (aud : String) → ((aud == v.client_id) ≡ true) ↔ (aud ≡ v.client_id)
  own aud = eq_iff aud v.client_id

  audiences_to :
      (auds : List String) → check_audiences v (some auds) ≡ ok tt → IsTrustedAudience v (some auds)
  unfolding check_audiences
  audiences_to auds h =
      let present : any (λ aud. aud == v.client_id) auds ≡ true = ground arith in
      let mine =
        any-to-Any (λ aud. aud == v.client_id) (λ aud. aud ≡ v.client_id) own auds present in
      (
        mine,
        elim (Bool-cases (ltb 1 (length auds))) [
          | inl long ↦
              trusted_to auds
                (find-filter-to-All _ _ auds ((untrusted_iff _).0 (rw (present, long) at h)))
          | inr short ↦ alone auds mine short
        ],
      )

  audiences_from :
      (auds : List String) → IsTrustedAudience v (some auds) → check_audiences v (some auds) ≡ ok tt
  unfolding check_audiences
  audiences_from auds (a, h) =
      let present = Any-to-any (λ aud. aud == v.client_id) (λ aud. aud ≡ v.client_id) own auds a in
      let trusted =
        All-to-find-filter (λ aud. not (aud == v.client_id))
          (λ aud. not (v.other_aud_verifier_fn aud)) auds (trusted_from auds h) in
      ground (arith, present, trusted)

  pub audience_iff :
      (o : Option (List String)) → (check_audiences v o ≡ ok tt) ↔ IsTrustedAudience v o
  unfolding check_audiences
  audience_iff none = (λ h. cc, λ h. absurd h)
  audience_iff (some auds) = (audiences_to auds, audiences_from auds)
