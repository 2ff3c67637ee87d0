-- ===== src/Verification/Accepts/Keys.antt =====
-- The selection of a key and the verification of the signature decide that the token is signed.
use openidconnect_rs.Prelude.{
  String, ◌≡◌, ◌↔◌, refl, true, Option, none, some, List, [], ◌∷◌, OnlyPasses, any-to-Any,
  Any-to-any, filter-one-to-OnlyPasses, OnlyPasses-to-filter, Bool-cases, inl, inr, ok, map_err,
  map_err-eq-ok, >>=-iff, >>-eq-ok, ◌∙◌, ap, arith, eq_iff,
}
use openidconnect_rs.Text.{as_bytes}
use openidconnect_rs.Types.Errors.{signature_verification}
use openidconnect_rs.Types.Platform.{Platform}
use openidconnect_rs.Traits.{Suite}
use openidconnect_rs.Jwt.{
  JsonWebToken, JsonWebTokenAlgorithm, encryption, signature, verified_payload,
}
use openidconnect_rs.Verification.JwtSettings.{JwtClaimsVerifier}
use openidconnect_rs.Verification.KeySelection.{
  is_eligible, select_key, matches_type, may_sign, matches_id,
}
use openidconnect_rs.Verification.JwtChecks.{
  check_allowed, verify_with_secret, verify_with_keys, verify_with_alg, verify_signed,
}
use openidconnect_rs.Verification.Accepts.{IsAllowed, IsEligible, Verifies, IsSignedBy, IsSigned}

module _ (t : Suite) where
  type_iff :
      (o : Option t.KeyType) (key : t.Key)
      → (matches_type t o key ≡ true) ↔ (o ≡ some (t.key_type key))
  type_iff none key = (λ h. cc, λ h. cc)
  type_iff (some kt) key = (
    λ h. cc ((t.key_type_eq_iff (t.key_type key) kt).0 h),
    λ h. (t.key_type_eq_iff (t.key_type key) kt).1 (ground arith),
  )

  use_iff :
      (o : Option t.KeyUse)
      → (may_sign t o ≡ true) ↔ ((u : t.KeyUse) → o ≡ some u → t.allows_signature u ≡ true)
  use_iff none = (λ h u e. cc, λ h. refl)
  use_iff (some w) = (λ h u e. ground arith, λ h. h w refl)

  id_iff :
      (kid key_id : Option String)
      → (matches_id kid key_id ≡ true) ↔ ((k : String) → kid ≡ some k → key_id ≡ some k)
  id_iff none key_id = (λ h k e. cc, λ h. refl)
  id_iff (some a) none = (λ h k e. cc, λ h. cc (h a refl))
  id_iff (some a) (some b) =
      (λ h k e. ground (arith, eq_iff a b), λ h. ground (arith, eq_iff a b, h a refl))

  pub IsEligible-iff :
      (alg : t.SigningAlg) (kid : Option String) (key : t.Key)
      → (is_eligible t alg kid key ≡ true) ↔ IsEligible t alg kid key
  unfolding is_eligible
  IsEligible-iff alg kid key = (
    λ h. record {
      key_type = (type_iff (t.alg_key_type alg) key).0 (ground arith);
      key_use = (use_iff (t.key_use key)).0 (ground arith);
      key_id = (id_iff kid (t.key_id key)).0 (ground arith);
    },
    λ e. ground (
      arith,
      (type_iff (t.alg_key_type alg) key).1 e.key_type,
      (use_iff (t.key_use key)).1 e.key_use,
      (id_iff kid (t.key_id key)).1 e.key_id,
    ),
  )

  select-eq-ok : (keys : List t.Key) (key : t.Key) → select_key t keys ≡ ok key → keys ≡ key ∷ []
  unfolding select_key
  select-eq-ok [] key h = cc
  select-eq-ok (k ∷ []) key h = ground arith
  select-eq-ok (k ∷ l ∷ rest) key h = cc

module _ {p : Platform} {t : Suite} {C : Type 0} (v : JwtClaimsVerifier p t)
    (jwt : JsonWebToken t C) where
  IsAllowed-iff :
      (alg : t.SigningAlg) (o : Option (List t.SigningAlg))
      → (check_allowed v alg o ≡ ok tt) ↔ IsAllowed v alg o
  unfolding check_allowed
  IsAllowed-iff alg none = (λ h. tt, λ h. refl)
  IsAllowed-iff alg (some algs) = (
    λ h. any-to-Any (t.alg_eq alg) (λ a. alg ≡ a) (t.alg_eq_iff alg) algs (ground arith),
    λ h. ground (arith, Any-to-any (t.alg_eq alg) (λ a. alg ≡ a) (t.alg_eq_iff alg) algs h),
  )

  payload_iff :
      (alg : t.SigningAlg) (key : t.Key) (c : C)
      → (map_err signature_verification (verified_payload jwt alg key) ≡ ok c)
        ↔ (Verifies v jwt alg key × (jwt.payload ≡ c))
  unfolding verified_payload
  payload_iff alg key c = (λ h. ground arith, λ (h, e). ground arith)

  secret_iff :
      (alg : t.SigningAlg) (o : Option String) (c : C)
      → (verify_with_secret v jwt alg o ≡ ok c) ↔ (
          ((secret : String) × (o ≡ some secret)
            × Verifies v jwt alg (t.new_symmetric (as_bytes secret)))
          × (jwt.payload ≡ c))
  unfolding verify_with_secret
  secret_iff alg none c = (λ h. cc, λ (h, e). cc h.1)
  secret_iff alg (some s) c = (
    λ h.
        let (verifies, e) = (payload_iff alg (t.new_symmetric (as_bytes s)) c).0 h in
        ((s, refl, verifies), e),
    λ (h, e).
        let same : h.0 ≡ s = cc (h.1) in
        (payload_iff alg (t.new_symmetric (as_bytes s)) c).1 (rw same at (h.2), e),
  )

  keys_to :
      (alg : t.SigningAlg) (c : C)
      → verify_with_keys v jwt alg ≡ ok c
      → ((key : t.Key) × OnlyPasses (IsEligible t alg jwt.header.kid) v.signature_keys.keys key
          × Verifies v jwt alg key)
        × (jwt.payload ≡ c)
  unfolding verify_with_keys
  keys_to alg c h =
      let (key, chosen, paid) =
        (>>=-iff _ (λ key. verified_payload jwt alg key)).0 (map_err-eq-ok _ _ h) in
      let (verifies, e) = (payload_iff alg key c).0 (rw paid) in
      let only =
        filter-one-to-OnlyPasses (is_eligible t alg jwt.header.kid)
          (IsEligible t alg jwt.header.kid) (IsEligible-iff t alg jwt.header.kid)
          v.signature_keys.keys key (select-eq-ok t _ key chosen) in
      ((key, only, verifies), e)

  keys_from :
      (alg : t.SigningAlg) (key : t.Key)
      → OnlyPasses (IsEligible t alg jwt.header.kid) v.signature_keys.keys key
      → Verifies v jwt alg key
      → verify_with_keys v jwt alg ≡ ok jwt.payload
  unfolding verify_with_keys select_key
  keys_from alg key only h =
      rw
        (OnlyPasses-to-filter (is_eligible t alg jwt.header.kid) (IsEligible t alg jwt.header.kid)
          (IsEligible-iff t alg jwt.header.kid) only)
        ((payload_iff alg key jwt.payload).1 (h, refl))

  alg_to :
      (alg : t.SigningAlg) (c : C)
      → verify_with_alg v jwt alg ≡ ok c
      → IsAllowed v alg v.allowed_algs × IsSignedBy v jwt alg × (jwt.payload ≡ c)
  unfolding verify_with_alg
  alg_to alg c h =
      let (allowed, rest) = >>-eq-ok (check_allowed v alg v.allowed_algs) _ h in
      elim (Bool-cases (t.uses_shared_secret alg)) [
        | inl shared ↦
            let (by_secret, e) = (secret_iff alg v.client_secret c).0 (rw shared at rest) in
            ((IsAllowed-iff alg v.allowed_algs).0 allowed, inl (shared, by_secret), e)
        | inr public ↦
            let (by_key, e) = keys_to alg c (rw public at rest) in
            ((IsAllowed-iff alg v.allowed_algs).0 allowed, inr (public, by_key), e)
      ]

  alg_from :
      (alg : t.SigningAlg)
      → IsAllowed v alg v.allowed_algs
      → IsSignedBy v jwt alg
      → verify_with_alg v jwt alg ≡ ok jwt.payload
  unfolding verify_with_alg
  alg_from alg allowed (inl (shared, by_secret)) =
      rw ((IsAllowed-iff alg v.allowed_algs).1 allowed, shared)
        ((secret_iff alg v.client_secret jwt.payload).1 (by_secret, refl))
  alg_from alg allowed (inr (public, (key, only, verifies))) =
      rw ((IsAllowed-iff alg v.allowed_algs).1 allowed, public) (keys_from alg key only verifies)

  signed_to :
      (a : JsonWebTokenAlgorithm t) (c : C)
      → verify_signed v jwt a ≡ ok c
      → ((alg : t.SigningAlg) × (a ≡ signature alg)
          × IsAllowed v alg v.allowed_algs
          × IsSignedBy v jwt alg)
        × (jwt.payload ≡ c)
  unfolding verify_signed
  signed_to (encryption e) c h = cc
  signed_to (signature alg) c h =
      let (allowed, signed, e) = alg_to alg c h in ((alg, refl, allowed, signed), e)
  signed_to JsonWebTokenAlgorithm.none c h = cc

  pub signed_iff :
      (c : C) → (verify_signed v jwt jwt.header.alg ≡ ok c) ↔ (IsSigned v jwt × (jwt.payload ≡ c))
  unfolding verify_signed
  signed_iff c = (
    signed_to jwt.header.alg c,
    λ ((alg, is_alg, allowed, signed), e).
        ap (verify_signed v jwt) is_alg ∙ alg_from alg allowed signed ∙ ap ok e,
  )
