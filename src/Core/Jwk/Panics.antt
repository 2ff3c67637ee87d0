-- ===== src/Core/Jwk/Panics.antt =====
-- src/core/jwk.rs: when the verification of an HMAC signature panics.
use openidconnect_rs.Prelude.{
  ℕ, String, ◌≡◌, ◌≢◌, ◌↔◌, refl, Bool, true, false, some, List, length, nat_eq, nat_eq_iff,
  if◌then◌else◌, Result, ok, err, ◌>>=◌, guard, map_err, guard_iff, >>-intro, ap,
}
use openidconnect_rs.Text.{◌+++◌}
use openidconnect_rs.Types.Errors.{SignatureVerificationError, panic}
use openidconnect_rs.Core.Crypto.{Crypto, Hash}
use openidconnect_rs.Core.Algorithms.{
  CoreJwsSigningAlgorithm, hmac_sha256, hmac_sha384, hmac_sha512, alg_key_type,
}
use openidconnect_rs.Core.Jwk.{new_symmetric}
use openidconnect_rs.Core.Jwk.Valid.{mac, scheme}
use openidconnect_rs.Core.Jwk.Valid.Exact.{is_type_iff}
use openidconnect_rs.Core.Jwk.Verify.{check_use, verify_signature, verify_with, verify_hmac}

guard-panic :
    (b : Bool) (m : String) → guard b (SignatureVerificationError.crypto_error m) ≢ err panic
guard-panic true m = λ h. cc
guard-panic false m = λ h. cc

-- The end of the HMAC arm, over what the crate returns and whether the sizes agree.
arm-panic :
    {M : Type 0} (r : Result M String) (b : Bool) (v : M → Bool)
    → ((map_err (λ e. SignatureVerificationError.other ("Could not create key: " +++ e)) r >>= λ m.
          if b then guard (v m) (SignatureVerificationError.crypto_error "bad HMAC") else err panic)
        ≡ err panic)
      ↔ ((m : M) × (r ≡ ok m) × (b ≢ true))
arm-panic (ok m) true v = (λ h. absurd (guard-panic (v m) _ h), λ w. absurd (w.2 refl))
arm-panic (ok m) false v = (λ h. (m, refl, λ e. cc), λ w. refl)
arm-panic (err e) b v = (λ h. cc, λ w. cc w.1)

module _ (c : Crypto) (k msg sig : List ℕ) where
  -- Whether the crate makes a code from the secret and the signature is not of the code's size.
  abbrev pub HasWrongSize : Hash → Type 0
  HasWrongSize h = (m : c.Mac h) × (c.mac_new h k ≡ ok m) × (length sig ≢ c.output_size h)

  verify_hmac-panic :
      (h : Hash) → (verify_hmac c (new_symmetric k) h msg sig ≡ err panic) ↔ HasWrongSize h
  unfolding verify_hmac new_symmetric
  verify_hmac-panic h =
      let arms =
        arm-panic (c.mac_new h k) (nat_eq (length sig) (c.output_size h))
          (λ m. c.mac_verify h (c.mac_update h m msg) sig) in
      (
        λ e. let (m, p, n) = arms.0 e in (m, p, λ q. n ((nat_eq_iff _ _).1 q)),
        λ (m, p, n). arms.1 (m, p, λ q. n ((nat_eq_iff _ _).0 q)),
      )

  reaches :
      (alg : CoreJwsSigningAlgorithm) (h : Hash)
      → scheme alg ≡ some (mac h)
      → verify_signature c (new_symmetric k) alg msg sig ≡ verify_hmac c (new_symmetric k) h msg sig
  unfolding verify_signature check_use verify_with alg_key_type new_symmetric
  reaches hmac_sha256 h e =
      >>-intro ((guard_iff _ _).1 ((is_type_iff _ _).1 refl))
        (ap (λ h'. verify_hmac c (new_symmetric k) h' msg sig) (cc))
  reaches hmac_sha384 h e =
      >>-intro ((guard_iff _ _).1 ((is_type_iff _ _).1 refl))
        (ap (λ h'. verify_hmac c (new_symmetric k) h' msg sig) (cc))
  reaches hmac_sha512 h e =
      >>-intro ((guard_iff _ _).1 ((is_type_iff _ _).1 refl))
        (ap (λ h'. verify_hmac c (new_symmetric k) h' msg sig) (cc))
  reaches _ h e = cc

  -- The verification of a signature by a client secret, under an HMAC algorithm whose key the crate
  -- makes from the secret, panics exactly when the signature has not the length of the algorithm's
  -- code.
  pub verify_signature-panic_iff :
      (alg : CoreJwsSigningAlgorithm) (h : Hash)
      → scheme alg ≡ some (mac h)
      → (verify_signature c (new_symmetric k) alg msg sig ≡ err panic) ↔ HasWrongSize h
  verify_signature-panic_iff alg h e = rw (reaches alg h e) (verify_hmac-panic h)
