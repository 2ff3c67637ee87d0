-- ===== src/Verification/Accepts/Header.antt =====
-- The checks of the JOSE header decide that it is plain.
use openidconnect_rs.Prelude.{
  String, ◌≡◌, ◌≢◌, ◌↔◌, refl, Option, none, some, ok, ◌>>◌, arith, eq_iff,
}
use openidconnect_rs.Text.{to_uppercase}
use openidconnect_rs.Traits.{Suite}
use openidconnect_rs.Jwt.{JsonWebTokenHeader, JsonWebTokenAlgorithm, encryption, signature}
use openidconnect_rs.Verification.JwtChecks.{
  validate_typ, validate_cty, validate_jose_header, reject_encryption,
}
use openidconnect_rs.Verification.Accepts.{IsJwtType, IsPlain}

typ_iff : (o : Option String) → (validate_typ o ≡ ok tt) ↔ IsJwtType o
unfolding validate_typ
typ_iff none = (λ _. tt, λ _. refl)
typ_iff (some s) = (
  λ h. ground (arith, eq_iff (to_uppercase s) "JWT"),
  λ h. ground (arith, eq_iff (to_uppercase s) "JWT"),
)

cty_iff : (o : Option String) → (validate_cty o ≡ ok tt) ↔ (o ≡ none)
unfolding validate_cty
cty_iff none = (λ _. refl, λ _. refl)
cty_iff (some s) = (λ h. ground arith, λ h. cc)

module _ {t : Suite} where
  encryption_iff :
      (a : JsonWebTokenAlgorithm t)
      → (reject_encryption a ≡ ok tt) ↔ ((e : t.EncryptionAlg) → a ≢ encryption e)
  unfolding reject_encryption
  encryption_iff (encryption e) = (λ h. cc, λ n. absurd (n e refl))
  encryption_iff (signature a) = (λ h e q. cc, λ n. refl)
  encryption_iff JsonWebTokenAlgorithm.none = (λ h e q. cc, λ n. refl)

  pub header_iff :
      (h : JsonWebTokenHeader t)
      → ((validate_jose_header h >> reject_encryption h.alg) ≡ ok tt) ↔ IsPlain h
  unfolding validate_jose_header
  header_iff h = (
    λ e. record {
      typ = (typ_iff h.typ).0 (ground arith);
      cty = (cty_iff h.cty).0 (ground arith);
      crit = ground arith;
      alg = (encryption_iff h.alg).0 (ground arith);
    },
    λ s. ground (
      arith,
      (typ_iff h.typ).1 s.typ,
      (cty_iff h.cty).1 s.cty,
      s.crit,
      (encryption_iff h.alg).1 s.alg,
    ),
  )
