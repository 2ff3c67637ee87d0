-- ===== src/Core/Jwk/Valid/Arms.antt =====
-- src/core/jwk.rs and src/core/crypto.rs: what each arm of verify_signature verifies.
use openidconnect_rs.Prelude.{
  ℕ, ◌≡◌, ◌↔◌, refl, sym, ap, ◌∙◌, true, ok_inj, Option, none, some, List, nat_eq_iff, ok, >>=-iff,
  map_err_iff, ok_or_iff, guard_iff, if_ok_iff,
}
use openidconnect_rs.Core.Crypto.{Crypto, Hash, Padding, EcCurve}
use openidconnect_rs.Core.Algorithms.{
  CoreJsonCurveType, p256, p384, p521, rsa, elliptic_curve, key_type_eq_iff,
}
use openidconnect_rs.Core.Jwk.{CoreJsonWebKey}
use openidconnect_rs.Core.Jwk.Valid.{IsMac, IsRsaSignature, IsEcSignature, curve_name}
use openidconnect_rs.Core.Jwk.Verify.{
  is_curve, verify_hmac, verify_rsa, verify_ecdsa, rsa_public_key, ec_public_key, verify_on,
  verify_on_curve, verify_ec_signature, verify_rsa_signature,
}

rsa_public_key_iff :
    (key : CoreJsonWebKey) {ne : List ℕ × List ℕ}
    → (rsa_public_key key ≡ ok ne) ↔ ((key.kty ≡ rsa) × (key.n ≡ some ne.0) × (key.e ≡ some ne.1))
unfolding rsa_public_key
rsa_public_key_iff key = (
  λ h.
      let (t, r) = (if_ok_iff _ _ _).0 h in
      let (n, en, s) = (>>=-iff _ _).0 r in
      let (e, ee, q) = (>>=-iff _ _).0 s in
      (
        (key_type_eq_iff _ _).0 t,
        (ok_or_iff _ _).0 en ∙ ap (λ z. some z.0) (ok_inj q),
        (ok_or_iff _ _).0 ee ∙ ap (λ z. some z.1) (ok_inj q),
      ),
  λ (t, en, ee). (if_ok_iff _ _ _).1 (
    (key_type_eq_iff _ _).1 t,
    (>>=-iff _ _).1 (_, (ok_or_iff _ _).1 en, (>>=-iff _ _).1 (_, (ok_or_iff _ _).1 ee, refl)),
  ),
)

ec_public_key_iff :
    (key : CoreJsonWebKey) {xyc : List ℕ × (List ℕ × CoreJsonCurveType)}
    → (ec_public_key key ≡ ok xyc) ↔ (
        (key.kty ≡ elliptic_curve)
        × (key.x ≡ some xyc.0)
        × (key.y ≡ some xyc.1.0)
        × (key.crv ≡ some xyc.1.1))
unfolding ec_public_key
ec_public_key_iff key = (
  λ h.
      let (t, r) = (if_ok_iff _ _ _).0 h in
      let (x, ex, s) = (>>=-iff _ _).0 r in
      let (y, ey, s') = (>>=-iff _ _).0 s in
      let (crv, ec, q) = (>>=-iff _ _).0 s' in
      (
        (key_type_eq_iff _ _).0 t,
        (ok_or_iff _ _).0 ex ∙ ap (λ z. some z.0) (ok_inj q),
        (ok_or_iff _ _).0 ey ∙ ap (λ z. some z.1.0) (ok_inj q),
        (ok_or_iff _ _).0 ec ∙ ap (λ z. some z.1.1) (ok_inj q),
      ),
  λ (t, ex, ey, ec). (if_ok_iff _ _ _).1 (
    (key_type_eq_iff _ _).1 t,
    (>>=-iff _ _).1 (
      _,
      (ok_or_iff _ _).1 ex,
      (>>=-iff _ _).1 (_, (ok_or_iff _ _).1 ey, (>>=-iff _ _).1 (_, (ok_or_iff _ _).1 ec, refl)),
    ),
  ),
)

is_curve_iff :
    (curve : EcCurve) (crv : Option CoreJsonCurveType)
    → (is_curve (curve_name curve) crv ≡ true) ↔ (crv ≡ some (curve_name curve))
unfolding is_curve
is_curve_iff EcCurve.p256 none = (λ h. cc, λ h. cc)
is_curve_iff EcCurve.p256 (some p256) = (λ h. refl, λ h. refl)
is_curve_iff EcCurve.p256 (some p384) = (λ h. cc, λ h. cc)
is_curve_iff EcCurve.p256 (some p521) = (λ h. cc, λ h. cc)
is_curve_iff EcCurve.p384 none = (λ h. cc, λ h. cc)
is_curve_iff EcCurve.p384 (some p256) = (λ h. cc, λ h. cc)
is_curve_iff EcCurve.p384 (some p384) = (λ h. refl, λ h. refl)
is_curve_iff EcCurve.p384 (some p521) = (λ h. cc, λ h. cc)

verify_on_name :
    (c : Crypto) (curve : EcCurve) (x y msg sig : List ℕ)
    → verify_on c (curve_name curve) x y msg sig ≡ verify_on_curve c curve x y msg sig
unfolding verify_on
verify_on_name c EcCurve.p256 x y msg sig = refl
verify_on_name c EcCurve.p384 x y msg sig = refl

module _ (c : Crypto) (key : CoreJsonWebKey) (msg sig : List ℕ) where
  pub verify_hmac_iff : (h : Hash) → (verify_hmac c key h msg sig ≡ ok tt) ↔ IsMac c key msg sig h
  unfolding verify_hmac
  verify_hmac_iff h = (
    λ e.
        let (k, ek, r) = (>>=-iff _ _).0 e in
        let (m, em, s) = (>>=-iff _ _).0 r in
        let (l, v) = (if_ok_iff _ _ _).0 s in
        (
          k,
          (ok_or_iff _ _).0 ek,
          m,
          (map_err_iff _ _).0 em,
          (nat_eq_iff _ _).0 l,
          (guard_iff _ _).0 v,
        ),
    λ (k, ek, m, em, l, v). (>>=-iff _ _).1 (
      k,
      (ok_or_iff _ _).1 ek,
      (>>=-iff _ _).1 (
        m,
        (map_err_iff _ _).1 em,
        (if_ok_iff _ _ _).1 ((nat_eq_iff _ _).1 l, (guard_iff _ _).1 v),
      ),
    ),
  )

  pub verify_rsa_iff :
      (padding : Hash → Padding) (h : Hash)
      → key.kty ≡ rsa
      → (verify_rsa c key padding h msg sig ≡ ok tt) ↔ IsRsaSignature c key msg sig (padding h) h
  unfolding verify_rsa verify_rsa_signature
  verify_rsa_iff padding h t = (
    λ v.
        let (ne, q, r) = (>>=-iff _ _).0 v in
        let (_, en, ee) = (rsa_public_key_iff key).0 ((map_err_iff _ _).0 q) in
        let (pk, p, s) = (>>=-iff _ _).0 r in
        (ne.0, ne.1, en, ee, pk, (map_err_iff _ _).0 p, (guard_iff _ _).0 s),
    λ (n, e, en, ee, pk, p, s). (>>=-iff _ _).1 (
      (n, e),
      (map_err_iff _ _).1 ((rsa_public_key_iff key).1 (t, en, ee)),
      (>>=-iff _ _).1 (pk, (map_err_iff _ _).1 p, (guard_iff _ _).1 s),
    ),
  )

  pub verify_ecdsa_iff :
      (curve : EcCurve)
      → key.kty ≡ elliptic_curve
      → (verify_ecdsa c key (curve_name curve) msg sig ≡ ok tt) ↔ IsEcSignature c key msg sig curve
  unfolding verify_ecdsa verify_ec_signature verify_on_curve
  verify_ecdsa_iff curve t = (
    λ v.
        let (i, v') = (if_ok_iff _ _ _).0 v in
        let (xyc, q, r) = (>>=-iff _ _).0 v' in
        let (_, ex, ey, ec) = (ec_public_key_iff key).0 ((map_err_iff _ _).0 q) in
        let crv = (is_curve_iff curve key.crv).0 i in
        let name : curve_name curve ≡ xyc.1.1 = cc in
        let r' =
          sym (verify_on_name c curve xyc.0 xyc.1.0 msg sig)
          ∙ ap (λ n. verify_on c n xyc.0 xyc.1.0 msg sig) name
          ∙ r in
        let (pk, p, s) = (>>=-iff _ _).0 r' in
        let (sg, g, w) = (>>=-iff _ _).0 s in
        (
          xyc.0,
          xyc.1.0,
          ex,
          ey,
          crv,
          pk,
          (map_err_iff _ _).0 p,
          sg,
          (ok_or_iff _ _).0 g,
          (guard_iff _ _).0 w,
        ),
    λ (x, y, ex, ey, ec, pk, p, sg, g, w). (if_ok_iff _ _ _).1 (
      (is_curve_iff curve key.crv).1 ec,
      (>>=-iff _ _).1 (
        (x, (y, curve_name curve)),
        (map_err_iff _ _).1 ((ec_public_key_iff key).1 (t, ex, ey, ec)),
        verify_on_name c curve x y msg sig
            ∙ (>>=-iff _ _).1 (
              pk,
              (map_err_iff _ _).1 p,
              (>>=-iff _ _).1 (sg, (ok_or_iff _ _).1 g, (guard_iff _ _).1 w),
            ),
      ),
    ),
  )
