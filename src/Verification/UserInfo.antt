-- ===== src/Verification/UserInfo.antt =====
-- src/verification.rs: UserInfoVerifier.
use openidconnect_rs.Prelude.{
  ◌≡◌, ◌↔◌, refl, String, Bool, Option, none, some, Result, ok, err, ◌>>=◌, >>=-iff, ok_inj, ◌==◌,
  eq_iff, ap, ◌∙◌, arith, if◌then◌else◌,
}
use openidconnect_rs.Text.{◌+++◌, quoted}
use openidconnect_rs.Types.Errors.{ClaimsVerificationError, invalid_subject}
use openidconnect_rs.Types.Platform.{Platform, UrlText}
use openidconnect_rs.Types.KeySet.{JsonWebKeySet}
use openidconnect_rs.Traits.{Suite}
use openidconnect_rs.Jwt.{JsonWebToken}
use openidconnect_rs.Claims.UserInfo.{UserInfoClaimsImpl, user_info_access}
use openidconnect_rs.Verification.JwtSettings
use openidconnect_rs.Verification.JwtSettings.{JwtClaimsVerifier}
use openidconnect_rs.Verification.JwtChecks
use openidconnect_rs.Verification.Accepts.{Accepts}
use openidconnect_rs.Verification.Accepts.Exact.{verified_claims_exact}

pub record UserInfoVerifier (p : Platform) (t : Suite) : Type 0 where
  pub jwt_verifier : JwtClaimsVerifier p t
  pub expected_subject : Option String

module _ {p : Platform} {t : Suite} where
  unfoldable pub new : String → UrlText p → JsonWebKeySet t → Option String → UserInfoVerifier p t
  unfolding JwtSettings.new
  new client_id issuer signature_keys expected_subject = record {
    jwt_verifier = JwtSettings.new client_id issuer signature_keys;
    expected_subject = expected_subject;
  }

  unfoldable pub require_issuer_match : UserInfoVerifier p t → Bool → UserInfoVerifier p t
  unfolding JwtSettings.require_issuer_match
  require_issuer_match v iss_required = record v {
    jwt_verifier = JwtSettings.require_issuer_match v.jwt_verifier iss_required;
  }

  unfoldable pub require_audience_match : UserInfoVerifier p t → Bool → UserInfoVerifier p t
  unfolding JwtSettings.require_audience_match
  require_audience_match v aud_required = record v {
    jwt_verifier = JwtSettings.require_audience_match v.jwt_verifier aud_required;
  }

-- The subject is the expected one, where there is one.
abbrev pub HasSubject : Option String → String → Type 0
HasSubject none sub = Unit
HasSubject (some expected) sub = sub ≡ expected

module _ {p : Platform} {AC GC : Type 0} where
  -- The last step of `verified_claims`, and of `UserInfoClaims::from_json`.
  unfoldable pub check_subject :
      Option String
      → UserInfoClaimsImpl p AC GC
      → Result (UserInfoClaimsImpl p AC GC) ClaimsVerificationError
  check_subject none user_info = ok user_info
  check_subject (some expected) user_info =
      let sub = user_info.standard_claims.sub in
      if sub == expected
      then ok user_info
      else err
          (invalid_subject ("expected " +++ quoted expected +++ " (found " +++ quoted sub +++ ")"))

  pub subject_iff :
      (o : Option String) (u c : UserInfoClaimsImpl p AC GC)
      → (check_subject o u ≡ ok c) ↔ (HasSubject o u.standard_claims.sub × (u ≡ c))
  unfolding check_subject
  subject_iff none u c = (λ h. (tt, ok_inj h), λ (_, e). ap ok e)
  subject_iff (some s) u c = (
    λ h. ground (arith, eq_iff u.standard_claims.sub s),
    λ (same, e). rw ((eq_iff u.standard_claims.sub s).1 same) (ap ok e),
  )

module _ {p : Platform} {t : Suite} {AC GC : Type 0} (v : UserInfoVerifier p t)
    (user_info_jwt : JsonWebToken t (UserInfoClaimsImpl p AC GC)) where
  unfoldable pub verified_claims : Result (UserInfoClaimsImpl p AC GC) ClaimsVerificationError
  verified_claims = do
    user_info ← JwtChecks.verified_claims v.jwt_verifier user_info_jwt
    check_subject v.expected_subject user_info

  -- A user info verifier returns the claims of a token exactly if the token is acceptable as a
  -- signed token and is about the expected subject.
  pub user_info_exact :
      (c : UserInfoClaimsImpl p AC GC)
      → (verified_claims ≡ ok c) ↔ (
          Accepts v.jwt_verifier user_info_jwt
          × HasSubject v.expected_subject c.standard_claims.sub
          × (user_info_jwt.payload ≡ c))
  unfolding verified_claims
  user_info_exact c = (
    λ h.
        let (d, verified, h₁) =
          (>>=-iff (JwtChecks.verified_claims v.jwt_verifier user_info_jwt) _).0 h in
        let (accepted, e) = (verified_claims_exact v.jwt_verifier user_info_jwt d).0 verified in
        let (subject, e') = (subject_iff v.expected_subject d c).0 h₁ in
        (accepted, rw e' at subject, e ∙ e'),
    λ (accepted, subject, e).
        rw ((verified_claims_exact v.jwt_verifier user_info_jwt c).1 (accepted, e))
          ((subject_iff v.expected_subject c c).1 (subject, refl)),
  )
