-- ===== src/Verification/JwtChecks.antt =====
-- src/verification.rs: JwtClaimsVerifier::verified_claims, one function for each of its checks.
use openidconnect_rs.Prelude.{
  not, String, Option, none, some, List, map, any, filter, find, length, ltb, is_some,
  if◌then◌else◌, Result, ok, err, ◌>>=◌, ◌>>◌, guard, map_err, ◌==◌,
}
use openidconnect_rs.Text.{◌+++◌, quoted, join, to_uppercase, as_bytes}
use openidconnect_rs.Types.Errors.{
  ClaimsVerificationError, unsupported, invalid_issuer, invalid_audience, no_signature,
  signature_verification, disallowed_alg,
}
use openidconnect_rs.Types.Platform
use openidconnect_rs.Types.Platform.{UrlText}
use openidconnect_rs.Traits.{Suite}
use openidconnect_rs.Jwt.{
  JsonWebToken, JsonWebTokenHeader, JsonWebTokenAlgorithm, encryption, signature, verified_payload,
}
use openidconnect_rs.Claims.Access.{ClaimsAccess}
use openidconnect_rs.Verification.JwtSettings.{JwtClaimsVerifier}
use openidconnect_rs.Verification.KeySelection.{is_eligible, select_key}

-- What a check returns.
abbrev pub Check : Type 0
Check = Result (Unit {0}) ClaimsVerificationError

unfoldable pub validate_typ : Option String → Check
validate_typ none = ok tt
validate_typ (some jwt_type) =
    guard (to_uppercase jwt_type == "JWT")
      (unsupported ("unexpected or unsupported JWT type " +++ quoted jwt_type))

unfoldable pub validate_cty : Option String → Check
validate_cty none = ok tt
validate_cty (some content_type) =
    if to_uppercase content_type == "JWT"
    then err (unsupported "nested JWT's are not currently supported")
    else err (unsupported ("unexpected or unsupported JWT content type " +++ quoted content_type))

module _ {t : Suite} where
  unfoldable pub validate_jose_header : JsonWebTokenHeader t → Check
  unfolding validate_typ validate_cty
  validate_jose_header jose_header = do
    validate_typ jose_header.typ
    validate_cty jose_header.cty
    guard (not (is_some jose_header.crit))
        (unsupported "critical JWT header fields are unsupported")

  unfoldable pub reject_encryption : JsonWebTokenAlgorithm t → Check
  reject_encryption (encryption alg) = err (
      unsupported (
        "JWE encryption is not currently supported (found algorithm "
        +++ quoted (t.encryption_text alg)
        +++ ")"))
  reject_encryption _ = ok tt

module _ {p : Platform.Platform} {t : Suite} (v : JwtClaimsVerifier p t) where
  unfoldable pub check_issuer : Option (UrlText p) → Check
  check_issuer none = err (invalid_issuer "missing issuer claim")
  check_issuer (some issuer) = guard (Platform.eq p issuer v.issuer) (
      invalid_issuer
        ("expected " +++ quoted v.issuer.text +++ " (found " +++ quoted issuer.text +++ ")"))

  -- The first audience that is not trusted ends the check.
  unfoldable pub reject_untrusted : Option String → Check
  reject_untrusted none = ok tt
  reject_untrusted (some aud) = err (invalid_audience (quoted aud +++ " is not a trusted audience"))

  unfoldable pub check_audiences : Option (List String) → Check
  unfolding reject_untrusted
  check_audiences none = err (invalid_audience "missing audiences claim")
  check_audiences (some audiences) =
      if not (any (λ aud. aud == v.client_id) audiences)
      then err (
          invalid_audience (
            "must contain "
            +++ quoted v.client_id
            +++ " (found audiences: "
            +++ join ", " (map quoted audiences)
            +++ ")"))
      else if ltb 1 (length audiences)
      then reject_untrusted (
          find (λ aud. not (v.other_aud_verifier_fn aud))
            (filter (λ aud. not (aud == v.client_id)) audiences))
      else ok tt

  unfoldable pub check_allowed : t.SigningAlg → Option (List t.SigningAlg) → Check
  check_allowed alg none = ok tt
  check_allowed alg (some allowed_algs) = guard (any (t.alg_eq alg) allowed_algs) (
      signature_verification (
        disallowed_alg (
          "algorithm "
          +++ quoted (t.alg_text alg)
          +++ " is not one of: "
          +++ join ", " (map t.alg_text allowed_algs))))

module _ {p : Platform.Platform} {t : Suite} {C : Type 0} (v : JwtClaimsVerifier p t)
    (jwt : JsonWebToken t C) where
  unfoldable pub verify_with_secret :
      t.SigningAlg → Option String → Result C ClaimsVerificationError
  verify_with_secret alg (some client_secret) =
      map_err signature_verification
        (verified_payload jwt alg (t.new_symmetric (as_bytes client_secret)))
  verify_with_secret alg none = err (
      signature_verification
        (disallowed_alg "symmetric signatures are disallowed for public clients"))

  unfoldable pub verify_with_keys : t.SigningAlg → Result C ClaimsVerificationError
  verify_with_keys alg = map_err signature_verification (do
    key ← select_key t (filter (is_eligible t alg jwt.header.kid) v.signature_keys.keys)
    verified_payload jwt alg key)

  unfoldable pub verify_with_alg : t.SigningAlg → Result C ClaimsVerificationError
  unfolding verify_with_secret verify_with_keys
  verify_with_alg alg = do
    check_allowed v alg v.allowed_algs
    if t.uses_shared_secret alg
        then verify_with_secret alg v.client_secret
        else verify_with_keys alg

  -- Encryption is rejected before: the source has `unreachable!()` there.
  unfoldable pub verify_signed : JsonWebTokenAlgorithm t → Result C ClaimsVerificationError
  unfolding verify_with_alg
  verify_signed (encryption _) = err ClaimsVerificationError.panic
  verify_signed (signature alg) = verify_with_alg alg
  verify_signed JsonWebTokenAlgorithm.none = err no_signature

  unfoldable pub verified_claims : ⦃access : ClaimsAccess p C⦄ → Result C ClaimsVerificationError
  verified_claims ⦃access⦄ = do
    validate_jose_header jwt.header
    reject_encryption jwt.header.alg
    if v.iss_required then check_issuer v (access.issuer jwt.payload) else ok tt
    if v.aud_match_required then check_audiences v (access.audiences jwt.payload) else ok tt
    if v.is_signature_check_enabled then verify_signed jwt.header.alg else ok jwt.payload
