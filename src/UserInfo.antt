-- ===== src/UserInfo.antt =====
-- src/user_info.rs: UserInfoRequest, its settings and what it makes of a response.
pub mod Exact
pub mod Sending
use openidconnect_rs.Prelude.{
  ℕ, String, Bool, Option, none, some, List, nat_eq, if◌then◌else◌, Result, ok, err, ◌>>=◌, map_err,
}
use openidconnect_rs.Text.{◌+++◌, quoted}
use openidconnect_rs.Types.Errors.{ClaimsVerificationError, no_signature}
use openidconnect_rs.Types.Platform.{Platform, UrlText}
use openidconnect_rs.Traits.{Suite}
use openidconnect_rs.Jwt.Encoding.{Codec, visit_str}
use openidconnect_rs.Claims.UserInfo.{UserInfoClaimsImpl}
use openidconnect_rs.Verification.UserInfo
use openidconnect_rs.Verification.UserInfo.{UserInfoVerifier, check_subject}
use openidconnect_rs.Http.{
  Http, HttpResponse, content_type_has_essence, mime_type_json, mime_type_jwt,
}

-- What the response is read by: the JSON of claims, with the path of an error, UTF-8, and the tokens'
-- codec, whose messages `custom` makes errors of.
pub record Reader (p : Platform) (t : Suite) (AC GC : Type 0) : Type 1 where
  pub ParseError : Type 0
  pub claims_from_slice : List ℕ → Result (UserInfoClaimsImpl p AC GC) ParseError
  pub custom : String → ParseError
  pub from_utf8 : List ℕ → Option String
  pub codec : Codec t (UserInfoClaimsImpl p AC GC)

pub data UserInfoError (ParseError RE : Type 0) : Type 0 where
  claims_verification : ClaimsVerificationError → UserInfoError ParseError RE
  parse : ParseError → UserInfoError ParseError RE
  request : RE → UserInfoError ParseError RE
  response : ℕ → List ℕ → String → UserInfoError ParseError RE
  other : String → UserInfoError ParseError RE
  -- Not a value of the source: the call panics.
  panic : UserInfoError ParseError RE

pub record UserInfoRequest (p : Platform) (t : Suite) : Type 0 where
  pub url : UrlText p
  pub access_token : String
  pub require_signed_response : Bool
  pub signed_response_verifier : UserInfoVerifier p t

module _ {p : Platform} {t : Suite} where
  unfoldable pub require_signed_response : UserInfoRequest p t → Bool → UserInfoRequest p t
  require_signed_response r b = record r { require_signed_response = b }

  unfoldable pub require_issuer_match : UserInfoRequest p t → Bool → UserInfoRequest p t
  unfolding UserInfo.require_issuer_match
  require_issuer_match r b = record r {
    signed_response_verifier = UserInfo.require_issuer_match r.signed_response_verifier b;
  }

  unfoldable pub require_audience_match : UserInfoRequest p t → Bool → UserInfoRequest p t
  unfolding UserInfo.require_audience_match
  require_audience_match r b = record r {
    signed_response_verifier = UserInfo.require_audience_match r.signed_response_verifier b;
  }

module _ (h : Http) where
  -- A response without a content type is taken as JSON.
  unfoldable pub content_type_or_json : Option h.HeaderValue → h.HeaderValue
  content_type_or_json none = h.from_static mime_type_json
  content_type_or_json (some content_type) = content_type

module _ {p : Platform} {t : Suite} {AC GC : Type 0} (rd : Reader p t AC GC) (RE : Type 0) where
  -- `UserInfoClaims::from_json`
  unfoldable pub from_json :
      List ℕ → Option String → Result (UserInfoClaimsImpl p AC GC) (UserInfoError rd.ParseError RE)
  from_json user_info_json expected_subject = do
    user_info ← map_err parse (rd.claims_from_slice user_info_json)
    map_err claims_verification (check_subject expected_subject user_info)

  module _ (h : Http) (r : UserInfoRequest p t) where
    -- The arm for JSON.
    unfoldable pub json_response :
        List ℕ → Result (UserInfoClaimsImpl p AC GC) (UserInfoError rd.ParseError RE)
    unfolding from_json
    json_response body =
        if r.require_signed_response
        then err (claims_verification no_signature)
        else from_json body r.signed_response_verifier.expected_subject

    -- The arm for JWT, with `UserInfoJsonWebToken::claims`.
    unfoldable pub jwt_response :
        Option String → Result (UserInfoClaimsImpl p AC GC) (UserInfoError rd.ParseError RE)
    jwt_response none = err (other "response body has invalid UTF-8 encoding")
    jwt_response (some jwt_str) = do
      jwt ← map_err (λ e. parse (rd.custom e)) (visit_str rd.codec jwt_str)
      map_err claims_verification (UserInfo.verified_claims r.signed_response_verifier jwt)

    -- The `match` on the content type.
    unfoldable pub typed_response :
        HttpResponse h
        → h.HeaderValue
        → Result (UserInfoClaimsImpl p AC GC) (UserInfoError rd.ParseError RE)
    unfolding json_response jwt_response
    typed_response http_response content_type =
        if content_type_has_essence h content_type mime_type_json
        then json_response http_response.body
        else if content_type_has_essence h content_type mime_type_jwt
        then jwt_response (rd.from_utf8 http_response.body)
        else err (
            response http_response.status_code http_response.body
              ("unexpected response Content-Type: " +++ quoted (h.debug_text content_type)))

    unfoldable pub user_info_response :
        HttpResponse h → Result (UserInfoClaimsImpl p AC GC) (UserInfoError rd.ParseError RE)
    unfolding typed_response content_type_or_json
    user_info_response http_response =
        if nat_eq http_response.status_code 200
        then typed_response http_response (content_type_or_json h http_response.content_type)
        else err
            (response http_response.status_code http_response.body "unexpected HTTP status code")
