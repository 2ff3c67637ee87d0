-- ===== src/Tests/Responses.antt =====
-- A response of a provider with user info in JSON.
use openidconnect_rs.Prelude.{
  String, ◌≡◌, refl, ap, ◌∙◌, true, false, some, none, [], ◌∷◌, ok, err, inl,
}
use openidconnect_rs.Text.{to_lowercase, decimal}
use openidconnect_rs.Jwt.Encoding.{Codec}
use openidconnect_rs.Claims.UserInfo.{UserInfoClaimsImpl}
use openidconnect_rs.Http.{
  Http, HttpResponse, before_semicolon, text_has_essence, content_type_has_essence,
}
use openidconnect_rs.UserInfo.{Reader, UserInfoRequest, user_info_response}
use openidconnect_rs.Http.Essence.{IsOfType, content_type_exact}
use openidconnect_rs.UserInfo.Exact.{user_info_response_exact}
use openidconnect_rs.Tests.Sample.{clock, suite}
use openidconnect_rs.Tests.Tokens.{client, issuer, user, about_alice}

abbrev pub texts : Http
texts = record {
  HeaderValue = String;
  to_str = λ s. some s;
  from_static = λ s. s;
  from_str = λ s. some s;
  debug_text = λ s. s;
  status_text = decimal;
}

abbrev codec : Codec suite (UserInfoClaimsImpl clock Unit Unit)
codec = record {
  encode = λ bytes. "e";
  DecodeError = String;
  decode_error_text = λ e. e;
  decode = λ s. err "no";
  JsonError = String;
  json_error_text = λ e. e;
  header_to_string = λ h. ok "{}";
  header_from_slice = λ b. err "no";
  payload_to_string = λ c. ok "{}";
  payload_from_slice = λ b. err "no";
}

-- Every body is the JSON of the same claims.
abbrev pub reader : Reader clock suite Unit Unit
reader = record {
  ParseError = String;
  claims_from_slice = λ b. ok user;
  custom = λ s. s;
  from_utf8 = λ b. none;
  codec = codec;
}

abbrev asked : UserInfoRequest clock suite
asked = record {
  url = issuer;
  access_token = "t";
  require_signed_response = false;
  signed_response_verifier = record { jwt_verifier = client; expected_subject = some "alice" };
}

abbrev pub answer : HttpResponse texts
answer = record {
  status_code = 200;
  content_type = some "Application/JSON; charset=utf-8";
  body = 123 ∷ 125 ∷ [];
}

answer_has_essence :
    content_type_has_essence texts "Application/JSON; charset=utf-8" "application/json" ≡ true
unfolding content_type_has_essence text_has_essence before_semicolon to_lowercase
answer_has_essence = refl

answer_is_json : IsOfType texts answer.content_type "application/json"
answer_is_json ct e =
    (content_type_exact texts ct "application/json").0
      (ap (λ v. content_type_has_essence texts v "application/json") (cc) ∙ answer_has_essence)

user_info_response_exact_example : user_info_response reader String texts asked answer ≡ ok user
user_info_response_exact_example =
    (user_info_response_exact reader String texts asked user refl answer).1
      (refl, inl (answer_is_json, (refl, refl, about_alice)))

-- Whoever asks for the user info of alice gets it.
pub answered :
    (r : UserInfoRequest clock suite)
    → r.require_signed_response ≡ false
    → r.signed_response_verifier.expected_subject ≡ some "alice"
    → user_info_response reader String texts r answer ≡ ok user
answered r plain alice =
    (user_info_response_exact reader String texts r user refl answer).1
      (refl, inl (answer_is_json, (plain, refl, rw alice about_alice)))
