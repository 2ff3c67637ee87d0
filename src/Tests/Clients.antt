-- ===== src/Tests/Clients.antt =====
-- A client of a toy authorization endpoint, whose requests are what they send.
use openidconnect_rs.Prelude.{
  String, ◌≡◌, refl, true, false, some, none, List, [], ◌∷◌, ◌++◌, ok, Any, Result,
}
use openidconnect_rs.Text.{join}
use openidconnect_rs.Oauth2.{Oauth2, Sent, RequestLaws}
use openidconnect_rs.Authorization.{Words, implicit, url}
use openidconnect_rs.Builder.{given_all, given_last}
use openidconnect_rs.Authorization.Settings.{Setting, scope, display, prompt, run}
use openidconnect_rs.Client.{
  Client, authorize_url, id_token_verifier, client_verifier, with_algs, from_provider_metadata,
  user_info,
}
use openidconnect_rs.Client.Trust.{Trusts, IsSignedFor, client_exact, discovered_trust}
use openidconnect_rs.Client.Subject.{AsksFor, user_info_subject}
use openidconnect_rs.Core.Algorithms.{CoreJwsSigningAlgorithm}
use openidconnect_rs.Jwt.{signature}
use openidconnect_rs.Http.{HttpResponse, Request, auth_bearer}
use openidconnect_rs.Discovery.Metadata
use openidconnect_rs.Discovery.Exact.{Got}
use openidconnect_rs.Verification.JwtSettings
use openidconnect_rs.Verification.IdToken
use openidconnect_rs.Verification.IdToken.{
  verified_claims, verify_nonce, set_allowed_algs, new_public_client,
}
use openidconnect_rs.Verification.UserInfo
use openidconnect_rs.UserInfo.{UserInfoRequest}
use openidconnect_rs.UserInfo.Sending.{prepare_request, request}
use openidconnect_rs.Tests.Discovering.{documents, http_client, metadata, found}
use openidconnect_rs.Tests.Responses.{texts, reader, answer, answered}
use openidconnect_rs.Client.Requests.{authorized_exact}
use openidconnect_rs.Tests.Sample.{clock, suite}
use openidconnect_rs.Tests.Tokens.{issuer, keys, token, claims, public_run, user}

abbrev pub oauth2 : Oauth2 clock
oauth2 = record {
  Client = String;
  AuthType = Unit;
  Request = Sent clock String;
  PkceCodeChallenge = String;
  new = λ id secret auth token. id;
  set_auth_type = λ c a. c;
  set_redirect_uri = λ c u. c;
  set_introspection_uri = λ c u. c;
  set_revocation_uri = λ c u. c;
  set_device_authorization_url = λ c u. c;
  authorize_url = λ c f. record {
    response_type = "code";
    state = f tt;
    scopes = [];
    extra_params = [];
    redirect_uri = none;
    pkce_challenge = none;
  };
  add_scope = λ r s. record r { scopes = r.scopes ++ s ∷ [] };
  add_scopes = λ r ss. record r { scopes = r.scopes ++ ss };
  add_extra_param =
      λ r name value. record r { extra_params = r.extra_params ++ (name, value) ∷ [] };
  set_pkce_challenge = λ r c. record r { pkce_challenge = some c };
  set_response_type = λ r s. record r { response_type = s };
  override_redirect_uri = λ r u. record r { redirect_uri = some u };
  url = λ r. ("https://op.example/authorize", r.state);
}

abbrev laws : RequestLaws oauth2
laws = record {
  sent = λ r. r;
  fresh_state = λ c f. refl;
  fresh_scopes = λ c f. refl;
  fresh_extra_params = λ c f. refl;
  sent-add_scope = λ r s. refl;
  sent-add_scopes = λ r ss. refl;
  sent-add_extra_param = λ r n v. refl;
  sent-set_pkce_challenge = λ r c. refl;
  sent-set_response_type = λ r s. refl;
  sent-override_redirect_uri = λ r u. refl;
  state-url = λ r. refl;
}

abbrev words : Words
words = record {
  Display = String;
  Prompt = String;
  Response = String;
  display_text = λ s. s;
  prompt_text = λ s. s;
  response_text = λ s. s;
}

abbrev client : Client oauth2 suite
client = record {
  oauth2_client = "client";
  client_id = "client";
  client_secret = none;
  issuer = issuer;
  userinfo_endpoint = some issuer;
  jwks = keys;
  id_token_signing_algs = none;
  use_openid_scope = true;
}

abbrev chosen : List (Setting oauth2 words)
chosen = scope "email" ∷ prompt "login" ∷ display "page" ∷ prompt "consent" ∷ []

authorized_exact_example :
    (q : Sent clock String) × (url
        (run chosen (authorize_url client (implicit true) (λ _. "s") (λ _. "n")))
      ≡ ("https://op.example/authorize", "s", "n"))
    × (q ≡ record {
      response_type = "id_token token";
      state = "s";
      scopes = "openid" ∷ "email" ∷ [];
      extra_params = ("nonce", "n") ∷ ("display", "page") ∷ ("prompt", "login consent") ∷ [];
      redirect_uri = none;
      pkce_challenge = none;
    })
unfolding given_all given_last join
authorized_exact_example =
    authorized_exact laws words client (implicit true) (λ _. "s") (λ _. "n") chosen

client_run : verified_claims (id_token_verifier client) token (verify_nonce "n") ≡ ok claims
unfolding id_token_verifier client_verifier with_algs
client_run = public_run

client_exact_example : Trusts client token (verify_nonce "n") × (claims ≡ claims)
client_exact_example = (client_exact client token (verify_nonce "n") claims).0 client_run

discovered_run :
    verified_claims
      (id_token_verifier (from_provider_metadata oauth2 (metadata keys) "client" none))
      token
      (verify_nonce "n")
    ≡ ok claims
unfolding id_token_verifier client_verifier with_algs from_provider_metadata metadata Metadata.new
    set_allowed_algs JwtSettings.set_allowed_algs new_public_client IdToken.new JwtSettings.new
discovered_run = public_run

discovered_trust_example :
    (claims.issuer.text ≡ issuer.text)
    × Any (λ aud. aud ≡ "client") claims.audiences
    × (alg : CoreJwsSigningAlgorithm) × (token.header.alg ≡ signature alg)
    × Any (λ a. alg ≡ a) (metadata keys).id_token_signing_alg_values_supported
    × (resp : HttpResponse texts) × Got documents texts String http_client 1
        (metadata keys).jwks_uri.url
        resp
    × (documents.keys_from_slice resp.body ≡ ok (metadata keys).jwks)
    × IsSignedFor token none (metadata keys).jwks alg
discovered_trust_example =
    discovered_trust oauth2 documents texts String http_client issuer (metadata keys) "client" none
      token (verify_nonce "n") claims found discovered_run

abbrev asking : UserInfoRequest clock suite
unfolding UserInfo.new
asking = record {
  url = issuer;
  access_token = "at";
  require_signed_response = false;
  signed_response_verifier = UserInfo.new "client" issuer keys (some "alice");
}

asked : user_info client "at" (some "alice") ≡ ok asking
unfolding user_info asking
asked = refl

sending : Request String texts → Result (HttpResponse texts) String
sending q = ok answer

alice_answered : request reader String texts sending asking ≡ ok user
unfolding asking UserInfo.new request prepare_request auth_bearer sending
alice_answered = answered asking refl refl

user_info_subject_example :
    (q : Request String texts) × AsksFor reader String texts client "at" q
    × (resp : HttpResponse texts) × (sending q ≡ ok resp)
    × (user.standard_claims.sub ≡ "alice")
unfolding asking UserInfo.new
user_info_subject_example =
    user_info_subject reader String texts sending client "at" "alice" asking user asked
      alice_answered
