-- ===== src/Tests/Registering.antt =====
-- A client that is registered, and one that the provider refuses.
use openidconnect_rs.Prelude.{ℕ, String, ◌≡◌, refl, ap, ◌∙◌, true, some, [], ◌∷◌, ok, err}
use openidconnect_rs.Text.{to_lowercase, as_bytes}
use openidconnect_rs.Http.{
  HttpResponse, Request, Method, mime_type_json, content_type_has_essence, text_has_essence,
  before_semicolon,
}
use openidconnect_rs.Registration.{
  Registry, ClientRegistrationRequest, ClientRegistrationResponse, server_response, new_metadata,
  new, set_initial_access_token, new_response, register_response, register,
}
use openidconnect_rs.Registration.Exact.{
  IsRegistration, Asks, register_exact, register_response_refuses,
}
use openidconnect_rs.Http.Essence.{IsOfType, content_type_exact}
use openidconnect_rs.Tests.Sample.{clock, suite}
use openidconnect_rs.Tests.Tokens.{issuer}
use openidconnect_rs.Tests.Responses.{texts}
use openidconnect_rs.Tests.Discovering.{core_names}

abbrev client_request : ClientRegistrationRequest clock suite core_names Unit
client_request = set_initial_access_token (new (issuer ∷ []) tt) (some "secret")

abbrev registered : ClientRegistrationResponse clock suite core_names Unit Unit
registered = new_response "client-1" (issuer ∷ []) tt tt

abbrev registry : Registry clock suite core_names Unit Unit
registry = record {
  ParseError = String;
  SerializeError = String;
  ErrorResponse = String;
  metadata_to_string = λ m. ok "{}";
  from_utf8 = λ b. ok "{}";
  error_from_str = λ s. ok "invalid_redirect_uri";
  response_from_str = λ s. ok registered;
}

abbrev replied : ℕ → HttpResponse texts
replied status = record {
  status_code = status;
  content_type = some "Application/JSON; charset=utf-8";
  body = 123 ∷ 125 ∷ [];
}

abbrev posted : Request String texts
posted = record {
  url = issuer.url;
  method = Method.post;
  headers =
      ("accept", mime_type_json)
      ∷ ("content-type", mime_type_json)
      ∷ ("authorization", "Bearer secret")
      ∷ [];
  body = as_bytes "{}";
}

essence : content_type_has_essence texts "Application/JSON; charset=utf-8" mime_type_json ≡ true
unfolding content_type_has_essence text_has_essence before_semicolon to_lowercase
essence = refl

typed : (status : ℕ) → IsOfType texts (replied status).content_type mime_type_json
typed status ct e =
    (content_type_exact texts ct "application/json").0
      (ap (λ v. content_type_has_essence texts v "application/json") (cc) ∙ essence)

created : IsRegistration registry texts String (replied 201) registered
created = (refl, typed 201, "{}", refl, refl)

asks : Asks registry texts String client_request issuer posted
unfolding new new_metadata set_initial_access_token
asks = ("{}", refl, ("authorization", "Bearer secret") ∷ [], ("Bearer secret", refl, refl), refl)

register_exact_example :
    register registry texts String (λ q. ok (replied 201)) client_request issuer ≡ ok registered
register_exact_example =
    (register_exact registry texts String (λ q. ok (replied 201)) client_request issuer
        registered).1
      (posted, asks, replied 201, refl, created)

register_response_refuses_example :
    register_response registry texts String (replied 400)
    ≡ err (server_response "invalid_redirect_uri")
register_response_refuses_example =
    (register_response_refuses registry texts String (replied 400) "invalid_redirect_uri").1
      (refl, typed 400, "{}", refl, refl)
