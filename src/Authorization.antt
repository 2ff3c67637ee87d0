-- ===== src/Authorization.antt =====
-- src/lib.rs: AuthenticationFlow and AuthorizationRequest.
pub mod Settings
pub mod Exact
use openidconnect_rs.Prelude.{
  String, Bool, Option, none, some, List, [], ◌∷◌, ◌++◌, map, is_empty, if◌then◌else◌,
}
use openidconnect_rs.Text.{join, decimal}
use openidconnect_rs.Types.Platform.{Platform, UrlText}
use openidconnect_rs.Types.Duration.{Duration, as_secs}
use openidconnect_rs.Core.Values.ResponseType
use openidconnect_rs.Oauth2
use openidconnect_rs.Oauth2.{Oauth2}

abbrev pub openid_scope : String
openid_scope = "openid"

-- The traits AuthDisplay, AuthPrompt and ResponseType, which are texts.
pub record Words : Type 1 where
  pub Display : Type 0
  pub Prompt : Type 0
  pub Response : Type 0
  pub display_text : Display → String
  pub prompt_text : Prompt → String
  pub response_text : Response → String

pub data AuthenticationFlow (RT : Type 0) : Type 0 where
  authorization_code : AuthenticationFlow RT
  implicit : Bool → AuthenticationFlow RT
  hybrid : List RT → AuthenticationFlow RT

unfoldable pub join_vec {ℓ} : {T : Type ℓ} → (T → String) → List T → String
unfolding join
join_vec as_ref entries = join " " (map as_ref entries)

pub record AuthorizationRequest {p : Platform} (o : Oauth2 p) (w : Words) : Type 0 where
  pub inner : o.Request
  pub acr_values : List String
  pub authentication_flow : AuthenticationFlow w.Response
  pub claims_locales : List String
  pub display : Option w.Display
  pub id_token_hint : Option String
  pub login_hint : Option String
  pub max_age : Option Duration
  pub nonce : String
  pub prompts : List w.Prompt
  pub ui_locales : List String

module _ {p : Platform} {o : Oauth2 p} {w : Words} where
  unfoldable pub add_scope : AuthorizationRequest o w → String → AuthorizationRequest o w
  add_scope r scope = record r { inner = o.add_scope r.inner scope }

  unfoldable pub add_scopes : AuthorizationRequest o w → List String → AuthorizationRequest o w
  add_scopes r scopes = record r { inner = o.add_scopes r.inner scopes }

  unfoldable pub add_extra_param :
      AuthorizationRequest o w → String → String → AuthorizationRequest o w
  add_extra_param r name value = record r { inner = o.add_extra_param r.inner name value }

  unfoldable pub set_pkce_challenge :
      AuthorizationRequest o w → o.PkceCodeChallenge → AuthorizationRequest o w
  set_pkce_challenge r challenge = record r { inner = o.set_pkce_challenge r.inner challenge }

  unfoldable pub add_auth_context_value :
      AuthorizationRequest o w → String → AuthorizationRequest o w
  add_auth_context_value r acr_value = record r { acr_values = r.acr_values ++ acr_value ∷ [] }

  unfoldable pub add_claims_locale : AuthorizationRequest o w → String → AuthorizationRequest o w
  add_claims_locale r locale = record r { claims_locales = r.claims_locales ++ locale ∷ [] }

  unfoldable pub set_display : AuthorizationRequest o w → w.Display → AuthorizationRequest o w
  set_display r display = record r { display = some display }

  -- The hint is the text of an ID token.
  unfoldable pub set_id_token_hint : AuthorizationRequest o w → String → AuthorizationRequest o w
  set_id_token_hint r hint = record r { id_token_hint = some hint }

  unfoldable pub set_login_hint : AuthorizationRequest o w → String → AuthorizationRequest o w
  set_login_hint r hint = record r { login_hint = some hint }

  unfoldable pub set_max_age : AuthorizationRequest o w → Duration → AuthorizationRequest o w
  set_max_age r max_age = record r { max_age = some max_age }

  unfoldable pub add_prompt : AuthorizationRequest o w → w.Prompt → AuthorizationRequest o w
  add_prompt r prompt = record r { prompts = r.prompts ++ prompt ∷ [] }

  unfoldable pub add_ui_locale : AuthorizationRequest o w → String → AuthorizationRequest o w
  add_ui_locale r locale = record r { ui_locales = r.ui_locales ++ locale ∷ [] }

  unfoldable pub set_redirect_uri : AuthorizationRequest o w → UrlText p → AuthorizationRequest o w
  set_redirect_uri r url = record r { inner = o.override_redirect_uri r.inner url }

-- The `match` on the flow; the response type of one word is its `to_oauth2`.
unfoldable pub response_type_text : {RT : Type 0} → (RT → String) → AuthenticationFlow RT → String
unfolding join_vec ResponseType.as_ref
response_type_text as_ref authorization_code = ResponseType.as_ref ResponseType.code
response_type_text as_ref (implicit include_token) =
    if include_token
    then join_vec ResponseType.as_ref (ResponseType.id_token ∷ ResponseType.token ∷ [])
    else ResponseType.as_ref ResponseType.id_token
response_type_text as_ref (hybrid response_types) = join_vec as_ref response_types

module _ {p : Platform} (o : Oauth2 p) where
  -- `if !values.is_empty() { inner = inner.add_extra_param(name, join_vec(values)) }`
  unfoldable pub add_joined {ℓ} :
      {T : Type ℓ} → (T → String) → String → List T → o.Request → o.Request
  add_joined as_ref name values inner =
      if is_empty values then inner else o.add_extra_param inner name (join_vec as_ref values)

  -- `if let Some(value) = option { inner = inner.add_extra_param(name, value) }`
  unfoldable pub add_given {ℓ} :
      {T : Type ℓ} → (T → String) → String → Option T → o.Request → o.Request
  add_given as_text name none inner = inner
  add_given as_text name (some value) inner = o.add_extra_param inner name (as_text value)

module _ {p : Platform} {o : Oauth2 p} {w : Words} where
  -- `inner` as `url` leaves it.
  unfoldable pub with_parameters : AuthorizationRequest o w → o.Request
  unfolding add_joined add_given response_type_text
  with_parameters r =
      let text = λ (s : String). s in
      let start = o.set_response_type r.inner (response_type_text w.response_text flow) in
      let nonced = o.add_extra_param start "nonce" r.nonce in
      let acr = add_joined o text "acr_values" r.acr_values nonced in
      let locales = add_joined o text "claims_locales" r.claims_locales acr in
      let displayed = add_given o w.display_text "display" r.display locales in
      let hinted = add_given o text "id_token_hint" r.id_token_hint displayed in
      let login = add_given o text "login_hint" r.login_hint hinted in
      let aged = add_given o (λ d. decimal (as_secs d)) "max_age" r.max_age login in
      let prompted = add_joined o w.prompt_text "prompt" r.prompts aged in
      add_joined o text "ui_locales" r.ui_locales prompted
    where
      open r use {authentication_flow as flow}

  unfoldable pub url : AuthorizationRequest o w → p.Url × String × String
  unfolding with_parameters
  url r = let (u, state) = o.url (with_parameters r) in (u, state, r.nonce)
