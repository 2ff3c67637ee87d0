-- ===== src/Authorization/Settings.antt =====
-- Sequences of the setters of AuthorizationRequest, and what each field is after one.
pub mod Run
use openidconnect_rs.Prelude.{String, ◌≡◌, refl, ◌∙◌, ap, Option, none, some, List, [], ◌∷◌, ◌++◌}
use mathlib.Core.List.{append-nil, append_assoc}
use openidconnect_rs.Types.Platform.{Platform, UrlText}
use openidconnect_rs.Types.Duration.{Duration}
use openidconnect_rs.Builder
use openidconnect_rs.Oauth2.{Oauth2}
use openidconnect_rs.Authorization.{
  Words, AuthorizationRequest, add_scope, add_scopes, add_extra_param, set_pkce_challenge,
  add_auth_context_value, add_claims_locale, set_display, set_id_token_hint, set_login_hint,
  set_max_age, add_prompt, add_ui_locale, set_redirect_uri,
}

-- One call of a setter, by its name.
pub data Setting {p : Platform} (o : Oauth2 p) (w : Words) : Type 0 where
  scope : String → Setting o w
  scopes : List String → Setting o w
  extra_param : String → String → Setting o w
  pkce_challenge : o.PkceCodeChallenge → Setting o w
  auth_context_value : String → Setting o w
  claims_locale : String → Setting o w
  display : w.Display → Setting o w
  id_token_hint : String → Setting o w
  login_hint : String → Setting o w
  max_age : Duration → Setting o w
  prompt : w.Prompt → Setting o w
  ui_locale : String → Setting o w
  redirect_uri : UrlText p → Setting o w

module _ {p : Platform} {o : Oauth2 p} {w : Words} where
  pub apply : Setting o w → AuthorizationRequest o w → AuthorizationRequest o w
  unfolding add_scope add_scopes add_extra_param set_pkce_challenge add_auth_context_value
      add_claims_locale set_display set_id_token_hint set_login_hint set_max_age add_prompt
      add_ui_locale set_redirect_uri
  apply (scope s) r = add_scope r s
  apply (scopes ss) r = add_scopes r ss
  apply (extra_param n v) r = add_extra_param r n v
  apply (pkce_challenge c) r = set_pkce_challenge r c
  apply (auth_context_value v) r = add_auth_context_value r v
  apply (claims_locale l) r = add_claims_locale r l
  apply (display d) r = set_display r d
  apply (id_token_hint h) r = set_id_token_hint r h
  apply (login_hint h) r = set_login_hint r h
  apply (max_age d) r = set_max_age r d
  apply (prompt q) r = add_prompt r q
  apply (ui_locale l) r = add_ui_locale r l
  apply (redirect_uri u) r = set_redirect_uri r u

  abbrev pub run : List (Setting o w) → AuthorizationRequest o w → AuthorizationRequest o w
  run = Builder.run apply

-- What one setting gives, kind by kind.
module _ {p : Platform} {o : Oauth2 p} {w : Words} where
  abbrev pub acr_values_of : Setting o w → List String
  acr_values_of (auth_context_value v) = v ∷ []
  acr_values_of _ = []

  abbrev pub claims_locales_of : Setting o w → List String
  claims_locales_of (claims_locale v) = v ∷ []
  claims_locales_of _ = []

  abbrev pub prompts_of : Setting o w → List w.Prompt
  prompts_of (prompt v) = v ∷ []
  prompts_of _ = []

  abbrev pub ui_locales_of : Setting o w → List String
  ui_locales_of (ui_locale v) = v ∷ []
  ui_locales_of _ = []

  abbrev pub scopes_of : Setting o w → List String
  scopes_of (scope s) = s ∷ []
  scopes_of (scopes ss) = ss
  scopes_of _ = []

  abbrev pub extra_params_of : Setting o w → List (String × String)
  extra_params_of (extra_param n v) = (n, v) ∷ []
  extra_params_of _ = []

  abbrev pub display_of : Setting o w → Option w.Display
  display_of (display v) = some v
  display_of _ = none

  abbrev pub id_token_hint_of : Setting o w → Option String
  id_token_hint_of (id_token_hint v) = some v
  id_token_hint_of _ = none

  abbrev pub login_hint_of : Setting o w → Option String
  login_hint_of (login_hint v) = some v
  login_hint_of _ = none

  abbrev pub max_age_of : Setting o w → Option Duration
  max_age_of (max_age v) = some v
  max_age_of _ = none

  abbrev pub pkce_challenge_of : Setting o w → Option o.PkceCodeChallenge
  pkce_challenge_of (pkce_challenge v) = some v
  pkce_challenge_of _ = none

  abbrev pub redirect_uri_of : Setting o w → Option (UrlText p)
  redirect_uri_of (redirect_uri v) = some v
  redirect_uri_of _ = none
