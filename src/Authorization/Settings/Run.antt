-- ===== src/Authorization/Settings/Run.antt =====
-- What a sequence of settings does to a request.
use openidconnect_rs.Prelude.{String, ◌≡◌, refl, ◌∙◌, some, none, List, [], ◌∷◌, ◌++◌, map}
use openidconnect_rs.Text.{decimal}
use openidconnect_rs.Types.Duration.{as_secs}
use openidconnect_rs.Authorization.Exact.{spaced, given, text_of, parameters}
use mathlib.Core.List.{append-nil, append_assoc}
use openidconnect_rs.Types.Platform.{Platform}
use openidconnect_rs.Builder
use openidconnect_rs.Builder.{given_all, given_last, run_all, run_last, run_same}
use openidconnect_rs.Oauth2.{Oauth2, RequestLaws}
use openidconnect_rs.Authorization.{
  Words, AuthorizationRequest, add_scope, add_scopes, add_extra_param, set_pkce_challenge,
  add_auth_context_value, add_claims_locale, set_display, set_id_token_hint, set_login_hint,
  set_max_age, add_prompt, add_ui_locale, set_redirect_uri,
}
use openidconnect_rs.Authorization.Settings.{
  Setting, apply, run, acr_values_of, claims_locales_of, prompts_of, ui_locales_of, scopes_of,
  extra_params_of, display_of, id_token_hint_of, login_hint_of, max_age_of, pkce_challenge_of,
  redirect_uri_of, claims_locale, prompt, ui_locale, display, id_token_hint, login_hint, max_age,
  scope, scopes, extra_param, pkce_challenge, auth_context_value, redirect_uri,
}

module _ {p : Platform} {o : Oauth2 p} (l : RequestLaws o) {w : Words} where
  -- What is sent after the settings, if `before` is what a request sends at first.
  pub configured_sent :
      (ss : List (Setting o w)) (r : AuthorizationRequest o w)
      → l.sent (run ss r).inner ≡ record {
        response_type = (l.sent r.inner).response_type;
        state = (l.sent r.inner).state;
        scopes = (l.sent r.inner).scopes ++ given_all scopes_of ss;
        extra_params = (l.sent r.inner).extra_params ++ given_all extra_params_of ss;
        redirect_uri = given_last redirect_uri_of (l.sent r.inner).redirect_uri ss;
        pkce_challenge = given_last pkce_challenge_of (l.sent r.inner).pkce_challenge ss;
      }
  unfolding apply Builder.run given_all given_last add_scope add_scopes add_extra_param
      set_pkce_challenge add_auth_context_value add_claims_locale set_display set_id_token_hint
      set_login_hint set_max_age add_prompt add_ui_locale set_redirect_uri
  configured_sent [] r = simp append-nil
  configured_sent (scope x ∷ ss) r =
      configured_sent ss (apply (scope x) r) ∙ simp (l.sent-add_scope, append_assoc)
  configured_sent (scopes x ∷ ss) r =
      configured_sent ss (apply (scopes x) r) ∙ simp (l.sent-add_scopes, append_assoc)
  configured_sent (extra_param n v ∷ ss) r =
      configured_sent ss (apply (extra_param n v) r) ∙ simp (l.sent-add_extra_param, append_assoc)
  configured_sent (pkce_challenge x ∷ ss) r =
      configured_sent ss (apply (pkce_challenge x) r) ∙ simp (l.sent-set_pkce_challenge)
  configured_sent (redirect_uri x ∷ ss) r =
      configured_sent ss (apply (redirect_uri x) r) ∙ simp (l.sent-override_redirect_uri)
  configured_sent (s ∷ ss) r = configured_sent ss (apply s r)

module _ {p : Platform} {o : Oauth2 p} {w : Words} where
  acr_values-apply :
      (s : Setting o w) (r : AuthorizationRequest o w)
      → (apply s r).acr_values ≡ r.acr_values ++ acr_values_of s
  unfolding apply add_scope add_scopes add_extra_param set_pkce_challenge add_auth_context_value
      add_claims_locale set_display set_id_token_hint set_login_hint set_max_age add_prompt
      add_ui_locale set_redirect_uri
  acr_values-apply (auth_context_value v) r = refl
  acr_values-apply s r = simp append-nil

  claims_locales-apply :
      (s : Setting o w) (r : AuthorizationRequest o w)
      → (apply s r).claims_locales ≡ r.claims_locales ++ claims_locales_of s
  unfolding apply add_scope add_scopes add_extra_param set_pkce_challenge add_auth_context_value
      add_claims_locale set_display set_id_token_hint set_login_hint set_max_age add_prompt
      add_ui_locale set_redirect_uri
  claims_locales-apply (claims_locale v) r = refl
  claims_locales-apply s r = simp append-nil

  prompts-apply :
      (s : Setting o w) (r : AuthorizationRequest o w)
      → (apply s r).prompts ≡ r.prompts ++ prompts_of s
  unfolding apply add_scope add_scopes add_extra_param set_pkce_challenge add_auth_context_value
      add_claims_locale set_display set_id_token_hint set_login_hint set_max_age add_prompt
      add_ui_locale set_redirect_uri
  prompts-apply (prompt v) r = refl
  prompts-apply s r = simp append-nil

  ui_locales-apply :
      (s : Setting o w) (r : AuthorizationRequest o w)
      → (apply s r).ui_locales ≡ r.ui_locales ++ ui_locales_of s
  unfolding apply add_scope add_scopes add_extra_param set_pkce_challenge add_auth_context_value
      add_claims_locale set_display set_id_token_hint set_login_hint set_max_age add_prompt
      add_ui_locale set_redirect_uri
  ui_locales-apply (ui_locale v) r = refl
  ui_locales-apply s r = simp append-nil

  display-apply :
      (s : Setting o w) (r : AuthorizationRequest o w)
      → (apply s r).display ≡ elim (display_of s) [ none ↦ r.display | some v ↦ some v ]
  unfolding apply add_scope add_scopes add_extra_param set_pkce_challenge add_auth_context_value
      add_claims_locale set_display set_id_token_hint set_login_hint set_max_age add_prompt
      add_ui_locale set_redirect_uri
  display-apply (display v) r = refl
  display-apply s r = refl

  id_token_hint-apply :
      (s : Setting o w) (r : AuthorizationRequest o w)
      → (apply s r).id_token_hint
        ≡ elim (id_token_hint_of s) [ none ↦ r.id_token_hint | some v ↦ some v ]
  unfolding apply add_scope add_scopes add_extra_param set_pkce_challenge add_auth_context_value
      add_claims_locale set_display set_id_token_hint set_login_hint set_max_age add_prompt
      add_ui_locale set_redirect_uri
  id_token_hint-apply (id_token_hint v) r = refl
  id_token_hint-apply s r = refl

  login_hint-apply :
      (s : Setting o w) (r : AuthorizationRequest o w)
      → (apply s r).login_hint ≡ elim (login_hint_of s) [ none ↦ r.login_hint | some v ↦ some v ]
  unfolding apply add_scope add_scopes add_extra_param set_pkce_challenge add_auth_context_value
      add_claims_locale set_display set_id_token_hint set_login_hint set_max_age add_prompt
      add_ui_locale set_redirect_uri
  login_hint-apply (login_hint v) r = refl
  login_hint-apply s r = refl

  max_age-apply :
      (s : Setting o w) (r : AuthorizationRequest o w)
      → (apply s r).max_age ≡ elim (max_age_of s) [ none ↦ r.max_age | some v ↦ some v ]
  unfolding apply add_scope add_scopes add_extra_param set_pkce_challenge add_auth_context_value
      add_claims_locale set_display set_id_token_hint set_login_hint set_max_age add_prompt
      add_ui_locale set_redirect_uri
  max_age-apply (max_age v) r = refl
  max_age-apply s r = refl

  nonce-apply : (s : Setting o w) (r : AuthorizationRequest o w) → (apply s r).nonce ≡ r.nonce
  unfolding apply add_scope add_scopes add_extra_param set_pkce_challenge add_auth_context_value
      add_claims_locale set_display set_id_token_hint set_login_hint set_max_age add_prompt
      add_ui_locale set_redirect_uri
  nonce-apply (scope v) r = refl
  nonce-apply s r = refl

  authentication_flow-apply :
      (s : Setting o w) (r : AuthorizationRequest o w)
      → (apply s r).authentication_flow ≡ r.authentication_flow
  unfolding apply add_scope add_scopes add_extra_param set_pkce_challenge add_auth_context_value
      add_claims_locale set_display set_id_token_hint set_login_hint set_max_age add_prompt
      add_ui_locale set_redirect_uri
  authentication_flow-apply (scope v) r = refl
  authentication_flow-apply s r = refl

  -- The parameters of OpenID Connect after the settings, if the request starts without any.
  pub record Starts (r : AuthorizationRequest o w) : Type 0 where
    pub acr_values : r.acr_values ≡ []
    pub claims_locales : r.claims_locales ≡ []
    pub display : r.display ≡ none
    pub id_token_hint : r.id_token_hint ≡ none
    pub login_hint : r.login_hint ≡ none
    pub max_age : r.max_age ≡ none
    pub prompts : r.prompts ≡ []
    pub ui_locales : r.ui_locales ≡ []

  abbrev pub configured_parameters : String → List (Setting o w) → List (String × String)
  configured_parameters nonce ss =
      ("nonce", nonce)
      ∷ (spaced "acr_values" (given_all acr_values_of ss)
          ++ (spaced "claims_locales" (given_all claims_locales_of ss)
              ++ (given "display" (text_of w.display_text (given_last display_of none ss))
                  ++ (given "id_token_hint" (given_last id_token_hint_of none ss)
                      ++ (given "login_hint" (given_last login_hint_of none ss)
                          ++ (given "max_age"
                                (text_of (λ d. decimal (as_secs d)) (given_last max_age_of none ss))
                              ++ (spaced "prompt" (map w.prompt_text (given_all prompts_of ss))
                                  ++ spaced "ui_locales" (given_all ui_locales_of ss))))))))

  pub flow_run :
      (ss : List (Setting o w)) (r : AuthorizationRequest o w)
      → (run ss r).authentication_flow ≡ r.authentication_flow
  flow_run = run_same apply (λ r. r.authentication_flow) authentication_flow-apply

  pub nonce_run :
      (ss : List (Setting o w)) (r : AuthorizationRequest o w) → (run ss r).nonce ≡ r.nonce
  nonce_run = run_same apply (λ r. r.nonce) nonce-apply

  pub parameters-run :
      (ss : List (Setting o w)) (r : AuthorizationRequest o w)
      → Starts r
      → parameters (run ss r) ≡ configured_parameters r.nonce ss
  parameters-run ss r start = simp (
    nonce_run ss r,
    run_all apply (λ r. r.acr_values) acr_values_of acr_values-apply ss r,
    run_all apply (λ r. r.claims_locales) claims_locales_of claims_locales-apply ss r,
    run_all apply (λ r. r.prompts) prompts_of prompts-apply ss r,
    run_all apply (λ r. r.ui_locales) ui_locales_of ui_locales-apply ss r,
    run_last apply (λ r. r.display) display_of display-apply ss r,
    run_last apply (λ r. r.id_token_hint) id_token_hint_of id_token_hint-apply ss r,
    run_last apply (λ r. r.login_hint) login_hint_of login_hint-apply ss r,
    run_last apply (λ r. r.max_age) max_age_of max_age-apply ss r,
    start.acr_values,
    start.claims_locales,
    start.display,
    start.id_token_hint,
    start.login_hint,
    start.max_age,
    start.prompts,
    start.ui_locales,
  )
