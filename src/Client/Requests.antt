-- ===== src/Client/Requests.antt =====
-- The requests that a client authorizes: Client::authorize_url, any setters, AuthorizationRequest::url.
use openidconnect_rs.Prelude.{
  String, ◌≡◌, arith, ◌∙◌, ap, Bool, List, [], ◌∷◌, ◌++◌, Bool-cases, inl, inr, if◌then◌else◌,
}
use mathlib.Core.List.{append_assoc}
use openidconnect_rs.Types.Platform.{Platform}
use openidconnect_rs.Traits.{Suite}
use openidconnect_rs.Oauth2.{Oauth2, RequestLaws}
use openidconnect_rs.Authorization.{
  Words, AuthenticationFlow, AuthorizationRequest, add_scope, with_parameters, url, openid_scope,
}
use openidconnect_rs.Builder.{given_all, given_last}
use openidconnect_rs.Authorization.Settings.{
  Setting, run, scopes_of, extra_params_of, pkce_challenge_of, redirect_uri_of,
}
use openidconnect_rs.Authorization.Settings.Run.{
  Starts, configured_parameters, configured_sent, parameters-run, flow_run, nonce_run,
}
use openidconnect_rs.Authorization.Exact.{flow_words, sent-with_parameters}
use openidconnect_rs.Client.{Client, authorize_url}

abbrev pub first_scopes : Bool → List String
first_scopes use_openid_scope = if use_openid_scope then openid_scope ∷ [] else []

module _ {p : Platform} {o : Oauth2 p} {w : Words} (l : RequestLaws o) where
  pair_of :
      (r : AuthorizationRequest o w) {state nonce : String}
      → (l.sent (with_parameters r)).state ≡ state
      → r.nonce ≡ nonce
      → url r ≡ ((o.url (with_parameters r)).0, state, nonce)
  unfolding url
  pair_of r h k = cc (l.state-url (with_parameters r), h, k)

module _ {p : Platform} {o : Oauth2 p} (l : RequestLaws o) {t : Suite} (w : Words) (c : Client o t)
    (flow : AuthenticationFlow w.Response) (state_fn nonce_fn : Unit {0} → String) where
  starts : Starts (authorize_url {w = w} c flow state_fn nonce_fn)
  unfolding authorize_url add_scope
  starts = elim (Bool-cases c.use_openid_scope) [
    | inl on ↦ rw on (search)
    | inr off ↦ rw off (search)
  ]

  flow_fresh : (authorize_url {w = w} c flow state_fn nonce_fn).authentication_flow ≡ flow
  unfolding authorize_url add_scope
  flow_fresh = ground arith

  nonce_fresh : (authorize_url {w = w} c flow state_fn nonce_fn).nonce ≡ nonce_fn tt
  unfolding authorize_url add_scope
  nonce_fresh = ground arith

  sent_fresh :
      l.sent (authorize_url {w = w} c flow state_fn nonce_fn).inner
      ≡ record (l.sent (o.authorize_url c.oauth2_client state_fn)) {
        scopes = first_scopes c.use_openid_scope;
        extra_params = [];
        state = state_fn tt;
      }
  unfolding authorize_url add_scope
  sent_fresh = elim (Bool-cases c.use_openid_scope) [
    | inl on ↦ rw on (simp (l.sent-add_scope, l.fresh_scopes, l.fresh_extra_params, l.fresh_state))
    | inr off ↦ rw off (λ i. record (l.sent (o.authorize_url c.oauth2_client state_fn)) {
      scopes = l.fresh_scopes c.oauth2_client state_fn i;
      extra_params = l.fresh_extra_params c.oauth2_client state_fn i;
      state = l.fresh_state c.oauth2_client state_fn i;
    })
  ]

  -- Whatever setters are called on the request that a client makes, its URL tells the provider the
  -- response type of the flow, the state that is returned, the scope openid unless the client disabled
  -- it and then the scopes that were added in their order, and as parameters those that were added, the
  -- nonce that is returned, the values given to each list setter in order and the last value given to
  -- each other setter, and nothing for what was not set.
  pub authorized_exact :
      (ss : List (Setting o w))
      → (q : o.Request) × (url (run ss (authorize_url c flow state_fn nonce_fn))
          ≡ ((o.url q).0, state_fn tt, nonce_fn tt))
        × (l.sent q ≡ record {
          response_type = flow_words w flow;
          state = state_fn tt;
          scopes = first_scopes c.use_openid_scope ++ given_all scopes_of ss;
          extra_params = given_all extra_params_of ss ++ configured_parameters (nonce_fn tt) ss;
          redirect_uri =
              given_last redirect_uri_of
                (l.sent (o.authorize_url c.oauth2_client state_fn)).redirect_uri
                ss;
          pkce_challenge =
              given_last pkce_challenge_of
                (l.sent (o.authorize_url c.oauth2_client state_fn)).pkce_challenge
                ss;
        })
  unfolding authorize_url
  authorized_exact ss =
      let fresh : AuthorizationRequest o w = authorize_url c flow state_fn nonce_fn in
      let r = run ss fresh in
      let sends =
        sent-with_parameters l r
        ∙ simp (
          configured_sent l ss fresh,
          sent_fresh,
          parameters-run ss fresh starts,
          flow_run ss fresh,
          flow_fresh,
          nonce_fresh,
          append_assoc,
        ) in
      (
        with_parameters r,
        pair_of l r (ap (λ q. q.state) sends) (nonce_run ss fresh ∙ nonce_fresh),
        sends,
      )
