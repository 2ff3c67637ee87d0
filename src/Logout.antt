-- ===== src/Logout.antt =====
-- src/logout.rs: LogoutRequest.
pub mod Exact
use openidconnect_rs.Prelude.{
  String, Bool, false, Option, none, some, List, [], ◌∷◌, ◌++◌, is_empty, ◌==◌, if◌then◌else◌,
}
use openidconnect_rs.Types.Platform.{Platform, UrlText}
use openidconnect_rs.Authorization.{join_vec}

-- What the crate url does to the query of a URL.
pub record Query (p : Platform) : Type 0 where
  -- `query_pairs_mut`, which gives a URL without a query an empty one
  pub query_pairs_mut : p.Url → p.Url
  pub append_pair : p.Url → String → String → p.Url
  pub query : p.Url → Option String
  pub set_query : p.Url → Option String → p.Url

pub record LogoutRequestParameters (p : Platform) : Type 0 where
  pub id_token_hint : Option String
  pub logout_hint : Option String
  pub client_id : Option String
  pub post_logout_redirect_uri : Option (UrlText p)
  pub state : Option String
  pub ui_locales : List String

pub record LogoutRequest (p : Platform) : Type 0 where
  pub end_session_endpoint : UrlText p
  pub parameters : LogoutRequestParameters p

module _ {p : Platform} where
  -- `From<EndSessionUrl>`, with the derived `Default` of the parameters
  unfoldable pub from : UrlText p → LogoutRequest p
  from value = record {
    end_session_endpoint = value;
    parameters = record {
      id_token_hint = none;
      logout_hint = none;
      client_id = none;
      post_logout_redirect_uri = none;
      state = none;
      ui_locales = [];
    };
  }

  -- The hint is the text of an ID token.
  unfoldable pub set_id_token_hint : LogoutRequest p → String → LogoutRequest p
  set_id_token_hint r hint = record r {
    parameters = record r.parameters { id_token_hint = some hint };
  }

  unfoldable pub set_logout_hint : LogoutRequest p → String → LogoutRequest p
  set_logout_hint r hint = record r { parameters = record r.parameters { logout_hint = some hint } }

  unfoldable pub set_client_id : LogoutRequest p → String → LogoutRequest p
  set_client_id r id = record r { parameters = record r.parameters { client_id = some id } }

  unfoldable pub set_post_logout_redirect_uri : LogoutRequest p → UrlText p → LogoutRequest p
  set_post_logout_redirect_uri r uri = record r {
    parameters = record r.parameters { post_logout_redirect_uri = some uri };
  }

  unfoldable pub set_state : LogoutRequest p → String → LogoutRequest p
  set_state r state = record r { parameters = record r.parameters { state = some state } }

  unfoldable pub add_ui_locale : LogoutRequest p → String → LogoutRequest p
  add_ui_locale r locale = record r {
    parameters = record r.parameters { ui_locales = r.parameters.ui_locales ++ locale ∷ [] };
  }

-- `query() == Some("")`
unfoldable pub is_empty_query : Option String → Bool
is_empty_query none = false
is_empty_query (some s) = s == ""

module _ {p : Platform} (q : Query p) where
  -- `add_pair!`
  unfoldable pub add_pair {ℓ} : {T : Type ℓ} → (T → String) → String → Option T → p.Url → p.Url
  add_pair as_text name none url = url
  add_pair as_text name (some value) url = q.append_pair url name (as_text value)

  unfoldable pub add_locales : List String → p.Url → p.Url
  unfolding join_vec
  add_locales ui_locales url =
      if is_empty ui_locales
      then url
      else q.append_pair url "ui_locales" (join_vec (λ l. l) ui_locales)

  unfoldable pub http_get_url : LogoutRequest p → p.Url
  unfolding add_pair add_locales is_empty_query
  http_get_url r =
      let text = λ (s : String). s in
      let start = q.query_pairs_mut r.end_session_endpoint.url in
      let hinted = add_pair text "id_token_hint" r.parameters.id_token_hint start in
      let user = add_pair text "logout_hint" r.parameters.logout_hint hinted in
      let client = add_pair text "client_id" r.parameters.client_id user in
      let back =
        add_pair (λ (u : UrlText p). u.text) "post_logout_redirect_uri"
          r.parameters.post_logout_redirect_uri client in
      let stated = add_pair text "state" r.parameters.state back in
      let url = add_locales r.parameters.ui_locales stated in
      if is_empty_query (q.query url) then q.set_query url none else url
