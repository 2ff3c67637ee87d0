-- ===== src/Oauth2.antt =====
-- What the library takes from the crate oauth2: its client and its authorization request, with what
-- its documentation says about the URL that a request makes.
use openidconnect_rs.Prelude.{String, ◌≡◌, Option, some, List, [], ◌∷◌, ◌++◌}
use openidconnect_rs.Types.Platform.{Platform, UrlText}

pub record Oauth2 (p : Platform) : Type 1 where
  pub Client : Type 0
  pub AuthType : Type 0
  -- `AuthorizationRequest`
  pub Request : Type 0
  pub PkceCodeChallenge : Type 0
  -- of id, secret, authorization endpoint and token endpoint
  pub new : String → Option String → UrlText p → Option (UrlText p) → Client
  pub set_auth_type : Client → AuthType → Client
  pub set_redirect_uri : Client → UrlText p → Client
  pub set_introspection_uri : Client → UrlText p → Client
  pub set_revocation_uri : Client → UrlText p → Client
  pub set_device_authorization_url : Client → UrlText p → Client
  pub authorize_url : Client → (Unit {0} → String) → Request
  pub add_scope : Request → String → Request
  pub add_scopes : Request → List String → Request
  pub add_extra_param : Request → String → String → Request
  pub set_pkce_challenge : Request → PkceCodeChallenge → Request
  pub set_response_type : Request → String → Request
  pub override_redirect_uri : Request → UrlText p → Request
  pub url : Request → p.Url × String

-- What the URL of an authorization request tells the provider, beside the id of the client.
pub record Sent (p : Platform) (PkceCodeChallenge : Type 0) : Type 0 where
  pub response_type : String
  pub state : String
  pub scopes : List String
  pub extra_params : List (String × String)
  pub redirect_uri : Option (UrlText p)
  pub pkce_challenge : Option PkceCodeChallenge

-- What the operations on requests do to what is sent.
pub record RequestLaws {p : Platform} (o : Oauth2 p) : Type 0 where
  pub sent : o.Request → Sent p o.PkceCodeChallenge
  pub fresh_state :
      (c : o.Client) (f : Unit {0} → String) → (sent (o.authorize_url c f)).state ≡ f tt
  pub fresh_scopes :
      (c : o.Client) (f : Unit {0} → String) → (sent (o.authorize_url c f)).scopes ≡ []
  pub fresh_extra_params :
      (c : o.Client) (f : Unit {0} → String) → (sent (o.authorize_url c f)).extra_params ≡ []
  pub sent-add_scope :
      (r : o.Request) (s : String)
      → sent (o.add_scope r s) ≡ record (sent r) { scopes = (sent r).scopes ++ s ∷ [] }
  pub sent-add_scopes :
      (r : o.Request) (ss : List String)
      → sent (o.add_scopes r ss) ≡ record (sent r) { scopes = (sent r).scopes ++ ss }
  pub sent-add_extra_param :
      (r : o.Request) (name value : String)
      → sent (o.add_extra_param r name value)
        ≡ record (sent r) { extra_params = (sent r).extra_params ++ (name, value) ∷ [] }
  pub sent-set_pkce_challenge :
      (r : o.Request) (c : o.PkceCodeChallenge)
      → sent (o.set_pkce_challenge r c) ≡ record (sent r) { pkce_challenge = some c }
  pub sent-set_response_type :
      (r : o.Request) (s : String)
      → sent (o.set_response_type r s) ≡ record (sent r) { response_type = s }
  pub sent-override_redirect_uri :
      (r : o.Request) (u : UrlText p)
      → sent (o.override_redirect_uri r u) ≡ record (sent r) { redirect_uri = some u }
  pub state-url : (r : o.Request) → (o.url r).1 ≡ (sent r).state
