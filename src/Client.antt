-- ===== src/Client.antt =====
-- src/lib.rs: Client, which makes authorization requests and verifiers.
pub mod Trust
pub mod Requests
pub mod Subject
use openidconnect_rs.Prelude.{
  String, Bool, true, false, Option, none, some, List, Result, ok, err, ◌>>=◌, ok_or, if◌then◌else◌,
  [],
}
use openidconnect_rs.Types.Platform.{Platform, UrlText}
use openidconnect_rs.Types.KeySet.{JsonWebKeySet}
use openidconnect_rs.Traits.{Suite}
use openidconnect_rs.Verification.IdToken
use openidconnect_rs.Verification.IdToken.{
  IdTokenVerifier, new_public_client, new_confidential_client, set_allowed_algs,
}
use openidconnect_rs.Verification.UserInfo
use openidconnect_rs.UserInfo.{UserInfoRequest}
use openidconnect_rs.Discovery.Metadata.{Vocabulary, ProviderMetadata}
use openidconnect_rs.Oauth2
use openidconnect_rs.Oauth2.{Oauth2}
use openidconnect_rs.Authorization.{
  Words, AuthenticationFlow, AuthorizationRequest, openid_scope, add_scope,
}

-- `ConfigurationError` of the crate oauth2, as far as this code makes it.
pub data ConfigurationError : Type 0 where
  missing_url : String → ConfigurationError

pub record Client {p : Platform} (o : Oauth2 p) (t : Suite) : Type 0 where
  pub oauth2_client : o.Client
  pub client_id : String
  pub client_secret : Option String
  pub issuer : UrlText p
  pub userinfo_endpoint : Option (UrlText p)
  pub jwks : JsonWebKeySet t
  pub id_token_signing_algs : Option (List t.SigningAlg)
  pub use_openid_scope : Bool

module _ {p : Platform} (o : Oauth2 p) {t : Suite} where
  unfoldable pub new :
      String
      → Option String
      → UrlText p
      → UrlText p
      → Option (UrlText p)
      → Option (UrlText p)
      → JsonWebKeySet t
      → Client o t
  new client_id client_secret issuer auth_url token_url userinfo_endpoint jwks = record {
    oauth2_client = o.new client_id client_secret auth_url token_url;
    client_id = client_id;
    client_secret = client_secret;
    issuer = issuer;
    userinfo_endpoint = userinfo_endpoint;
    jwks = jwks;
    id_token_signing_algs = none;
    use_openid_scope = true;
  }

  unfoldable pub from_provider_metadata :
      {n : Vocabulary} {A : Type 0} → ProviderMetadata p t n A → String → Option String → Client o t
  from_provider_metadata provider_metadata client_id client_secret = record {
    oauth2_client =
        o.new client_id client_secret provider_metadata.authorization_endpoint
          provider_metadata.token_endpoint;
    client_id = client_id;
    client_secret = client_secret;
    issuer = provider_metadata.issuer;
    userinfo_endpoint = provider_metadata.userinfo_endpoint;
    jwks = provider_metadata.jwks;
    id_token_signing_algs = some provider_metadata.id_token_signing_alg_values_supported;
    use_openid_scope = true;
  }

unfoldable pub with_algs :
    {p : Platform} {t : Suite}
    → Option (List t.SigningAlg)
    → IdTokenVerifier p t
    → IdTokenVerifier p t
with_algs (some id_token_signing_algs) verifier = set_allowed_algs verifier id_token_signing_algs
with_algs none verifier = verifier

module _ {p : Platform} {o : Oauth2 p} {t : Suite} where
  unfoldable pub set_auth_type : Client o t → o.AuthType → Client o t
  set_auth_type c auth_type = record c { oauth2_client = o.set_auth_type c.oauth2_client auth_type }

  unfoldable pub set_redirect_uri : Client o t → UrlText p → Client o t
  set_redirect_uri c url = record c { oauth2_client = o.set_redirect_uri c.oauth2_client url }

  unfoldable pub set_introspection_uri : Client o t → UrlText p → Client o t
  set_introspection_uri c url = record c {
    oauth2_client = o.set_introspection_uri c.oauth2_client url;
  }

  unfoldable pub set_revocation_uri : Client o t → UrlText p → Client o t
  set_revocation_uri c url = record c { oauth2_client = o.set_revocation_uri c.oauth2_client url }

  unfoldable pub set_device_authorization_uri : Client o t → UrlText p → Client o t
  set_device_authorization_uri c url = record c {
    oauth2_client = o.set_device_authorization_url c.oauth2_client url;
  }

  unfoldable pub enable_openid_scope : Client o t → Client o t
  enable_openid_scope c = record c { use_openid_scope = true }

  unfoldable pub disable_openid_scope : Client o t → Client o t
  disable_openid_scope c = record c { use_openid_scope = false }

  -- The verifier before the algorithms are set.
  unfoldable pub client_verifier : Option String → Client o t → IdTokenVerifier p t
  client_verifier (some secret) c = new_confidential_client c.client_id secret c.issuer c.jwks
  client_verifier none c = new_public_client c.client_id c.issuer c.jwks

  unfoldable pub id_token_verifier : Client o t → IdTokenVerifier p t
  unfolding client_verifier with_algs
  id_token_verifier c = with_algs c.id_token_signing_algs (client_verifier c.client_secret c)

  unfoldable pub authorize_url :
      {w : Words}
      → Client o t
      → AuthenticationFlow w.Response
      → (Unit {0} → String)
      → (Unit {0} → String)
      → AuthorizationRequest o w
  unfolding add_scope
  authorize_url {w} c authentication_flow state_fn nonce_fn =
      let request : AuthorizationRequest o w = record {
        inner = o.authorize_url c.oauth2_client state_fn;
        acr_values = [];
        authentication_flow = authentication_flow;
        claims_locales = [];
        display = none;
        id_token_hint = none;
        login_hint = none;
        max_age = none;
        nonce = nonce_fn tt;
        prompts = [];
        ui_locales = [];
      } in
      if c.use_openid_scope then add_scope request openid_scope else request

  unfoldable pub user_info :
      Client o t → String → Option String → Result (UserInfoRequest p t) ConfigurationError
  user_info c access_token expected_subject = do
    url ← ok_or c.userinfo_endpoint (missing_url "userinfo")
    ok (record {
      url = url;
      access_token = access_token;
      require_signed_response = false;
      signed_response_verifier = UserInfo.new c.client_id c.issuer c.jwks expected_subject;
    })
