-- ===== src/Registration.antt =====
-- src/registration.rs: the registration of a client.
pub mod Exact
use openidconnect_rs.Prelude.{
  ℕ, String, Bool, true, false, not, ◌&&◌, Option, none, some, List, [], ◌∷◌, ◌++◌, nat_eq,
  if◌then◌else◌, Result, ok, err, ◌>>=◌, ◌>>◌, map_err, ok_or,
}
use openidconnect_rs.Text.{◌+++◌, as_bytes}
use openidconnect_rs.Types.Platform.{Platform, UrlText}
use openidconnect_rs.Types.Duration.{Duration}
use openidconnect_rs.Types.KeySet.{JsonWebKeySet}
use openidconnect_rs.Types.LocalizedClaim.{LocalizedClaim}
use openidconnect_rs.Traits.{Suite}
use openidconnect_rs.Http.{
  Http, HttpResponse, Request, post, auth_bearer, check_content_type, mime_type_json,
}
use openidconnect_rs.Discovery.Metadata.{Vocabulary}

pub record StandardClientMetadata (p : Platform) (t : Suite) (n : Vocabulary) : Type 0 where
  pub redirect_uris : List (UrlText p)
  pub response_types : Option (List (List n.ResponseType))
  pub grant_types : Option (List n.GrantType)
  pub application_type : Option n.ApplicationType
  pub contacts : Option (List String)
  pub client_name : Option (LocalizedClaim String)
  pub logo_uri : Option (LocalizedClaim (UrlText p))
  pub client_uri : Option (LocalizedClaim (UrlText p))
  pub policy_uri : Option (LocalizedClaim (UrlText p))
  pub tos_uri : Option (LocalizedClaim (UrlText p))
  pub jwks_uri : Option (UrlText p)
  pub jwks : Option (JsonWebKeySet t)
  pub sector_identifier_uri : Option (UrlText p)
  pub subject_type : Option n.SubjectIdentifierType
  pub id_token_signed_response_alg : Option t.SigningAlg
  pub id_token_encrypted_response_alg : Option n.JweKeyManagementAlgorithm
  pub id_token_encrypted_response_enc : Option t.EncryptionAlg
  pub userinfo_signed_response_alg : Option t.SigningAlg
  pub userinfo_encrypted_response_alg : Option n.JweKeyManagementAlgorithm
  pub userinfo_encrypted_response_enc : Option t.EncryptionAlg
  pub request_object_signing_alg : Option t.SigningAlg
  pub request_object_encryption_alg : Option n.JweKeyManagementAlgorithm
  pub request_object_encryption_enc : Option t.EncryptionAlg
  pub token_endpoint_auth_method : Option n.ClientAuthMethod
  pub token_endpoint_auth_signing_alg : Option t.SigningAlg
  pub default_max_age : Option Duration
  pub require_auth_time : Option Bool
  pub default_acr_values : Option (List String)
  pub initiate_login_uri : Option (UrlText p)
  pub request_uris : Option (List (UrlText p))

pub record ClientMetadata (p : Platform) (t : Suite) (n : Vocabulary) (A : Type 0) : Type 0 where
  pub standard_metadata : StandardClientMetadata p t n
  pub additional_metadata : A

-- `ClientMetadata::new`
unfoldable pub new_metadata :
    {p : Platform} {t : Suite} {n : Vocabulary} {A : Type 0}
    → List (UrlText p)
    → A
    → ClientMetadata p t n A
new_metadata redirect_uris additional_metadata = record {
  standard_metadata = record {
    redirect_uris = redirect_uris;
    response_types = none;
    grant_types = none;
    application_type = none;
    contacts = none;
    client_name = none;
    logo_uri = none;
    client_uri = none;
    policy_uri = none;
    tos_uri = none;
    jwks_uri = none;
    jwks = none;
    sector_identifier_uri = none;
    subject_type = none;
    id_token_signed_response_alg = none;
    id_token_encrypted_response_alg = none;
    id_token_encrypted_response_enc = none;
    userinfo_signed_response_alg = none;
    userinfo_encrypted_response_alg = none;
    userinfo_encrypted_response_enc = none;
    request_object_signing_alg = none;
    request_object_encryption_alg = none;
    request_object_encryption_enc = none;
    token_endpoint_auth_method = none;
    token_endpoint_auth_signing_alg = none;
    default_max_age = none;
    require_auth_time = none;
    default_acr_values = none;
    initiate_login_uri = none;
    request_uris = none;
  };
  additional_metadata = additional_metadata;
}

pub record ClientRegistrationRequest (p : Platform) (t : Suite) (n : Vocabulary) (AC : Type 0)
    : Type 0 where
  pub client_metadata : ClientMetadata p t n AC
  pub initial_access_token : Option String

pub record ClientRegistrationResponse (p : Platform) (t : Suite) (n : Vocabulary) (AC AR : Type 0)
    : Type 0 where
  pub client_id : String
  pub client_secret : Option String
  pub registration_access_token : Option String
  pub registration_client_uri : Option (UrlText p)
  pub client_id_issued_at : Option p.DateTime
  pub client_secret_expires_at : Option p.DateTime
  pub client_metadata : ClientMetadata p t n AC
  pub additional_response : AR

module _ {p : Platform} {t : Suite} {n : Vocabulary} {AC : Type 0} where
  -- `ClientRegistrationRequest::new`
  unfoldable pub new : List (UrlText p) → AC → ClientRegistrationRequest p t n AC
  unfolding new_metadata
  new redirect_uris additional_metadata = record {
    client_metadata = new_metadata redirect_uris additional_metadata;
    initial_access_token = none;
  }

  unfoldable pub set_initial_access_token :
      ClientRegistrationRequest p t n AC → Option String → ClientRegistrationRequest p t n AC
  set_initial_access_token r access_token = record r { initial_access_token = access_token }

  -- `ClientRegistrationResponse::new`
  unfoldable pub new_response :
      {AR : Type 0} → String → List (UrlText p) → AC → AR → ClientRegistrationResponse p t n AC AR
  unfolding new_metadata
  new_response client_id redirect_uris additional_metadata additional_response = record {
    client_id = client_id;
    client_secret = none;
    registration_access_token = none;
    registration_client_uri = none;
    client_id_issued_at = none;
    client_secret_expires_at = none;
    client_metadata = new_metadata redirect_uris additional_metadata;
    additional_response = additional_response;
  }

  unfoldable pub from_client_metadata :
      {AR : Type 0} → String → ClientMetadata p t n AC → AR → ClientRegistrationResponse p t n AC AR
  from_client_metadata client_id client_metadata additional_response = record {
    client_id = client_id;
    client_secret = none;
    registration_access_token = none;
    registration_client_uri = none;
    client_id_issued_at = none;
    client_secret_expires_at = none;
    client_metadata = client_metadata;
    additional_response = additional_response;
  }

-- What requests are written by and responses are read by: serde_json, with the path of an error, and
-- UTF-8. `ErrorResponse` is the `StandardErrorResponse` of the crate oauth2.
pub record Registry (p : Platform) (t : Suite) (n : Vocabulary) (AC AR : Type 0) : Type 1 where
  pub ParseError : Type 0
  pub SerializeError : Type 0
  pub ErrorResponse : Type 0
  pub metadata_to_string : ClientMetadata p t n AC → Result String SerializeError
  pub from_utf8 : List ℕ → Result String String
  pub error_from_str : String → Result ErrorResponse ParseError
  pub response_from_str : String → Result (ClientRegistrationResponse p t n AC AR) ParseError

pub data ClientRegistrationError (ParseError SerializeError ErrorResponse RE : Type 0)
    : Type 0 where
  other : String → ClientRegistrationError ParseError SerializeError ErrorResponse RE
  parse : ParseError → ClientRegistrationError ParseError SerializeError ErrorResponse RE
  request : RE → ClientRegistrationError ParseError SerializeError ErrorResponse RE
  response :
      ℕ → List ℕ → String → ClientRegistrationError ParseError SerializeError ErrorResponse RE
  serialize : SerializeError → ClientRegistrationError ParseError SerializeError ErrorResponse RE
  server_response :
      ErrorResponse → ClientRegistrationError ParseError SerializeError ErrorResponse RE
  -- Not a value of the source: the call panics.
  panic : ClientRegistrationError ParseError SerializeError ErrorResponse RE

module _ {p : Platform} {t : Suite} {n : Vocabulary} {AC AR : Type 0} (g : Registry p t n AC AR)
    (h : Http) (RE : Type 0) where
  abbrev pub Registered : Type 0 → Type 0
  Registered A = Result A (ClientRegistrationError g.ParseError g.SerializeError g.ErrorResponse RE)

  -- `initial_access_token().map(auth_bearer)`
  unfoldable pub auth_headers : Option String → Registered (List (String × h.HeaderValue))
  unfolding auth_bearer
  auth_headers none = ok []
  auth_headers (some access_token) = do
    header ← ok_or (auth_bearer h access_token) panic
    ok (header ∷ [])

  unfoldable pub prepare_registration :
      ClientRegistrationRequest p t n AC → UrlText p → Registered (Request p.Url h)
  unfolding auth_headers
  prepare_registration r registration_endpoint = do
    request_json ← map_err serialize (g.metadata_to_string r.client_metadata)
    auth ← auth_headers r.initial_access_token
    ok (record {
      url = registration_endpoint.url;
      method = post;
      headers =
          ("accept", h.from_static mime_type_json)
          ∷ ("content-type", h.from_static mime_type_json)
          ∷ auth;
      body = as_bytes request_json;
    })

  -- The last step of `register_response`, which reads the body.
  unfoldable pub read_body : ℕ → String → Registered (ClientRegistrationResponse p t n AC AR)
  read_body status_code response_body =
      if nat_eq status_code 400
      then (do
        response_error ← map_err parse (g.error_from_str response_body)
        err (server_response response_error))
      else map_err parse (g.response_from_str response_body)

  unfoldable pub register_response :
      HttpResponse h → Registered (ClientRegistrationResponse p t n AC AR)
  unfolding read_body
  register_response http_response =
      if not (nat_eq http_response.status_code 201) && not (nat_eq http_response.status_code 400)
      then err (response http_response.status_code http_response.body "unexpected HTTP status code")
      else (do
        map_err (response http_response.status_code http_response.body)
            (check_content_type h http_response.content_type mime_type_json)
        response_body ←
            map_err (λ parse_error. other ("couldn't parse response as UTF-8: " +++ parse_error))
              (g.from_utf8 http_response.body)
        read_body http_response.status_code response_body)

  -- `register`, and `register_async`, which makes the same calls
  unfoldable pub register :
      (Request p.Url h → Result (HttpResponse h) RE)
      → ClientRegistrationRequest p t n AC
      → UrlText p
      → Registered (ClientRegistrationResponse p t n AC AR)
  unfolding prepare_registration register_response
  register http_client r registration_endpoint = do
    http_request ← prepare_registration r registration_endpoint
    http_response ← map_err request (http_client http_request)
    register_response http_response
