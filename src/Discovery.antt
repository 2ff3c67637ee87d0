-- ===== src/Discovery.antt =====
-- src/discovery.rs, and the fetching of key sets in src/types.rs.
pub mod Metadata
pub mod Slash
pub mod Exact
use Prim.Native.Char.{code}
use Prim.Native.String
use openidconnect_rs.Prelude.{
  ℕ, String, Bool, false, Option, none, some, List, [], ◌∷◌, nat_eq, if◌then◌else◌, Result, ok, err,
  ◌>>=◌, ◌>>◌, map_err,
}
use openidconnect_rs.Text.{◌+++◌, quoted}
use openidconnect_rs.Types.Platform
use openidconnect_rs.Types.Platform.{UrlText}
use openidconnect_rs.Types.KeySet.{JsonWebKeySet}
use openidconnect_rs.Traits.{Suite}
use openidconnect_rs.Discovery.Metadata.{Vocabulary, ProviderMetadata}
use openidconnect_rs.Http.{Http, HttpResponse, Request, get, check_content_type, mime_type_json}

abbrev pub mime_type_jwks : String
mime_type_jwks = "application/jwk-set+json"

abbrev pub config_url_suffix : String
config_url_suffix = ".well-known/openid-configuration"

-- What the documents are read by.
pub record Documents (p : Platform.Platform) (t : Suite) (n : Vocabulary) (A : Type 0)
    : Type 1 where
  pub ParseError : Type 0
  pub metadata_from_slice : List ℕ → Result (ProviderMetadata p t n A) ParseError
  pub keys_from_slice : List ℕ → Result (JsonWebKeySet t) ParseError

pub data DiscoveryError (p : Platform.Platform) (ParseError RE : Type 0) : Type 0 where
  other : String → DiscoveryError p ParseError RE
  parse : ParseError → DiscoveryError p ParseError RE
  request : RE → DiscoveryError p ParseError RE
  response : ℕ → List ℕ → String → DiscoveryError p ParseError RE
  url_parse : p.UrlParseError → DiscoveryError p ParseError RE
  validation : String → DiscoveryError p ParseError RE

-- Whether the last character of a text is a slash, with the answer for an empty rest.
unfoldable pub ends_with_slash : Bool → String → Bool
ends_with_slash before String.[] = before
ends_with_slash before (String.◌∷◌ c s) = ends_with_slash (nat_eq (code c) b'/') s

-- `first.or_else(|err| second.map_err(|_| err))`
unfoldable pub or_first :
    Result (Unit {0}) String → Result (Unit {0}) String → Result (Unit {0}) String
or_first (ok u) second = ok u
or_first (err e) second = map_err (λ _. e) second

module _ (p : Platform.Platform) (h : Http) where
  -- `IssuerUrl::join`
  unfoldable pub join : UrlText p → String → Result p.Url p.UrlParseError
  unfolding ends_with_slash
  join issuer suffix =
      if ends_with_slash false issuer.text
      then p.parse (issuer.text +++ suffix)
      else p.parse (issuer.text +++ "/" +++ suffix)

  -- `discovery_request`, and `fetch_request` of the URL of a key set
  unfoldable pub get_request : p.Url → Request p.Url h
  get_request url = record {
    url = url;
    method = get;
    headers = ("accept", h.from_static mime_type_json) ∷ [];
    body = [];
  }

  -- `check_content_type` for JSON, and else for key sets, with the message of the first.
  unfoldable pub check_keys_type : Option h.HeaderValue → Result (Unit {0}) String
  unfolding or_first
  check_keys_type content_type =
      or_first (check_content_type h content_type mime_type_json)
        (check_content_type h content_type mime_type_jwks)

module _ {p : Platform.Platform} {t : Suite} {n : Vocabulary} {A : Type 0} (d : Documents p t n A)
    (h : Http) (RE : Type 0) where
  abbrev pub Discovered : Type 0 → Type 0
  Discovered A = Result A (DiscoveryError p d.ParseError RE)

  -- `JsonWebKeySet::fetch_response`
  unfoldable pub fetch_response : HttpResponse h → Discovered (JsonWebKeySet t)
  unfolding check_keys_type
  fetch_response http_response =
      if nat_eq http_response.status_code 200
      then (do
        map_err (response http_response.status_code http_response.body)
            (check_keys_type p h http_response.content_type)
        map_err parse (d.keys_from_slice http_response.body))
      else err (
          response http_response.status_code http_response.body
            ("HTTP status code " +++ h.status_text http_response.status_code))

  -- The last test of `discovery_response`.
  unfoldable pub validate_issuer :
      UrlText p → ProviderMetadata p t n A → Discovered (ProviderMetadata p t n A)
  validate_issuer issuer_url metadata =
      if Platform.eq p metadata.issuer issuer_url
      then ok metadata
      else err (
          validation (
            "unexpected issuer URI "
            +++ quoted metadata.issuer.text
            +++ " (expected "
            +++ quoted issuer_url.text
            +++ ")"))

  unfoldable pub discovery_response :
      UrlText p → HttpResponse h → Discovered (ProviderMetadata p t n A)
  unfolding validate_issuer
  discovery_response issuer_url resp =
      if nat_eq resp.status_code 200
      then (do
        map_err (response resp.status_code resp.body)
            (check_content_type h resp.content_type mime_type_json)
        provider_metadata ← map_err parse (d.metadata_from_slice resp.body)
        validate_issuer issuer_url provider_metadata)
      else err (
          response resp.status_code resp.body
            ("HTTP status code " +++ h.status_text resp.status_code))

  module _ (http_client : ℕ → Request p.Url h → Result (HttpResponse h) RE) where
    -- `JsonWebKeySet::fetch`, as the call of the client with that number
    unfoldable pub fetch : ℕ → UrlText p → Discovered (JsonWebKeySet t)
    unfolding get_request
    fetch call url = do
      http_response ← map_err request (http_client call (get_request p h url.url))
      fetch_response http_response

    -- `ProviderMetadata::discover`
    unfoldable pub discover : UrlText p → Discovered (ProviderMetadata p t n A)
    unfolding join get_request
    discover issuer_url = do
      discovery_url ← map_err url_parse (join p h issuer_url config_url_suffix)
      http_response ← map_err request (http_client 0 (get_request p h discovery_url))
      provider_metadata ← discovery_response issuer_url http_response
      jwks ← fetch 1 provider_metadata.jwks_uri
      ok (record provider_metadata { jwks = jwks })
