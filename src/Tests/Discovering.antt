-- ===== src/Tests/Discovering.antt =====
-- The discovery of a provider that answers every request by the same JSON.
use openidconnect_rs.Prelude.{ℕ, String, ◌≡◌, refl, ap, ◌∙◌, true, [], ◌∷◌, Result, ok, inl, inr}
use openidconnect_rs.Text.{to_lowercase}
use openidconnect_rs.Types.KeySet.{JsonWebKeySet}
use openidconnect_rs.Core.Algorithms.{rsa_ssa_pkcs1_v15_sha256}
use openidconnect_rs.Http.{
  Request, HttpResponse, mime_type_json, content_type_has_essence, text_has_essence,
  before_semicolon,
}
use openidconnect_rs.Discovery.Metadata
use openidconnect_rs.Discovery.Metadata.{Vocabulary, ProviderMetadata}
use openidconnect_rs.Discovery.{Documents, ends_with_slash, discover}
use openidconnect_rs.Http.Essence.{IsOfType, content_type_exact}
use openidconnect_rs.Discovery.Slash.{EndsWithSlash, ConfigurationOf, slash_iff}
use openidconnect_rs.Discovery.Exact.{Got, IsMetadata, AreKeys, discover_exact}
use openidconnect_rs.Tests.Sample.{clock, suite}
use openidconnect_rs.Tests.Tokens.{issuer, keys}
use openidconnect_rs.Tests.Responses.{texts, answer}

abbrev pub core_names : Vocabulary
core_names = record {
  ApplicationType = String;
  AuthDisplay = String;
  ClientAuthMethod = String;
  ClaimName = String;
  ClaimType = String;
  GrantType = String;
  JweKeyManagementAlgorithm = String;
  ResponseMode = String;
  ResponseType = String;
  SubjectIdentifierType = String;
}

unfoldable pub metadata : JsonWebKeySet suite → ProviderMetadata clock suite core_names Unit
unfolding Metadata.new
metadata ks = record (Metadata.new issuer issuer issuer [] [] (rsa_ssa_pkcs1_v15_sha256 ∷ []) tt) {
  jwks = ks;
}

abbrev pub documents : Documents clock suite core_names Unit
documents = record {
  ParseError = String;
  metadata_from_slice = λ b. ok (metadata (record { keys = [] }));
  keys_from_slice = λ b. ok keys;
}

abbrev pub http_client : ℕ → Request String texts → Result (HttpResponse texts) String
http_client call request = ok answer

no_slash : ¬ EndsWithSlash "https://op.example"
unfolding ends_with_slash
no_slash w = cc ((slash_iff "https://op.example").1 w)

joined : ConfigurationOf clock issuer "https://op.example/.well-known/openid-configuration"
joined = inr (no_slash, refl)

essence : content_type_has_essence texts "Application/JSON; charset=utf-8" mime_type_json ≡ true
unfolding content_type_has_essence text_has_essence before_semicolon to_lowercase
essence = refl

typed : IsOfType texts answer.content_type mime_type_json
typed ct e =
    (content_type_exact texts ct "application/json").0
      (ap (λ v. content_type_has_essence texts v "application/json") (cc) ∙ essence)

pub found : discover documents texts String http_client issuer ≡ ok (metadata keys)
unfolding metadata Metadata.new
found = (discover_exact documents texts String http_client issuer (metadata keys)).1 (
  _,
  joined,
  answer,
  (refl, refl),
  metadata (record { keys = [] }),
  (typed, refl, refl),
  answer,
  (refl, refl),
  keys,
  (inl typed, refl),
  refl,
)

discover_exact_example :
    (url : String) × ConfigurationOf clock issuer url
    × (resp : HttpResponse texts) × Got documents texts String http_client 0 url resp
    × (named : ProviderMetadata clock suite core_names Unit) × IsMetadata documents texts String
        http_client issuer resp named
    × (keys_resp : HttpResponse texts) × Got documents texts String http_client 1 named.jwks_uri.url
        keys_resp
    × (ks : JsonWebKeySet suite) × AreKeys documents texts String http_client keys_resp ks
    × (record named { jwks = ks } ≡ metadata keys)
discover_exact_example =
    (discover_exact documents texts String http_client issuer (metadata keys)).0 found
