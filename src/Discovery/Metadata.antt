-- ===== src/Discovery/Metadata.antt =====
-- src/discovery.rs: ProviderMetadata.
use openidconnect_rs.Prelude.{String, Bool, Option, none, List, []}
use openidconnect_rs.Types.Platform.{Platform, UrlText}
use openidconnect_rs.Types.KeySet.{JsonWebKeySet}
use openidconnect_rs.Traits.{Suite}

-- The types over which metadata of providers and clients are generic, beside those of Suite.
pub record Vocabulary : Type 1 where
  pub ApplicationType : Type 0
  pub AuthDisplay : Type 0
  pub ClientAuthMethod : Type 0
  pub ClaimName : Type 0
  pub ClaimType : Type 0
  pub GrantType : Type 0
  pub JweKeyManagementAlgorithm : Type 0
  pub ResponseMode : Type 0
  pub ResponseType : Type 0
  pub SubjectIdentifierType : Type 0

-- ResponseTypes is a list of response types.
pub record ProviderMetadata (p : Platform) (t : Suite) (n : Vocabulary) (A : Type 0) : Type 0 where
  pub issuer : UrlText p
  pub authorization_endpoint : UrlText p
  pub token_endpoint : Option (UrlText p)
  pub userinfo_endpoint : Option (UrlText p)
  pub jwks_uri : UrlText p
  pub jwks : JsonWebKeySet t
  pub registration_endpoint : Option (UrlText p)
  pub scopes_supported : Option (List String)
  pub response_types_supported : List (List n.ResponseType)
  pub response_modes_supported : Option (List n.ResponseMode)
  pub grant_types_supported : Option (List n.GrantType)
  pub acr_values_supported : Option (List String)
  pub subject_types_supported : List n.SubjectIdentifierType
  pub id_token_signing_alg_values_supported : List t.SigningAlg
  pub id_token_encryption_alg_values_supported : Option (List n.JweKeyManagementAlgorithm)
  pub id_token_encryption_enc_values_supported : Option (List t.EncryptionAlg)
  pub userinfo_signing_alg_values_supported : Option (List t.SigningAlg)
  pub userinfo_encryption_alg_values_supported : Option (List n.JweKeyManagementAlgorithm)
  pub userinfo_encryption_enc_values_supported : Option (List t.EncryptionAlg)
  pub request_object_signing_alg_values_supported : Option (List t.SigningAlg)
  pub request_object_encryption_alg_values_supported : Option (List n.JweKeyManagementAlgorithm)
  pub request_object_encryption_enc_values_supported : Option (List t.EncryptionAlg)
  pub token_endpoint_auth_methods_supported : Option (List n.ClientAuthMethod)
  pub token_endpoint_auth_signing_alg_values_supported : Option (List t.SigningAlg)
  pub display_values_supported : Option (List n.AuthDisplay)
  pub claim_types_supported : Option (List n.ClaimType)
  pub claims_supported : Option (List n.ClaimName)
  pub service_documentation : Option (UrlText p)
  pub claims_locales_supported : Option (List String)
  pub ui_locales_supported : Option (List String)
  pub claims_parameter_supported : Option Bool
  pub request_parameter_supported : Option Bool
  pub request_uri_parameter_supported : Option Bool
  pub require_request_uri_registration : Option Bool
  pub op_policy_uri : Option (UrlText p)
  pub op_tos_uri : Option (UrlText p)
  pub additional_metadata : A

-- `ProviderMetadata::new`
unfoldable pub new :
    {p : Platform} {t : Suite} {n : Vocabulary} {A : Type 0}
    → UrlText p
    → UrlText p
    → UrlText p
    → List (List n.ResponseType)
    → List n.SubjectIdentifierType
    → List t.SigningAlg
    → A
    → ProviderMetadata p t n A
new issuer authorization_endpoint jwks_uri response_types_supported subject_types_supported
      id_token_signing_alg_values_supported additional_metadata =
    record {
      issuer = issuer;
      authorization_endpoint = authorization_endpoint;
      token_endpoint = none;
      userinfo_endpoint = none;
      jwks_uri = jwks_uri;
      jwks = record { keys = [] };
      registration_endpoint = none;
      scopes_supported = none;
      response_types_supported = response_types_supported;
      response_modes_supported = none;
      grant_types_supported = none;
      acr_values_supported = none;
      subject_types_supported = subject_types_supported;
      id_token_signing_alg_values_supported = id_token_signing_alg_values_supported;
      id_token_encryption_alg_values_supported = none;
      id_token_encryption_enc_values_supported = none;
      userinfo_signing_alg_values_supported = none;
      userinfo_encryption_alg_values_supported = none;
      userinfo_encryption_enc_values_supported = none;
      request_object_signing_alg_values_supported = none;
      request_object_encryption_alg_values_supported = none;
      request_object_encryption_enc_values_supported = none;
      token_endpoint_auth_methods_supported = none;
      token_endpoint_auth_signing_alg_values_supported = none;
      display_values_supported = none;
      claim_types_supported = none;
      claims_supported = none;
      service_documentation = none;
      claims_locales_supported = none;
      ui_locales_supported = none;
      claims_parameter_supported = none;
      request_parameter_supported = none;
      request_uri_parameter_supported = none;
      require_request_uri_registration = none;
      op_policy_uri = none;
      op_tos_uri = none;
      additional_metadata = additional_metadata;
    }
