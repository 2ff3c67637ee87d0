-- ===== src/Tests/Texts.antt =====
-- The texts of enums and localized claims.
use openidconnect_rs.Core.Values.ApplicationType
use openidconnect_rs.Core.Values.AuthDisplay
use openidconnect_rs.Core.Values.AuthPrompt
use openidconnect_rs.Core.Values.ClaimType
use openidconnect_rs.Core.Values.ClientAuthMethod
use openidconnect_rs.Core.Values.GrantType
use openidconnect_rs.Core.Values.RegisterErrorResponseType
use openidconnect_rs.Core.Values.ResponseMode
use openidconnect_rs.Core.Values.ResponseType
use openidconnect_rs.Core.Values.SubjectIdentifierType
use openidconnect_rs.Core.Values.JsonWebKeyUse
use openidconnect_rs.Core.Values.AuthErrorResponseType
use openidconnect_rs.Core.Values.Laws.{
  as_ref-from_str_all, from_str-as_ref_iff, as_ref-from_str_error,
}
use mathlib.Core.Bool.{false≢true}
use openidconnect_rs.Prelude.{◌≢◌, eq_iff, String, ◌≡◌, ◌↔◌, some, none, [], ◌∷◌}
use openidconnect_rs.Types.LocalizedClaim.{LocalizedClaim, get, insert, remove}
use openidconnect_rs.Types.LocalizedClaim.Laws.{get-insert_lem, get-remove_lem}

as_ref-from_str_all_example :
    (ApplicationType.as_ref (ApplicationType.from_str "query") ≡ "query")
    × (AuthDisplay.as_ref (AuthDisplay.from_str "query") ≡ "query")
    × (AuthPrompt.as_ref (AuthPrompt.from_str "query") ≡ "query")
    × (ClaimType.as_ref (ClaimType.from_str "query") ≡ "query")
    × (ClientAuthMethod.as_ref (ClientAuthMethod.from_str "query") ≡ "query")
    × (GrantType.as_ref (GrantType.from_str "query") ≡ "query")
    × (RegisterErrorResponseType.as_ref (RegisterErrorResponseType.from_str "query") ≡ "query")
    × (ResponseMode.as_ref (ResponseMode.from_str "query") ≡ "query")
    × (ResponseType.as_ref (ResponseType.from_str "query") ≡ "query")
    × (SubjectIdentifierType.as_ref (SubjectIdentifierType.from_str "query") ≡ "query")
    × (JsonWebKeyUse.as_ref (JsonWebKeyUse.from_str "query") ≡ "query")
as_ref-from_str_all_example = as_ref-from_str_all "query"

from_str-as_ref_iff_example :
    ((ApplicationType.from_str (ApplicationType.as_ref (ApplicationType.extension "web"))
        ≡ (ApplicationType.extension "web"))
      ↔ ApplicationType.IsCanonical (ApplicationType.extension "web"))
    × ((AuthDisplay.from_str (AuthDisplay.as_ref (AuthDisplay.extension "web"))
          ≡ (AuthDisplay.extension "web"))
        ↔ AuthDisplay.IsCanonical (AuthDisplay.extension "web"))
    × ((AuthPrompt.from_str (AuthPrompt.as_ref (AuthPrompt.extension "web"))
          ≡ (AuthPrompt.extension "web"))
        ↔ AuthPrompt.IsCanonical (AuthPrompt.extension "web"))
    × ((ClaimType.from_str (ClaimType.as_ref (ClaimType.extension "web"))
          ≡ (ClaimType.extension "web"))
        ↔ ClaimType.IsCanonical (ClaimType.extension "web"))
    × ((ClientAuthMethod.from_str (ClientAuthMethod.as_ref (ClientAuthMethod.extension "web"))
          ≡ (ClientAuthMethod.extension "web"))
        ↔ ClientAuthMethod.IsCanonical (ClientAuthMethod.extension "web"))
    × ((GrantType.from_str (GrantType.as_ref (GrantType.extension "web"))
          ≡ (GrantType.extension "web"))
        ↔ GrantType.IsCanonical (GrantType.extension "web"))
    × ((RegisterErrorResponseType.from_str
            (RegisterErrorResponseType.as_ref (RegisterErrorResponseType.extension "web"))
          ≡ (RegisterErrorResponseType.extension "web"))
        ↔ RegisterErrorResponseType.IsCanonical (RegisterErrorResponseType.extension "web"))
    × ((ResponseMode.from_str (ResponseMode.as_ref (ResponseMode.extension "web"))
          ≡ (ResponseMode.extension "web"))
        ↔ ResponseMode.IsCanonical (ResponseMode.extension "web"))
    × ((ResponseType.from_str (ResponseType.as_ref (ResponseType.extension "web"))
          ≡ (ResponseType.extension "web"))
        ↔ ResponseType.IsCanonical (ResponseType.extension "web"))
    × ((SubjectIdentifierType.from_str
            (SubjectIdentifierType.as_ref (SubjectIdentifierType.extension "web"))
          ≡ (SubjectIdentifierType.extension "web"))
        ↔ SubjectIdentifierType.IsCanonical (SubjectIdentifierType.extension "web"))
    × ((JsonWebKeyUse.from_str (JsonWebKeyUse.as_ref (JsonWebKeyUse.other "web"))
          ≡ (JsonWebKeyUse.other "web"))
        ↔ JsonWebKeyUse.IsCanonical (JsonWebKeyUse.other "web"))
from_str-as_ref_iff_example =
    from_str-as_ref_iff (ApplicationType.extension "web") (AuthDisplay.extension "web")
      (AuthPrompt.extension "web") (ClaimType.extension "web") (ClientAuthMethod.extension "web")
      (GrantType.extension "web") (RegisterErrorResponseType.extension "web")
      (ResponseMode.extension "web") (ResponseType.extension "web")
      (SubjectIdentifierType.extension "web") (JsonWebKeyUse.other "web")

differs : ◌≢◌ {A = String} "invalid_scope" "invalid_request_object"
differs e = false≢true ((eq_iff "invalid_scope" "invalid_request_object").1 e)

as_ref-from_str_error_example :
    AuthErrorResponseType.as_ref (AuthErrorResponseType.from_str "invalid_scope") ≡ "invalid_scope"
as_ref-from_str_error_example = (as_ref-from_str_error "invalid_scope").1 differs

abbrev name : LocalizedClaim String
name = record { tagged = ("fr", "Alice F") ∷ []; untagged = some "Alice" }

get-insert_lem_example :
    get (insert name (some "de") "Alice D").0 (some "fr") ≡ get name (some "fr")
get-insert_lem_example = get-insert_lem name (some "de") (some "fr") "Alice D"

get-remove_lem_example : get (remove name (some "fr")).0 (some "fr") ≡ none
get-remove_lem_example = get-remove_lem name (some "fr") (some "fr")
