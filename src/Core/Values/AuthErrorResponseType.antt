-- ===== src/Core/Values/AuthErrorResponseType.antt =====
-- src/core/mod.rs: CoreAuthErrorResponseType and its text.
use openidconnect_rs.Prelude.{String, ◌≡◌, refl, List, [], ◌∷◌, ◌==◌, if◌then◌else◌}
use openidconnect_rs.Core.Values.Texts.{IsNoneOf, read, read_elim, eq_false}

pub data CoreAuthErrorResponseType : Type 0 where
  access_denied account_selection_required consent_required interaction_required invalid_request
        invalid_request_object invalid_request_uri invalid_scope login_required
        registration_not_supported request_not_supported request_uri_not_supported server_error
        temporarily_unavailable unauthorized_client unsupported_response_type :
      CoreAuthErrorResponseType
  extension : String → CoreAuthErrorResponseType

unfoldable pub from_str : String → CoreAuthErrorResponseType
from_str s =
    if s == "access_denied"
    then access_denied
    else if s == "account_selection_required"
    then account_selection_required
    else if s == "consent_required"
    then consent_required
    else if s == "interaction_required"
    then interaction_required
    else if s == "invalid_request"
    then invalid_request
    else if s == "invalid_request_object"
    then invalid_request_object
    else if s == "invalid_request_uri"
    then invalid_request_uri
    else if s == "invalid_scope"
    then invalid_scope
    else if s == "login_required"
    then login_required
    else if s == "registration_not_supported"
    then registration_not_supported
    else if s == "request_not_supported"
    then request_not_supported
    else if s == "request_uri_not_supported"
    then request_uri_not_supported
    else if s == "server_error"
    then server_error
    else if s == "temporarily_unavailable"
    then temporarily_unavailable
    else if s == "unauthorized_client"
    then unauthorized_client
    else if s == "unsupported_response_type"
    then unsupported_response_type
    else extension s

unfoldable pub as_ref : CoreAuthErrorResponseType → String
as_ref access_denied = "access_denied"
as_ref account_selection_required = "account_selection_required"
as_ref consent_required = "consent_required"
as_ref interaction_required = "interaction_required"
as_ref invalid_request = "invalid_request"
as_ref invalid_request_object = "invalid_request_obbject"
as_ref invalid_request_uri = "invalid_request_uri"
as_ref invalid_scope = "invalid_scope"
as_ref login_required = "login_required"
as_ref registration_not_supported = "registration_not_supported"
as_ref request_not_supported = "request_not_supported"
as_ref request_uri_not_supported = "request_uri_not_supported"
as_ref server_error = "server_error"
as_ref temporarily_unavailable = "temporarily_unavailable"
as_ref unauthorized_client = "unauthorized_client"
as_ref unsupported_response_type = "unsupported_response_type"
as_ref (extension s) = s

-- The texts that `from_str` knows.
abbrev pub known : List String
known =
    "access_denied" ∷ "account_selection_required" ∷ "consent_required" ∷ "interaction_required"
    ∷ "invalid_request" ∷ "invalid_request_object" ∷ "invalid_request_uri" ∷ "invalid_scope"
    ∷ "login_required" ∷ "registration_not_supported" ∷ "request_not_supported"
    ∷ "request_uri_not_supported" ∷ "server_error" ∷ "temporarily_unavailable"
    ∷ "unauthorized_client" ∷ "unsupported_response_type" ∷ []

-- An extension that spells a known text is a value that no text is read as.
abbrev pub IsCanonical : CoreAuthErrorResponseType → Type 0
IsCanonical (extension s) = IsNoneOf s known
IsCanonical _ = Unit

abbrev table : List (String × CoreAuthErrorResponseType)
table =
    ("access_denied", access_denied)
    ∷ ("account_selection_required", account_selection_required)
    ∷ ("consent_required", consent_required)
    ∷ ("interaction_required", interaction_required)
    ∷ ("invalid_request", invalid_request)
    ∷ ("invalid_request_object", invalid_request_object)
    ∷ ("invalid_request_uri", invalid_request_uri)
    ∷ ("invalid_scope", invalid_scope)
    ∷ ("login_required", login_required)
    ∷ ("registration_not_supported", registration_not_supported)
    ∷ ("request_not_supported", request_not_supported)
    ∷ ("request_uri_not_supported", request_uri_not_supported)
    ∷ ("server_error", server_error)
    ∷ ("temporarily_unavailable", temporarily_unavailable)
    ∷ ("unauthorized_client", unauthorized_client)
    ∷ ("unsupported_response_type", unsupported_response_type)
    ∷ []

from_str-eq-read : (s : String) → from_str s ≡ read table (extension s) s
unfolding from_str
from_str-eq-read s = refl

pub from_str-IsCanonical : (s : String) → IsCanonical (from_str s)
from_str-IsCanonical s =
    rw from_str-eq-read
      (read_elim (λ _ v. IsCanonical v) table (extension s) s (search tt) (λ h. h))

-- What `as_ref` writes for the text that was read.
abbrev pub written : String → String
written s = if s == "invalid_request_object" then "invalid_request_obbject" else s

abbrev IsWritten : String → CoreAuthErrorResponseType → Type 0
IsWritten s v = as_ref v ≡ written s

pub as_ref-from_str_lem : (s : String) → as_ref (from_str s) ≡ written s
unfolding as_ref
as_ref-from_str_lem s =
    rw from_str-eq-read
      (read_elim IsWritten table (extension s) s (search) (λ h. rw (eq_false h.1.1.1.1.1.0)))
