-- ===== src/Core/Values/Laws.antt =====
-- src/core/mod.rs and src/core/jwk.rs: the texts of the string-valued enums, all together.
use openidconnect_rs.Core.Values.ApplicationType
use openidconnect_rs.Core.Values.AuthDisplay
use openidconnect_rs.Core.Values.AuthPrompt
use openidconnect_rs.Core.Values.ClaimType
use openidconnect_rs.Core.Values.ClientAuthMethod
use openidconnect_rs.Core.Values.GrantType
use openidconnect_rs.Core.Values.RegisterErrorResponseType
use openidconnect_rs.Core.Values.ResponseMode
use openidconnect_rs.Core.Values.ResponseType
use openidconnect_rs.Core.Values.SubjectIdentifierType
use openidconnect_rs.Core.Values.JsonWebKeyUse
use openidconnect_rs.Core.Values.AuthErrorResponseType
use openidconnect_rs.Core.Values.Texts.{eq_false}
use openidconnect_rs.Prelude.{String, ◌≡◌, ◌≢◌, ◌↔◌, refl, sym, ap, ◌∙◌, eq_iff}
use mathlib.Core.Bool.{false≢true}

-- Reading a text into one of these eleven enums and writing the value gives the text back: known
-- names and extensions alike, for application types, displays, prompts, claim types, client
-- authentication methods, grant types, registration errors, response modes, response types, subject
-- identifier types and uses of keys.
pub as_ref-from_str_all :
    (s : String)
    → (ApplicationType.as_ref (ApplicationType.from_str s) ≡ s)
      × (AuthDisplay.as_ref (AuthDisplay.from_str s) ≡ s)
      × (AuthPrompt.as_ref (AuthPrompt.from_str s) ≡ s)
      × (ClaimType.as_ref (ClaimType.from_str s) ≡ s)
      × (ClientAuthMethod.as_ref (ClientAuthMethod.from_str s) ≡ s)
      × (GrantType.as_ref (GrantType.from_str s) ≡ s)
      × (RegisterErrorResponseType.as_ref (RegisterErrorResponseType.from_str s) ≡ s)
      × (ResponseMode.as_ref (ResponseMode.from_str s) ≡ s)
      × (ResponseType.as_ref (ResponseType.from_str s) ≡ s)
      × (SubjectIdentifierType.as_ref (SubjectIdentifierType.from_str s) ≡ s)
      × (JsonWebKeyUse.as_ref (JsonWebKeyUse.from_str s) ≡ s)
as_ref-from_str_all s = (
  ApplicationType.as_ref-from_str s,
  AuthDisplay.as_ref-from_str s,
  AuthPrompt.as_ref-from_str s,
  ClaimType.as_ref-from_str s,
  ClientAuthMethod.as_ref-from_str s,
  GrantType.as_ref-from_str s,
  RegisterErrorResponseType.as_ref-from_str s,
  ResponseMode.as_ref-from_str s,
  ResponseType.as_ref-from_str s,
  SubjectIdentifierType.as_ref-from_str s,
  JsonWebKeyUse.as_ref-from_str s,
)

-- What is read is canonical, and what is canonical is read back.
canonical :
    {A : Type 0} {from : String → A} {v : A} {s : String} (P : A → Type 0)
    → ((s : String) → P (from s))
    → (P v → from s ≡ v)
    → (from s ≡ v) ↔ P v
canonical {s = s} P r b = (λ e. rw (sym e) (r s), b)

-- A value of one of these eleven enums is read back from the text that is written for it exactly when
-- it is no extension that spells a known name.
pub from_str-as_ref_iff :
    (a : ApplicationType.CoreApplicationType) (b : AuthDisplay.CoreAuthDisplay)
    (c : AuthPrompt.CoreAuthPrompt) (d : ClaimType.CoreClaimType)
    (e : ClientAuthMethod.CoreClientAuthMethod) (f : GrantType.CoreGrantType)
    (g : RegisterErrorResponseType.CoreRegisterErrorResponseType)
    (h : ResponseMode.CoreResponseMode) (i : ResponseType.CoreResponseType)
    (j : SubjectIdentifierType.CoreSubjectIdentifierType) (k : JsonWebKeyUse.CoreJsonWebKeyUse)
    → ((ApplicationType.from_str (ApplicationType.as_ref a) ≡ a) ↔ ApplicationType.IsCanonical a)
      × ((AuthDisplay.from_str (AuthDisplay.as_ref b) ≡ b) ↔ AuthDisplay.IsCanonical b)
      × ((AuthPrompt.from_str (AuthPrompt.as_ref c) ≡ c) ↔ AuthPrompt.IsCanonical c)
      × ((ClaimType.from_str (ClaimType.as_ref d) ≡ d) ↔ ClaimType.IsCanonical d)
      × ((ClientAuthMethod.from_str (ClientAuthMethod.as_ref e) ≡ e)
          ↔ ClientAuthMethod.IsCanonical e)
      × ((GrantType.from_str (GrantType.as_ref f) ≡ f) ↔ GrantType.IsCanonical f)
      × ((RegisterErrorResponseType.from_str (RegisterErrorResponseType.as_ref g) ≡ g)
          ↔ RegisterErrorResponseType.IsCanonical g)
      × ((ResponseMode.from_str (ResponseMode.as_ref h) ≡ h) ↔ ResponseMode.IsCanonical h)
      × ((ResponseType.from_str (ResponseType.as_ref i) ≡ i) ↔ ResponseType.IsCanonical i)
      × ((SubjectIdentifierType.from_str (SubjectIdentifierType.as_ref j) ≡ j)
          ↔ SubjectIdentifierType.IsCanonical j)
      × ((JsonWebKeyUse.from_str (JsonWebKeyUse.as_ref k) ≡ k) ↔ JsonWebKeyUse.IsCanonical k)
from_str-as_ref_iff a b c d e f g h i j k = (
  canonical ApplicationType.IsCanonical ApplicationType.from_str-IsCanonical
      (ApplicationType.from_str-as_ref a),
  canonical AuthDisplay.IsCanonical AuthDisplay.from_str-IsCanonical
      (AuthDisplay.from_str-as_ref b),
  canonical AuthPrompt.IsCanonical AuthPrompt.from_str-IsCanonical (AuthPrompt.from_str-as_ref c),
  canonical ClaimType.IsCanonical ClaimType.from_str-IsCanonical (ClaimType.from_str-as_ref d),
  canonical ClientAuthMethod.IsCanonical ClientAuthMethod.from_str-IsCanonical
      (ClientAuthMethod.from_str-as_ref e),
  canonical GrantType.IsCanonical GrantType.from_str-IsCanonical (GrantType.from_str-as_ref f),
  canonical RegisterErrorResponseType.IsCanonical RegisterErrorResponseType.from_str-IsCanonical
      (RegisterErrorResponseType.from_str-as_ref g),
  canonical ResponseMode.IsCanonical ResponseMode.from_str-IsCanonical
      (ResponseMode.from_str-as_ref h),
  canonical ResponseType.IsCanonical ResponseType.from_str-IsCanonical
      (ResponseType.from_str-as_ref i),
  canonical SubjectIdentifierType.IsCanonical SubjectIdentifierType.from_str-IsCanonical
      (SubjectIdentifierType.from_str-as_ref j),
  canonical JsonWebKeyUse.IsCanonical JsonWebKeyUse.from_str-IsCanonical
      (JsonWebKeyUse.from_str-as_ref k),
)

misspelling : ◌≢◌ {A = String} "invalid_request_obbject" "invalid_request_object"
misspelling e = false≢true ((eq_iff "invalid_request_obbject" "invalid_request_object").1 e)

written_iff : (s : String) → (AuthErrorResponseType.written s ≡ s) ↔ (s ≢ "invalid_request_object")
written_iff s = (
  λ e p. misspelling (sym (ap AuthErrorResponseType.written p) ∙ e ∙ p),
  λ n. rw (eq_false n) refl,
)

-- An error of the authorization endpoint that is read from a text is written back as the same text for
-- every text but "invalid_request_object", which is written back with a misspelling.
pub as_ref-from_str_error :
    (s : String)
    → (AuthErrorResponseType.as_ref (AuthErrorResponseType.from_str s) ≡ s)
      ↔ (s ≢ "invalid_request_object")
as_ref-from_str_error s = rw (AuthErrorResponseType.as_ref-from_str_lem s) (written_iff s)
