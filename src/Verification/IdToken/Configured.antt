-- ===== src/Verification/IdToken/Configured.antt =====
-- Verifiers that are built from a start by any sequence of the setters of IdTokenVerifier, and what
-- no such sequence can undo.
use openidconnect_rs.Prelude.{◌≡◌, refl, String, Bool, Option, List}
use openidconnect_rs.Types.Platform.{Platform}
use openidconnect_rs.Traits.{Suite}
use openidconnect_rs.Claims.IdToken.{id_token_access}
use openidconnect_rs.Verification.IdToken.{
  Verdict, IdTokenVerifier, set_allowed_algs, allow_any_alg, set_auth_context_verifier_fn,
  set_auth_time_verifier_fn, enable_signature_check, insecure_disable_signature_check,
  require_issuer_match, require_audience_match, set_time_fn, set_issue_time_verifier_fn,
  set_other_audience_verifier_fn,
}

module _ {p : Platform} {t : Suite} where
  -- One call of a setter.
  pub data Setting : IdTokenVerifier p t → IdTokenVerifier p t → Type 0 where
    allowed_algs :
        {v : IdTokenVerifier p t} (algs : List t.SigningAlg) → Setting v (set_allowed_algs v algs)
    any_alg : {v : IdTokenVerifier p t} → Setting v (allow_any_alg v)
    auth_context :
        {v : IdTokenVerifier p t} (f : Option String → Verdict)
        → Setting v (set_auth_context_verifier_fn v f)
    auth_time :
        {v : IdTokenVerifier p t} (f : Option p.DateTime → Verdict)
        → Setting v (set_auth_time_verifier_fn v f)
    signature_check : {v : IdTokenVerifier p t} → Setting v (enable_signature_check v)
    no_signature_check : {v : IdTokenVerifier p t} → Setting v (insecure_disable_signature_check v)
    issuer_match : {v : IdTokenVerifier p t} (b : Bool) → Setting v (require_issuer_match v b)
    audience_match : {v : IdTokenVerifier p t} (b : Bool) → Setting v (require_audience_match v b)
    time : {v : IdTokenVerifier p t} (f : Unit {0} → p.DateTime) → Setting v (set_time_fn v f)
    issue_time :
        {v : IdTokenVerifier p t} (f : p.DateTime → Verdict)
        → Setting v (set_issue_time_verifier_fn v f)
    other_audience :
        {v : IdTokenVerifier p t} (f : String → Bool)
        → Setting v (set_other_audience_verifier_fn v f)

  pub data Configured (v : IdTokenVerifier p t) : IdTokenVerifier p t → Type 0 where
    here : Configured v v
    next : {w x : IdTokenVerifier p t} → Configured v w → Setting w x → Configured v x

  -- What identifies the client and its provider.
  pub record SameParties (v w : IdTokenVerifier p t) : Type 0 where
    pub client_id : w.jwt_verifier.client_id ≡ v.jwt_verifier.client_id
    pub client_secret : w.jwt_verifier.client_secret ≡ v.jwt_verifier.client_secret
    pub issuer : w.jwt_verifier.issuer ≡ v.jwt_verifier.issuer
    pub signature_keys : w.jwt_verifier.signature_keys ≡ v.jwt_verifier.signature_keys

  Setting-SameParties :
      {u v w : IdTokenVerifier p t} → SameParties u v → Setting v w → SameParties u w
  unfolding set_allowed_algs allow_any_alg set_auth_context_verifier_fn set_auth_time_verifier_fn
      enable_signature_check insecure_disable_signature_check require_issuer_match
      require_audience_match set_time_fn set_issue_time_verifier_fn set_other_audience_verifier_fn
  Setting-SameParties s (allowed_algs algs) = search (s)
  Setting-SameParties s _ = search (s)

  -- No sequence of setters changes the client id, the client secret, the issuer or the keys.
  pub Configured-SameParties : {v w : IdTokenVerifier p t} → Configured v w → SameParties v w
  Configured-SameParties here = record {
    client_id = refl;
    client_secret = refl;
    issuer = refl;
    signature_keys = refl;
  }
  Configured-SameParties (next c s) = Setting-SameParties (Configured-SameParties c) s
