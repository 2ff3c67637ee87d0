-- ===== src/Client/Trust.antt =====
-- Which ID tokens the verifier of a client trusts, and what that means for a discovered provider.
use openidconnect_rs.Prelude.{
  ℕ, ◌≡◌, ◌≢◌, ◌↔◌, ◌⊎◌, refl, sym, ap, ◌∙◌, String, Bool, true, false, Option, none, some, List,
  [], ◌∷◌, All, Any, OnlyPasses, Result, ok, arith, eq_iff,
}
use openidconnect_rs.Text.{as_bytes}
use openidconnect_rs.Types.Platform.{Platform, UrlText}
use openidconnect_rs.Types.KeySet.{JsonWebKeySet}
use openidconnect_rs.Traits.{Suite}
use openidconnect_rs.Jwt.{JsonWebToken, signature}
use openidconnect_rs.Claims.IdToken.{IdTokenClaims, id_token_access}
use openidconnect_rs.Verification.Accepts.{IsPlain, IsEligible}
use openidconnect_rs.Verification.JwtSettings
use openidconnect_rs.Verification.IdToken
use openidconnect_rs.Verification.IdToken.{
  Verdict, IdTokenVerifier, verified_claims, new_public_client, new_confidential_client,
  set_allowed_algs,
}
use openidconnect_rs.Verification.IdToken.Exact.{id_token_exact}
use openidconnect_rs.Http.{Http, HttpResponse, Request}
use openidconnect_rs.Oauth2.{Oauth2}
use openidconnect_rs.Discovery.Metadata.{Vocabulary, ProviderMetadata}
use openidconnect_rs.Discovery.{Documents, discover}
use openidconnect_rs.Discovery.Exact.{Got, discover_exact}
use openidconnect_rs.Client.{
  Client, from_provider_metadata, id_token_verifier, client_verifier, with_algs,
}

-- The algorithms of the provider, or else the default.
abbrev pub trusted_algs : (t : Suite) → Option (List t.SigningAlg) → List t.SigningAlg
trusted_algs t none = t.rsa_sha_256 ∷ []
trusted_algs t (some algs) = algs

module _ {t : Suite} {C : Type 0} (jwt : JsonWebToken t C) where
  abbrev pub IsSignedBy : t.SigningAlg → t.Key → Type 0
  IsSignedBy alg key = t.verify_signature key alg (as_bytes jwt.signing_input) jwt.signature ≡ ok tt

  -- By the secret of the client, under algorithms of shared secrets, and else by the one key of the
  -- set that may have signed this token.
  abbrev pub IsSignedFor : Option String → JsonWebKeySet t → t.SigningAlg → Type 0
  IsSignedFor client_secret jwks alg =
      ((t.uses_shared_secret alg ≡ true)
        × ((secret : String) × (client_secret ≡ some secret)
            × IsSignedBy alg (t.new_symmetric (as_bytes secret))))
      ⊎ ((t.uses_shared_secret alg ≡ false)
          × ((key : t.Key) × OnlyPasses (IsEligible t alg jwt.header.kid) jwks.keys key
              × IsSignedBy alg key))

module _ {p : Platform} {o : Oauth2 p} {t : Suite} where
  plain_verifier : Client o t → Option String → List t.SigningAlg → IdTokenVerifier p t
  unfolding IdToken.new JwtSettings.new
  plain_verifier c secret algs =
      let v = IdToken.new (JwtSettings.new c.client_id c.issuer c.jwks) in
      record v {
        jwt_verifier = record v.jwt_verifier { client_secret = secret; allowed_algs = some algs };
      }

  verifier_parts :
      (c : Client o t) (secret : Option String) (algs : Option (List t.SigningAlg))
      → with_algs algs (client_verifier secret c) ≡ plain_verifier c secret (trusted_algs t algs)
  unfolding with_algs client_verifier plain_verifier new_public_client new_confidential_client
      set_allowed_algs
  verifier_parts c none none = refl
  verifier_parts c none (some algs) = refl
  verifier_parts c (some s) none = refl
  verifier_parts c (some s) (some algs) = refl

  -- What a client trusts.
  pub record Trusts (c : Client o t) {AC GC : Type 0} (jwt : JsonWebToken t (IdTokenClaims p AC GC))
      (n : Option String → Verdict) : Type 0 where
    pub header : IsPlain jwt.header
    pub issuer : jwt.payload.issuer.text ≡ c.issuer.text
    pub audience : Any (λ aud. aud ≡ c.client_id) jwt.payload.audiences
    pub no_other : All (λ aud. aud ≡ c.client_id) jwt.payload.audiences
    pub signed :
        (alg : t.SigningAlg) × (jwt.header.alg ≡ signature alg)
        × Any (λ a. alg ≡ a) (trusted_algs t c.id_token_signing_algs)
        × IsSignedFor jwt c.client_secret c.jwks alg
    pub fresh : p.time_leb jwt.payload.expiration p.now ≡ false
    pub nonce : n jwt.payload.nonce ≡ ok tt

own_iff :
    (client_id : String) (auds : List String)
    → All (λ aud. aud ≢ client_id → ◌≡◌ {A = Bool} false true) auds
      ↔ All (λ aud. aud ≡ client_id) auds
own_iff client_id [] = (λ h. tt, λ h. tt)
own_iff client_id (a ∷ auds) = (
  λ (f, h). (ground (arith, f, eq_iff a client_id), (own_iff client_id auds).0 h),
  λ (e, h). (λ n. absurd (n e), (own_iff client_id auds).1 h),
)

module _ {p : Platform} {o : Oauth2 p} {t : Suite} {AC GC : Type 0} (c : Client o t)
    (jwt : JsonWebToken t (IdTokenClaims p AC GC)) (n : Option String → Verdict) where
  plain_exact :
      (claims : IdTokenClaims p AC GC)
      → (verified_claims
            (plain_verifier c c.client_secret (trusted_algs t c.id_token_signing_algs))
            jwt
            n
          ≡ ok claims)
        ↔ (Trusts c jwt n × (jwt.payload ≡ claims))
  unfolding plain_verifier
  plain_exact claims =
      let v = plain_verifier c c.client_secret (trusted_algs t c.id_token_signing_algs) in
      (
        λ h.
            let (accepted, current, e) = (id_token_exact v jwt n claims).0 h in
            let (mine, others) = accepted.audience refl in
            (
              record {
                header = accepted.header;
                issuer = accepted.issuer refl;
                audience = mine;
                no_other = (own_iff c.client_id jwt.payload.audiences).0 others;
                signed = accepted.signed refl;
                fresh = current.expiration;
                nonce = current.nonce;
              },
              e,
            ),
        λ (trusts, e). (id_token_exact v jwt n claims).1 (
          record {
            header = trusts.header;
            issuer = λ _. trusts.issuer;
            audience = λ _.
                (trusts.audience, (own_iff c.client_id jwt.payload.audiences).1 trusts.no_other);
            signed = λ _. trusts.signed;
          },
          record {
            expiration = trusts.fresh;
            issue_time = refl;
            nonce = trusts.nonce;
            auth_context = refl;
            auth_time = refl;
          },
          e,
        ),
      )

  -- The verifier of a client accepts exactly the tokens that the client trusts: with a plain header, of
  -- its issuer, for it and no other audience, not expired, passing the nonce verifier and signed under
  -- an algorithm of the provider (or RS256, where none are known) by the client's secret or by the one
  -- eligible key of the provider; and it returns their claims.
  pub client_exact :
      (claims : IdTokenClaims p AC GC)
      → (verified_claims (id_token_verifier c) jwt n ≡ ok claims)
        ↔ (Trusts c jwt n × (jwt.payload ≡ claims))
  unfolding id_token_verifier
  client_exact claims =
      rw (verifier_parts c c.client_secret c.id_token_signing_algs) (plain_exact claims)

module _ {p : Platform} (o : Oauth2 p) {t : Suite} {n : Vocabulary} {A AC GC : Type 0}
    (d : Documents p t n A) (h : Http) (RE : Type 0)
    (http_client : ℕ → Request p.Url h → Result (HttpResponse h) RE) where
  -- If discovery returned the metadata for an issuer URL, and the verifier of a client that is made of
  -- it accepts a token, then the claims are of an issuer with the text of that URL and name the client
  -- as an audience, the token is signed under an algorithm that the metadata lists, by the client's
  -- secret or by the one eligible key of its key set, and the provider answered the request for that
  -- key set with these keys.
  pub discovered_trust :
      (issuer_url : UrlText p) (m : ProviderMetadata p t n A) (client_id : String)
      (client_secret : Option String) (jwt : JsonWebToken t (IdTokenClaims p AC GC))
      (nonce_verifier : Option String → Verdict) (claims : IdTokenClaims p AC GC)
      → discover d h RE http_client issuer_url ≡ ok m
      → verified_claims
          (id_token_verifier (from_provider_metadata o m client_id client_secret))
          jwt
          nonce_verifier
        ≡ ok claims
      → (claims.issuer.text ≡ issuer_url.text)
        × Any (λ aud. aud ≡ client_id) claims.audiences
        × (alg : t.SigningAlg) × (jwt.header.alg ≡ signature alg)
        × Any (λ a. alg ≡ a) m.id_token_signing_alg_values_supported
        × (resp : HttpResponse h) × Got d h RE http_client 1 m.jwks_uri.url resp
        × (d.keys_from_slice resp.body ≡ ok m.jwks)
        × IsSignedFor jwt client_secret m.jwks alg
  unfolding from_provider_metadata
  discovered_trust issuer_url m client_id client_secret jwt nonce_verifier claims found verified =
      let client = from_provider_metadata o m client_id client_secret in
      let (
        url,
        joined,
        resp,
        got,
        named,
        (typed, read, same),
        keys_resp,
        (sent, status),
        ks,
        (keys_typed, keys_read),
        e,
      ) =
        (discover_exact d h RE http_client issuer_url m).0 found in
      let (trusts, q) = (client_exact client jwt nonce_verifier claims).0 verified in
      let (alg, is_alg, listed, signed) = trusts.signed in
      (
        ap (λ z. z.issuer.text) (sym q) ∙ trusts.issuer ∙ ap (λ z. z.issuer.text) (sym e) ∙ same,
        rw (← q) trusts.audience,
        alg,
        is_alg,
        listed,
        keys_resp,
        (rw (ap (λ z. z.jwks_uri.url) (sym e)) sent, status),
        keys_read ∙ ap (λ z. ok z.jwks) e,
        signed,
      )
