-- ===== src/Discovery/Exact.antt =====
-- src/discovery.rs: what discovery returns.
use openidconnect_rs.Prelude.{
  [], ◌∷◌, ℕ, String, ◌≡◌, ◌↔◌, ◌⊎◌, inl, inr, refl, sym, ap, ◌∙◌, Option, Result, ok, err,
  nat_eq_iff, if_ok_iff, >>=-iff, map_err_iff, >>-eq-ok, >>-intro, ok_inj, eq_iff,
}
use openidconnect_rs.Types.Platform.{Platform, UrlText, eq}
use openidconnect_rs.Types.KeySet.{JsonWebKeySet}
use openidconnect_rs.Traits.{Suite}
use openidconnect_rs.Http.Essence.{IsOfType, check_content_type_iff}
use openidconnect_rs.Http.{Request, Method, Http, HttpResponse, mime_type_json}
use openidconnect_rs.Discovery.Metadata.{Vocabulary, ProviderMetadata}
use openidconnect_rs.Discovery.Slash.{ConfigurationOf, join_iff}
use openidconnect_rs.Discovery.{
  mime_type_jwks, Documents, check_keys_type, or_first, fetch_response, validate_issuer,
  discovery_response, fetch, discover,
}

or_first_iff :
    (a b : Result (Unit {0}) String) → (or_first a b ≡ ok tt) ↔ ((a ≡ ok tt) ⊎ (b ≡ ok tt))
unfolding or_first
or_first_iff (ok u) b = (λ e. inl refl, λ w. refl)
or_first_iff (err e) b =
    (λ h. inr ((map_err_iff _ _).0 h), λ w. elim w [ inl q ↦ cc q | inr q ↦ (map_err_iff _ _).1 q ])

module _ (h : Http) where
  check_keys_type_iff :
      (p : Platform) (content_type : Option h.HeaderValue)
      → (check_keys_type p h content_type ≡ ok tt) ↔ (
          IsOfType h content_type "application/json"
          ⊎ IsOfType h content_type "application/jwk-set+json")
  unfolding check_keys_type
  check_keys_type_iff p content_type = (
    λ e. elim ((or_first_iff _ _).0 e) [
      | inl a ↦ inl ((check_content_type_iff h content_type mime_type_json).0 a)
      | inr b ↦ inr ((check_content_type_iff h content_type mime_type_jwks).0 b)
    ],
    λ w. (or_first_iff _ _).1 (elim w [
      | inl a ↦ inl ((check_content_type_iff h content_type mime_type_json).1 a)
      | inr b ↦ inr ((check_content_type_iff h content_type mime_type_jwks).1 b)
    ]),
  )

module _ {p : Platform} {t : Suite} {n : Vocabulary} {A : Type 0} (d : Documents p t n A) (h : Http)
    (RE : Type 0) (http_client : ℕ → Request p.Url h → Result (HttpResponse h) RE) where
  -- The client got the answer to a request for the URL, by GET, which accepts JSON and has no body, with
  -- status 200.
  abbrev pub Got : ℕ → p.Url → HttpResponse h → Type 0
  Got call url resp =
      (http_client call (record {
        url = url;
        method = Method.get;
        headers = ("accept", h.from_static "application/json") ∷ [];
        body = [];
      })
        ≡ ok resp)
      × (resp.status_code ≡ 200)

  -- The answer is a document of metadata in JSON, of the issuer that was asked.
  abbrev pub IsMetadata : UrlText p → HttpResponse h → ProviderMetadata p t n A → Type 0
  IsMetadata issuer resp m =
      IsOfType h resp.content_type "application/json"
      × (d.metadata_from_slice resp.body ≡ ok m)
      × (m.issuer.text ≡ issuer.text)

  abbrev pub AreKeys : HttpResponse h → JsonWebKeySet t → Type 0
  AreKeys resp ks =
      (IsOfType h resp.content_type "application/json"
        ⊎ IsOfType h resp.content_type "application/jwk-set+json")
      × (d.keys_from_slice resp.body ≡ ok ks)

  fetch_iff :
      (call : ℕ) (url : UrlText p) (ks : JsonWebKeySet t)
      → (fetch d h RE http_client call url ≡ ok ks)
        ↔ ((resp : HttpResponse h) × Got call url.url resp × AreKeys resp ks)
  unfolding fetch fetch_response
  fetch_iff call url ks = (
    λ e.
        let (resp, got, e₁) = (>>=-iff _ _).0 e in
        let (status, e₂) = (if_ok_iff _ _ _).0 e₁ in
        let (typed, read) = >>-eq-ok _ _ e₂ in
        (
          resp,
          ((map_err_iff _ _).0 got, (nat_eq_iff _ _).0 status),
          ((check_keys_type_iff h p _).0 ((map_err_iff _ _).0 typed), (map_err_iff _ _).0 read),
        ),
    λ (resp, (got, status), (typed, read)). (>>=-iff _ _).1 (
      resp,
      (map_err_iff _ _).1 got,
      (if_ok_iff _ _ _).1 (
        (nat_eq_iff _ _).1 status,
        >>-intro ((map_err_iff _ _).1 ((check_keys_type_iff h p _).1 typed))
            ((map_err_iff _ _).1 read),
      ),
    ),
  )

  discovery_response_iff :
      (issuer : UrlText p) (resp : HttpResponse h) (m : ProviderMetadata p t n A)
      → (discovery_response d h RE issuer resp ≡ ok m)
        ↔ ((resp.status_code ≡ 200) × IsMetadata issuer resp m)
  unfolding discovery_response validate_issuer eq
  discovery_response_iff issuer resp m = (
    λ e.
        let (status, e₁) = (if_ok_iff _ _ _).0 e in
        let (typed, e₂) = >>-eq-ok _ _ e₁ in
        let (m', read, e₃) = (>>=-iff _ _).0 e₂ in
        let (same, q) = (if_ok_iff _ _ _).0 e₃ in
        (
          (nat_eq_iff _ _).0 status,
          (
            (check_content_type_iff h _ _).0 ((map_err_iff _ _).0 typed),
            (map_err_iff _ _).0 read ∙ ap ok (ok_inj q),
            ap (λ z. z.issuer.text) (sym (ok_inj q)) ∙ (eq_iff _ _).0 same,
          ),
        ),
    λ (status, (typed, read, same)). (if_ok_iff _ _ _).1 (
      (nat_eq_iff _ _).1 status,
      >>-intro ((map_err_iff _ _).1 ((check_content_type_iff h _ _).1 typed)) (
          (>>=-iff _ _).1
            (m, (map_err_iff _ _).1 read, (if_ok_iff _ _ _).1 ((eq_iff _ _).1 same, refl))),
    ),
  )

  -- Discovery returns metadata exactly if the first request, for .well-known/openid-configuration after
  -- the issuer's text, with one slash between them if the text does not end with one, is answered with status 200 by metadata of type JSON, or of no type, whose issuer has the text
  -- of the issuer that was asked; the second request, for the URL of the key set that this metadata
  -- names, is answered with status 200 by keys of type JSON or JWK set, or of no type; and what is
  -- returned is the metadata with these keys.
  pub discover_exact :
      (issuer : UrlText p) (m : ProviderMetadata p t n A)
      → (discover d h RE http_client issuer ≡ ok m) ↔ (
          (url : p.Url) × ConfigurationOf p issuer url
          × (resp : HttpResponse h) × Got 0 url resp
          × (named : ProviderMetadata p t n A) × IsMetadata issuer resp named
          × (keys_resp : HttpResponse h) × Got 1 named.jwks_uri.url keys_resp
          × (ks : JsonWebKeySet t) × AreKeys keys_resp ks
          × (record named { jwks = ks } ≡ m))
  unfolding discover
  discover_exact issuer m = (
    λ e.
        let (url, joined, e₁) = (>>=-iff _ _).0 e in
        let (resp, got, e₂) = (>>=-iff _ _).0 e₁ in
        let (named, read, e₃) = (>>=-iff _ _).0 e₂ in
        let (ks, fetched, e₄) = (>>=-iff _ _).0 e₃ in
        let (status, is_metadata) = (discovery_response_iff issuer resp named).0 read in
        let (keys_resp, got_keys, are_keys) = (fetch_iff 1 named.jwks_uri ks).0 fetched in
        (
          url,
          (join_iff p h issuer url).0 ((map_err_iff _ _).0 joined),
          resp,
          ((map_err_iff _ _).0 got, status),
          named,
          is_metadata,
          keys_resp,
          got_keys,
          ks,
          are_keys,
          ok_inj e₄,
        ),
    λ (url, joined, resp, (got, status), named, is_metadata, keys_resp, got_keys, ks, are_keys, e).
        (>>=-iff _ _).1 (
          url,
          (map_err_iff _ _).1 ((join_iff p h issuer url).1 joined),
          (>>=-iff _ _).1 (
            resp,
            (map_err_iff _ _).1 got,
            (>>=-iff _ _).1 (
              named,
              (discovery_response_iff issuer resp named).1 (status, is_metadata),
              (>>=-iff _ _).1
                  (ks, (fetch_iff 1 named.jwks_uri ks).1 (keys_resp, got_keys, are_keys), ap ok e),
            ),
          ),
        ),
  )
