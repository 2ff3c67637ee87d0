-- ===== src/Client/Subject.antt =====
-- What user info a client takes from its provider.
use openidconnect_rs.Prelude.{
  Option, Option-cases, Result, ◌∷◌, [], map_err, ok_or, map_err_iff, ◌≡◌, ap, ◌∙◌, sym, String,
  some, ok, >>=-iff, ok_or_iff, ok_inj, inl, inr,
}
use openidconnect_rs.Types.Platform.{Platform, UrlText}
use openidconnect_rs.Traits.{Suite}
use openidconnect_rs.Claims.UserInfo.{UserInfoClaimsImpl}
use openidconnect_rs.Verification.UserInfo
use openidconnect_rs.Verification.UserInfo.{HasSubject}
use openidconnect_rs.Text.{◌+++◌}
use openidconnect_rs.Http.{Http, HttpResponse, Request, Method, auth_bearer}
use openidconnect_rs.UserInfo.{Reader, UserInfoRequest, UserInfoError, panic}
use openidconnect_rs.UserInfo.Sending.{prepare_request, request}
use openidconnect_rs.UserInfo.Exact.{user_info_response_parts}
use openidconnect_rs.Oauth2.{Oauth2}
use openidconnect_rs.Client.{Client, user_info}

module _ {p : Platform} (h : Http) where
  abbrev pub asking_with : UrlText p → h.HeaderValue → Request p.Url h
  asking_with endpoint v = record {
    url = endpoint.url;
    method = Method.get;
    headers = ("accept", h.from_static "application/json") ∷ ("authorization", v) ∷ [];
    body = [];
  }

module _ {p : Platform} {t : Suite} (h : Http) where
  prepared :
      (r : UserInfoRequest p t) (q : Request p.Url h)
      → prepare_request h r ≡ some q
      → (v : h.HeaderValue) × (h.from_str ("Bearer " +++ r.access_token) ≡ some v)
        × (q ≡ asking_with h r.url v)
  unfolding prepare_request auth_bearer
  prepared r q made = elim (Option-cases (h.from_str ("Bearer " +++ r.access_token))) [
    | inl unsent ↦ cc (rw unsent at made)
    | inr (v, is_v) ↦ (v, is_v, sym (cc (rw is_v at made)))
  ]

module _ {p : Platform} {o : Oauth2 p} {t : Suite} {AC GC : Type 0} (rd : Reader p t AC GC)
    (RE : Type 0) (h : Http) where
  -- The request that asks the user info endpoint for JSON, with the access token.
  abbrev pub AsksFor : Client o t → String → Request p.Url h → Type 0
  AsksFor c access_token q =
      (endpoint : UrlText p) × (c.userinfo_endpoint ≡ some endpoint)
      × (v : h.HeaderValue) × (h.from_str ("Bearer " +++ access_token) ≡ some v)
      × (q ≡ record {
        url = endpoint.url;
        method = Method.get;
        headers = ("accept", h.from_static "application/json") ∷ ("authorization", v) ∷ [];
        body = [];
      })

  user_info_made :
      (c : Client o t) (access_token : String) (subject : Option String) (r : UserInfoRequest p t)
      → user_info c access_token subject ≡ ok r
      → (c.userinfo_endpoint ≡ some r.url)
        × (r.access_token ≡ access_token)
        × (r.signed_response_verifier.expected_subject ≡ subject)
  unfolding user_info UserInfo.new
  user_info_made c access_token subject r asked =
      let (url, is_endpoint, made) = (>>=-iff _ _).0 asked in
      let same = ok_inj made in
      (
        (ok_or_iff c.userinfo_endpoint _).0 is_endpoint ∙ ap (λ z. some z.url) same,
        ap (λ z. z.access_token) (sym same),
        ap (λ z. z.signed_response_verifier.expected_subject) (sym same),
      )

  -- If a client asks for the user info of a subject and gets claims, then it has sent a request for
  -- JSON to its user info endpoint, with the access token, and the claims are about that subject,
  -- whatever the HTTP client answers.
  pub user_info_subject :
      (http_client : Request p.Url h → Result (HttpResponse h) RE) (c : Client o t)
      (access_token subject : String) (r : UserInfoRequest p t)
      (claims : UserInfoClaimsImpl p AC GC)
      → user_info c access_token (some subject) ≡ ok r
      → request rd RE h http_client r ≡ ok claims
      → (q : Request p.Url h) × AsksFor c access_token q
        × (resp : HttpResponse h) × (http_client q ≡ ok resp)
        × (claims.standard_claims.sub ≡ subject)
  unfolding user_info request UserInfo.new
  user_info_subject http_client c access_token subject r claims asked answered =
      let (q, made, e1) = (>>=-iff (ok_or (prepare_request h r) panic) _).0 answered in
      let (resp, sent, e2) = (>>=-iff (map_err UserInfoError.request (http_client q)) _).0 e1 in
      let (status, found) = (user_info_response_parts rd RE h r claims resp).0 e2 in
      let has : HasSubject r.signed_response_verifier.expected_subject claims.standard_claims.sub =
        elim found [
          | inl plain ↦ plain.1.2
          | inr signed ↦ let (text, is_text, (jwt, read, (accepted, about, e))) = signed.2 in about
        ] in
      let (is_endpoint, is_token, is_subject) =
        user_info_made c access_token (some subject) r asked in
      let (v, is_v, is_q) = prepared h r q ((ok_or_iff _ _).0 made) in
      (
        q,
        (r.url, is_endpoint, v, rw is_token at is_v, is_q),
        resp,
        (map_err_iff _ _).0 sent,
        rw is_subject at has,
      )
