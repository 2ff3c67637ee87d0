-- ===== src/Registration/Exact.antt =====
-- When a client is registered, and when the provider's refusal is reported.
use mathlib.Core.Option
use openidconnect_rs.Prelude.{
  ℕ, String, ◌≡◌, ◌↔◌, refl, ap, ◌∙◌, Bool, true, false, not, ◌&&◌, Option, none, some, List, [],
  ◌∷◌, Result, ok, err, ◌>>=◌, map_err, ok_or, nat_eq, nat_eq_iff, unless_ok_iff, >>=-iff,
  map_err_iff, >>-eq-ok, >>-intro, >>=-intro, >>=-err, >>-err, map_err-err, ok_inj, Bool-cases, inl,
  inr,
}
use openidconnect_rs.Text.{as_bytes, ◌+++◌}
use openidconnect_rs.Types.Platform.{Platform, UrlText}
use openidconnect_rs.Traits.{Suite}
use openidconnect_rs.Http.{
  Http, HttpResponse, Request, Method, auth_bearer, mime_type_json, check_content_type,
}
use openidconnect_rs.Discovery.Metadata.{Vocabulary}
use openidconnect_rs.Http.Essence.{IsOfType, check_content_type_iff}
use openidconnect_rs.Registration.{
  Registry, ClientRegistrationRequest, ClientRegistrationResponse, ClientRegistrationError,
  server_response, response, parse, panic, auth_headers, prepare_registration, read_body,
  register_response, register,
}

only_created :
    (created bad : Bool) → (not created && not bad) ≡ false → bad ≡ false → created ≡ true
only_created true bad h k = refl
only_created false true h k = cc
only_created false false h k = cc

header_iff :
    {V W E : Type 0} (f : V → W) (failure : E) (o : Option V) (headers : List W)
    → ((ok_or (Option.map f o) failure >>= λ header. ok (header ∷ [])) ≡ ok headers)
      ↔ ((v : V) × (o ≡ some v) × (headers ≡ f v ∷ []))
header_iff f failure none headers = (λ e. cc, λ w. cc w.1)
header_iff f failure (some x) headers =
    (λ e. (x, refl, cc), λ (v, same, e). let same' : f x ≡ f v = cc same in cc (same', e))

module _ {p : Platform} {t : Suite} {n : Vocabulary} {AC AR : Type 0} (g : Registry p t n AC AR)
    (h : Http) (RE : Type 0) where
  -- The answer is the registration in JSON: status 201, of type JSON or of no type.
  abbrev pub IsRegistration : HttpResponse h → ClientRegistrationResponse p t n AC AR → Type 0
  IsRegistration resp c =
      (resp.status_code ≡ 201)
      × IsOfType h resp.content_type "application/json"
      × (text : String) × (g.from_utf8 resp.body ≡ ok text)
      × (g.response_from_str text ≡ ok c)

  read_body_iff :
      (status : ℕ) (text : String) (c : ClientRegistrationResponse p t n AC AR)
      → (read_body g h RE status text ≡ ok c)
        ↔ ((nat_eq status 400 ≡ false) × (g.response_from_str text ≡ ok c))
  unfolding read_body
  read_body_iff status text c = (
    λ e. elim (Bool-cases (nat_eq status 400)) [
      | inl bad ↦
          let (x, read, never) =
            (>>=-iff (map_err parse (g.error_from_str text)) _).0 (rw bad at e) in
          cc never
      | inr fine ↦ (fine, (map_err_iff _ _).0 (rw fine at e))
    ],
    λ (fine, read). rw fine ((map_err_iff _ _).1 read),
  )

  register_response_iff :
      (resp : HttpResponse h) (c : ClientRegistrationResponse p t n AC AR)
      → (register_response g h RE resp ≡ ok c) ↔ IsRegistration resp c
  unfolding register_response
  register_response_iff resp c = (
    λ e.
        let (known, e1) = (unless_ok_iff _ _ _).0 e in
        let (typed, e2) = >>-eq-ok _ _ e1 in
        let (text, utf8, e3) = (>>=-iff _ _).0 e2 in
        let (fine, read) = (read_body_iff resp.status_code text c).0 e3 in
        (
          (nat_eq_iff resp.status_code 201).0 (only_created _ _ known fine),
          (check_content_type_iff h _ _).0 ((map_err_iff _ _).0 typed),
          text,
          (map_err_iff _ _).0 utf8,
          read,
        ),
    λ (created, typed, text, utf8, read). (unless_ok_iff _ _ _).1 (
      rw created,
      >>-intro ((map_err_iff _ _).1 ((check_content_type_iff h _ _).1 typed)) (
          (>>=-iff _ _).1 (
            text,
            (map_err_iff _ _).1 utf8,
            (read_body_iff resp.status_code text c).1 (rw created, read),
          )),
    ),
  )

  -- The request carries the initial access token, where there is one.
  abbrev pub Authorizes : Option String → List (String × h.HeaderValue) → Type 0
  Authorizes none headers = headers ≡ []
  Authorizes (some access_token) headers =
      (v : h.HeaderValue) × (h.from_str ("Bearer " +++ access_token) ≡ some v)
      × (headers ≡ ("authorization", v) ∷ [])

  abbrev pub Asks : ClientRegistrationRequest p t n AC → UrlText p → Request p.Url h → Type 0
  Asks r endpoint q =
      (json : String) × (g.metadata_to_string r.client_metadata ≡ ok json)
      × (auth : List (String × h.HeaderValue)) × Authorizes r.initial_access_token auth
      × (record {
        url = endpoint.url;
        method = Method.post;
        headers =
            ("accept", h.from_static "application/json")
            ∷ ("content-type", h.from_static "application/json")
            ∷ auth;
        body = as_bytes json;
      }
          ≡ q)

  auth_headers_iff :
      (token : Option String) (headers : List (String × h.HeaderValue))
      → (auth_headers g h RE token ≡ ok headers) ↔ Authorizes token headers
  unfolding auth_headers auth_bearer
  auth_headers_iff none headers = (λ e. cc, λ e. cc)
  auth_headers_iff (some token) headers =
      header_iff (λ v. ("authorization", v)) panic (h.from_str ("Bearer " +++ token)) headers

  prepare_iff :
      (r : ClientRegistrationRequest p t n AC) (endpoint : UrlText p) (q : Request p.Url h)
      → (prepare_registration g h RE r endpoint ≡ ok q) ↔ Asks r endpoint q
  unfolding prepare_registration
  prepare_iff r endpoint q = (
    λ e.
        let (json, written, e1) = (>>=-iff _ _).0 e in
        let (auth, authorized, made) = (>>=-iff _ _).0 e1 in
        (
          json,
          (map_err_iff _ _).0 written,
          auth,
          (auth_headers_iff r.initial_access_token auth).0 authorized,
          ok_inj made,
        ),
    λ (json, written, auth, authorized, made). (>>=-iff _ _).1 (
      json,
      (map_err_iff _ _).1 written,
      (>>=-iff _ _).1
          (auth, (auth_headers_iff r.initial_access_token auth).1 authorized, ap ok made),
    ),
  )

  -- A client is registered exactly if its metadata is written as JSON and the request that posts it to
  -- the endpoint, with headers that accept and state JSON and carry the initial access token, where
  -- there is one, is answered with status 201 by the registration that is returned, in JSON of type
  -- JSON or of no type.
  pub register_exact :
      (http_client : Request p.Url h → Result (HttpResponse h) RE)
      (r : ClientRegistrationRequest p t n AC) (endpoint : UrlText p)
      (c : ClientRegistrationResponse p t n AC AR)
      → (register g h RE http_client r endpoint ≡ ok c) ↔ (
          (q : Request p.Url h) × Asks r endpoint q
          × (resp : HttpResponse h) × (http_client q ≡ ok resp)
          × IsRegistration resp c)
  unfolding register
  register_exact http_client r endpoint c = (
    λ e.
        let (q, prepared, e1) = (>>=-iff _ _).0 e in
        let (resp, sent, e2) = (>>=-iff _ _).0 e1 in
        (
          q,
          (prepare_iff r endpoint q).0 prepared,
          resp,
          (map_err_iff _ _).0 sent,
          (register_response_iff resp c).0 e2,
        ),
    λ (q, asks, resp, sent, registers). (>>=-iff _ _).1 (
      q,
      (prepare_iff r endpoint q).1 asks,
      (>>=-iff _ _).1 (resp, (map_err_iff _ _).1 sent, (register_response_iff resp c).1 registers),
    ),
  )

  -- The provider refuses: status 400, of type JSON or of no type, and an error in JSON.
  abbrev pub IsRefusal : HttpResponse h → g.ErrorResponse → Type 0
  IsRefusal resp e =
      (resp.status_code ≡ 400)
      × IsOfType h resp.content_type "application/json"
      × (text : String) × (g.from_utf8 resp.body ≡ ok text)
      × (g.error_from_str text ≡ ok e)

  refused_body :
      (status : ℕ) (text : String) (e : g.ErrorResponse)
      → read_body g h RE status text ≡ err (server_response e)
      → (status ≡ 400) × (g.error_from_str text ≡ ok e)
  unfolding read_body
  refused_body status text e q = elim (Bool-cases (nat_eq status 400)) [
    | inl bad ↦ elim (>>=-err (map_err parse (g.error_from_str text)) _ (rw bad at q)) [
      | inl unread ↦ let (x, failed, clash) = map_err-err parse _ unread in cc clash
      | inr read ↦
          let same : read.0 ≡ e = cc read.2 in
          ((nat_eq_iff status 400).0 bad, (map_err_iff _ _).0 read.1 ∙ ap ok same)
    ]
    | inr fine ↦ let (x, failed, clash) = map_err-err parse _ (rw fine at q) in cc clash
  ]

  refused_text :
      (resp : HttpResponse h) (e : g.ErrorResponse)
      → register_response g h RE resp ≡ err (server_response e)
      → IsRefusal resp e
  unfolding register_response
  refused_text resp e q =
      let unacceptable : String
          → ClientRegistrationError g.ParseError g.SerializeError g.ErrorResponse RE =
        response resp.status_code resp.body in
      let not_utf8 : String
          → ClientRegistrationError g.ParseError g.SerializeError g.ErrorResponse RE =
        λ x. ClientRegistrationError.other ("couldn't parse response as UTF-8: " +++ x) in
      elim (Bool-cases (not (nat_eq resp.status_code 201) && not (nat_eq resp.status_code 400))) [
        | inl unknown ↦ cc (rw unknown at q)
        | inr known ↦
            elim (>>-err
              (map_err unacceptable (check_content_type h resp.content_type mime_type_json)) _
              (rw known at q)) [
                | inl untyped ↦
                    let (x, failed, clash) =
                      map_err-err unacceptable
                        (check_content_type h resp.content_type mime_type_json) untyped in
                    cc clash
                | inr typed ↦ elim (>>=-err (map_err not_utf8 (g.from_utf8 resp.body)) _ typed.1) [
                  | inl unread ↦
                      let (x, failed, clash) =
                        map_err-err not_utf8 (g.from_utf8 resp.body) unread in
                      cc clash
                  | inr read ↦
                      let (bad, is_error) = refused_body resp.status_code read.0 e read.2 in
                      (
                        bad,
                        (check_content_type_iff h _ _).0 ((map_err_iff unacceptable _).0 typed.0),
                        read.0,
                        (map_err_iff not_utf8 _).0 read.1,
                        is_error,
                      )
                ]
              ]
      ]

  -- A response is reported as the refusal of the provider exactly if its status is 400, it is of type
  -- JSON or of no type, and its body is the JSON of that error.
  pub register_response_refuses :
      (resp : HttpResponse h) (e : g.ErrorResponse)
      → (register_response g h RE resp ≡ err (server_response e)) ↔ IsRefusal resp e
  unfolding register_response read_body
  register_response_refuses resp e = (
    refused_text resp e,
    λ (bad, typed, text, utf8, is_error). rw bad (
        >>-intro ((map_err_iff _ _).1 ((check_content_type_iff h _ _).1 typed)) (
          >>=-intro _ ((map_err_iff _ _).1 utf8)
            (>>=-intro _ ((map_err_iff _ _).1 is_error) refl))),
  )
