-- ===== src/UserInfo/Exact.antt =====
-- src/user_info.rs: which responses of a provider give claims.
use openidconnect_rs.Prelude.{
  ℕ, String, ◌≡◌, ◌↔◌, ◌⊎◌, inl, inr, refl, ap, ◌∙◌, Bool, true, false, Option, none, some, List,
  Result, ok, err, nat_eq_iff, eq_iff, if_ok_iff, unless_ok_iff, >>=-iff, map_err_iff,
  if◌then◌else◌,
}
use openidconnect_rs.Types.Platform.{Platform}
use openidconnect_rs.Traits.{Suite}
use openidconnect_rs.Jwt.{JsonWebToken}
use openidconnect_rs.Jwt.Encoding.{visit_str}
use openidconnect_rs.Claims.UserInfo.{UserInfoClaimsImpl, user_info_access}
use openidconnect_rs.Verification.Accepts.{Accepts}
use openidconnect_rs.Verification.UserInfo.{HasSubject, subject_iff, user_info_exact}
use openidconnect_rs.Text.{to_lowercase}
use openidconnect_rs.Http.Essence.{HasType, IsOfType, content_type_exact}
use openidconnect_rs.Http.{
  before_semicolon, text_has_essence, Http, HttpResponse, content_type_has_essence, mime_type_json,
  mime_type_jwt,
}
use openidconnect_rs.UserInfo.{
  Reader, UserInfoRequest, from_json, json_response, jwt_response, typed_response,
  content_type_or_json, user_info_response,
}

-- What the test of an essence says of the content type of the response, or of JSON if it has none.
abbrev HasEssence : (h : Http) → HttpResponse h → String → Bool → Type 0
HasEssence h resp essence b =
    content_type_has_essence h (content_type_or_json h resp.content_type) essence ≡ b

the_value : {A : Type 0} {a b : A} → some a ≡ some b → a ≡ b
the_value e = cc e

module _ (h : Http) where
  -- The content type is that of a JWT.
  abbrev pub IsJwt : Option h.HeaderValue → Type 0
  IsJwt content_type =
      (ct : h.HeaderValue) × (content_type ≡ some ct) × HasType h ct "application/jwt"

  one_type :
      (o : Option String)
      → text_has_essence o "application/jwt" ≡ true
      → text_has_essence o "application/json" ≡ false
  unfolding text_has_essence to_lowercase
  one_type none e = refl
  one_type (some ct) e =
      let is_jwt = (eq_iff (to_lowercase (before_semicolon ct)) "application/jwt").0 e in
      rw is_jwt refl

  no_json :
      h.to_str (h.from_static "application/json") ≡ some "application/json"
      → ¬ (content_type_has_essence h (h.from_static "application/json") "application/json" ≡ false)
  unfolding content_type_has_essence text_has_essence before_semicolon to_lowercase
  no_json readable e = cc (rw readable at e)

  module _ (readable : h.to_str (h.from_static "application/json") ≡ some "application/json") where
    IsOfType-iff :
        (o : Option h.HeaderValue)
        → (content_type_has_essence h (content_type_or_json h o) "application/json" ≡ true)
          ↔ IsOfType h o "application/json"
    unfolding content_type_or_json content_type_has_essence text_has_essence before_semicolon
        to_lowercase
    IsOfType-iff none = (λ e ct q. cc, λ f. rw readable refl)
    IsOfType-iff (some ct) = (
      λ e ct' q. rw (the_value q) at ((content_type_exact h ct "application/json").0 e),
      λ f. (content_type_exact h ct "application/json").1 (f ct refl),
    )

    IsJwt-iff :
        (o : Option h.HeaderValue)
        → ((content_type_has_essence h (content_type_or_json h o) "application/json" ≡ false)
            × (content_type_has_essence h (content_type_or_json h o) "application/jwt" ≡ true))
          ↔ IsJwt o
    unfolding content_type_or_json content_type_has_essence text_has_essence before_semicolon
        to_lowercase
    IsJwt-iff none = (λ e. absurd (no_json readable e.0), λ w. cc w.1)
    IsJwt-iff (some ct) = (
      λ e. (ct, refl, (content_type_exact h ct "application/jwt").0 e.1),
      λ (ct', same, has).
          let jwt =
            (content_type_exact h ct "application/jwt").1 (rw (← (the_value same)) at has) in
          (one_type (h.to_str ct) jwt, jwt),
    )

module _ {p : Platform} {t : Suite} {AC GC : Type 0} (rd : Reader p t AC GC) (RE : Type 0)
    (h : Http) (r : UserInfoRequest p t) (c : UserInfoClaimsImpl p AC GC) where
  -- The body is the JSON of the claims, which need not be signed and are about the expected subject.
  abbrev pub IsPlainResponse : List ℕ → Type 0
  IsPlainResponse body =
      (r.require_signed_response ≡ false)
      × (rd.claims_from_slice body ≡ ok c)
      × HasSubject r.signed_response_verifier.expected_subject c.standard_claims.sub

  -- The text is that of a token with the claims, which the verifier should accept and which is about
  -- the expected subject.
  abbrev pub IsSignedText : String → Type 0
  IsSignedText s =
      (jwt : JsonWebToken t (UserInfoClaimsImpl p AC GC)) × (visit_str rd.codec s ≡ ok jwt)
      × (Accepts r.signed_response_verifier.jwt_verifier jwt
          × HasSubject r.signed_response_verifier.expected_subject c.standard_claims.sub
          × (jwt.payload ≡ c))

  abbrev pub IsSignedResponse : List ℕ → Type 0
  IsSignedResponse body = (s : String) × (rd.from_utf8 body ≡ some s) × IsSignedText s

  json_iff : (body : List ℕ) → (json_response rd RE h r body ≡ ok c) ↔ IsPlainResponse body
  unfolding json_response from_json
  json_iff body = (
    λ e.
        let (unsigned, e₁) = (unless_ok_iff _ _ _).0 e in
        let (u, read, e₂) = (>>=-iff _ _).0 e₁ in
        let (subject, same) = (subject_iff _ u c).0 ((map_err_iff _ _).0 e₂) in
        (unsigned, (map_err_iff _ _).0 read ∙ ap ok same, rw same at subject),
    λ (unsigned, read, subject). (unless_ok_iff _ _ _).1 (
      unsigned,
      (>>=-iff _ _).1 (
        c,
        (map_err_iff _ _).1 read,
        (map_err_iff _ _).1 ((subject_iff _ c c).1 (subject, refl)),
      ),
    ),
  )

  jwt_text_iff :
      (text : Option String)
      → (jwt_response rd RE h r text ≡ ok c) ↔ ((s : String) × (text ≡ some s) × IsSignedText s)
  unfolding jwt_response
  jwt_text_iff none = (λ e. cc, λ w. cc w.1)
  jwt_text_iff (some s) = (
    λ e.
        let (jwt, read, e₁) = (>>=-iff _ _).0 e in
        (
          s,
          refl,
          (jwt, (map_err_iff _ _).0 read, (user_info_exact _ jwt c).0 ((map_err_iff _ _).0 e₁)),
        ),
    λ (s', same, (jwt, read, accepted)). (>>=-iff _ _).1 (
      jwt,
      (map_err_iff _ _).1 (ap (visit_str rd.codec) (cc) ∙ read),
      (map_err_iff _ _).1 ((user_info_exact _ jwt c).1 accepted),
    ),
  )

  -- The two tests of the content type.
  typed_iff :
      {E P Q : Type 0} (json jwt : Bool) {m n : Result (UserInfoClaimsImpl p AC GC) E} (e : E)
      → (m ≡ ok c) ↔ P
      → (n ≡ ok c) ↔ Q
      → ((if json then m else if jwt then n else err e) ≡ ok c)
        ↔ (((json ≡ true) × P) ⊎ ((json ≡ false) × (jwt ≡ true) × Q))
  typed_iff true jwt e a b =
      (λ h. inl (refl, a.0 h), λ w. elim w [ inl q ↦ a.1 q.1 | inr q ↦ cc q.0 ])
  typed_iff false true e a b =
      (λ h. inr (refl, refl, b.0 h), λ w. elim w [ inl q ↦ cc q.0 | inr q ↦ b.1 q.2 ])
  typed_iff false false e a b = (λ h. cc, λ w. elim w [ inl q ↦ cc q.0 | inr q ↦ cc q.1 ])

  pub user_info_response_parts :
      (resp : HttpResponse h)
      → (user_info_response rd RE h r resp ≡ ok c) ↔ (
          (resp.status_code ≡ 200)
          × ((HasEssence h resp mime_type_json true × IsPlainResponse resp.body)
              ⊎ (HasEssence h resp mime_type_json false
                  × HasEssence h resp mime_type_jwt true
                  × IsSignedResponse resp.body)))
  unfolding user_info_response typed_response
  user_info_response_parts resp =
      let types =
        typed_iff
          (content_type_has_essence h (content_type_or_json h resp.content_type) mime_type_json)
          (content_type_has_essence h (content_type_or_json h resp.content_type) mime_type_jwt) _
          (json_iff resp.body) (jwt_text_iff (rd.from_utf8 resp.body)) in
      (
        λ e. let (status, e₁) = (if_ok_iff _ _ _).0 e in ((nat_eq_iff _ _).0 status, types.0 e₁),
        λ (status, typed). (if_ok_iff _ _ _).1 ((nat_eq_iff _ _).1 status, types.1 typed),
      )

  -- A response gives claims exactly if its status is 200 and either it is of type JSON, or of no type,
  -- signed responses are not required, and its body is the JSON of these claims; or it is of type JWT
  -- and its body is the text of a token with these claims that the verifier should accept. In both
  -- cases the claims are about the expected subject, where there is one. The header value that the
  -- code makes of the name of JSON must be readable as that name.
  pub user_info_response_exact :
      (readable : h.to_str (h.from_static "application/json") ≡ some "application/json")
      (resp : HttpResponse h)
      → (user_info_response rd RE h r resp ≡ ok c) ↔ (
          (resp.status_code ≡ 200)
          × ((IsOfType h resp.content_type "application/json" × IsPlainResponse resp.body)
              ⊎ (IsJwt h resp.content_type × IsSignedResponse resp.body)))
  user_info_response_exact readable resp =
      let json = IsOfType-iff h readable resp.content_type in
      let jwt = IsJwt-iff h readable resp.content_type in
      (
        λ e.
            let (status, w) = (user_info_response_parts resp).0 e in
            (
              status,
              elim w [
                | inl plain ↦ inl (json.0 plain.0, plain.1)
                | inr signed ↦ inr (jwt.0 (signed.0, signed.1), signed.2)
              ],
            ),
        λ (status, w). (user_info_response_parts resp).1 (
          status,
          elim w [
            | inl plain ↦ inl (json.1 plain.0, plain.1)
            | inr signed ↦ let tests = jwt.1 signed.0 in inr (tests.0, tests.1, signed.1)
          ],
        ),
      )
