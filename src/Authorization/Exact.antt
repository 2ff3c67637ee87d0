-- ===== src/Authorization/Exact.antt =====
-- What the URL of an authorization request tells the provider.
use openidconnect_rs.Prelude.{
  String, ◌≡◌, refl, ◌∙◌, true, false, Option, none, some, List, [], ◌∷◌, ◌++◌, map,
}
use mathlib.Core.List.{append-nil, append_assoc, map-id}
use openidconnect_rs.Text.{join, decimal}
use openidconnect_rs.Types.Platform.{Platform}
use openidconnect_rs.Types.Duration.{as_secs}
use openidconnect_rs.Oauth2.{Oauth2, RequestLaws}
use openidconnect_rs.Authorization.{
  Words, AuthenticationFlow, authorization_code, implicit, hybrid, AuthorizationRequest, join_vec,
  response_type_text, add_joined, add_given, with_parameters,
}

-- The response type by which the specifications ask for a flow.
abbrev pub flow_words : (w : Words) → AuthenticationFlow w.Response → String
flow_words w authorization_code = "code"
flow_words w (implicit true) = "id_token token"
flow_words w (implicit false) = "id_token"
flow_words w (hybrid response_types) = join " " (map w.response_text response_types)

-- One parameter with all values, separated by spaces, or no parameter where there is no value.
abbrev pub spaced : String → List String → List (String × String)
spaced name [] = []
spaced name (v ∷ vs) = (name, join " " (v ∷ vs)) ∷ []

abbrev pub given : String → Option String → List (String × String)
given name none = []
given name (some v) = (name, v) ∷ []

abbrev pub text_of {ℓ} : {A : Type ℓ} → (A → String) → Option A → Option String
text_of f none = none
text_of f (some a) = some (f a)

-- The parameters of OpenID Connect that a request has beside those of OAuth 2.
abbrev pub parameters :
    {p : Platform} {o : Oauth2 p} {w : Words} → AuthorizationRequest o w → List (String × String)
parameters {w} r =
    ("nonce", r.nonce)
    ∷ (spaced "acr_values" r.acr_values
        ++ (spaced "claims_locales" r.claims_locales
            ++ (given "display" (text_of w.display_text r.display)
                ++ (given "id_token_hint" r.id_token_hint
                    ++ (given "login_hint" r.login_hint
                        ++ (given "max_age" (text_of (λ d. decimal (as_secs d)) r.max_age)
                            ++ (spaced "prompt" (map w.prompt_text r.prompts)
                                ++ spaced "ui_locales" r.ui_locales)))))))

response_type_lem :
    (w : Words) (flow : AuthenticationFlow w.Response)
    → response_type_text w.response_text flow ≡ flow_words w flow
unfolding response_type_text join
response_type_lem w authorization_code = refl
response_type_lem w (implicit true) = refl
response_type_lem w (implicit false) = refl
response_type_lem w (hybrid rs) = refl

module _ {p : Platform} {o : Oauth2 p} (l : RequestLaws o) where
  -- One request sends what the other sends, and these parameters after it.
  record Adds (after before : o.Request) (params : List (String × String)) : Type 0 where
    same :
        l.sent after
        ≡ record (l.sent before) { extra_params = (l.sent before).extra_params ++ params }

  Adds-then :
      {a b c : o.Request} {xs ys : List (String × String)}
      → Adds b a xs
      → Adds c b ys
      → Adds c a (xs ++ ys)
  Adds-then x y = record { same = y.same ∙ simp (x.same, append_assoc) }

  Adds-param : (r : o.Request) (n v : String) → Adds (o.add_extra_param r n v) r ((n, v) ∷ [])
  Adds-param r n v = record { same = l.sent-add_extra_param r n v }

  Adds-joined :
      {T : Type 0} (f : T → String) (n : String) (vs : List T) (r : o.Request)
      → Adds (add_joined o f n vs r) r (spaced n (map f vs))
  unfolding add_joined join join_vec
  Adds-joined f n [] r = record { same = simp append-nil }
  Adds-joined f n (v ∷ vs) r = Adds-param r n _

  Adds-given :
      {T : Type 0} (f : T → String) (n : String) (v : Option T) (r : o.Request)
      → Adds (add_given o f n v r) r (given n (text_of f v))
  unfolding add_given
  Adds-given f n none r = record { same = simp append-nil }
  Adds-given f n (some v) r = Adds-param r n (f v)

  Adds-texts :
      (n : String) (vs : List String) (r : o.Request)
      → Adds (add_joined o (λ s. s) n vs r) r (spaced n vs)
  Adds-texts n vs r = rw (map-id vs) at (Adds-joined (λ s. s) n vs r)

  Adds-text :
      (n : String) (v : Option String) (r : o.Request)
      → Adds (add_given o (λ s. s) n v r) r (given n v)
  Adds-text n none r = Adds-given (λ s. s) n none r
  Adds-text n (some v) r = Adds-given (λ s. s) n (some v) r

  -- What the code adds to what the request sends so far.
  pub sent-with_parameters :
      {w : Words} (r : AuthorizationRequest o w)
      → l.sent (with_parameters r) ≡ record (l.sent r.inner) {
        response_type = flow_words w r.authentication_flow;
        extra_params = (l.sent r.inner).extra_params ++ parameters r;
      }
  unfolding with_parameters
  sent-with_parameters {w} r =
      let added = Adds-then (Adds-param _ "nonce" r.nonce) (
        Adds-then (Adds-texts "acr_values" r.acr_values _) (
          Adds-then (Adds-texts "claims_locales" r.claims_locales _) (
            Adds-then (Adds-given w.display_text "display" r.display _) (
              Adds-then (Adds-text "id_token_hint" r.id_token_hint _) (
                Adds-then (Adds-text "login_hint" r.login_hint _) (
                  Adds-then (Adds-given (λ d. decimal (as_secs d)) "max_age" r.max_age _) (
                    Adds-then (Adds-joined w.prompt_text "prompt" r.prompts _)
                      (Adds-texts "ui_locales" r.ui_locales _)))))))) in
      added.same ∙ simp (l.sent-set_response_type, response_type_lem)
