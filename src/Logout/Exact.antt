-- ===== src/Logout/Exact.antt =====
-- What the URL of a logout request tells the provider.
use openidconnect_rs.Prelude.{
  String, true, Option, none, some, List, [], ◌∷◌, ◌++◌, map, ◌↔◌, ◌≡◌, ◌≢◌, refl, sym, ap, ◌∙◌,
  Bool-cases, inl, inr, eq_iff, if◌then◌else◌,
}
use mathlib.Core.List.{append-nil, append_assoc, map-id}
use openidconnect_rs.Types.Platform.{Platform, UrlText}
use openidconnect_rs.Builder
use openidconnect_rs.Builder.{given_all, given_last, run_all, run_last, run_same}
use openidconnect_rs.Authorization.{join_vec}
use openidconnect_rs.Authorization.Exact.{spaced, given, text_of}
use openidconnect_rs.Logout.{
  Query, LogoutRequest, from, set_id_token_hint, set_logout_hint, set_client_id,
  set_post_logout_redirect_uri, set_state, add_ui_locale, add_pair, add_locales, is_empty_query,
  http_get_url,
}

-- What the documentation of the crate url says of the query of a URL: the pairs in it, and the URL
-- without it.
pub record QueryLaws {p : Platform} (q : Query p) : Type 1 where
  pub Base : Type 0
  pub base : p.Url → Base
  pub pairs : p.Url → List (String × String)
  pub base-query_pairs_mut : (u : p.Url) → base (q.query_pairs_mut u) ≡ base u
  pub base-append_pair : (u : p.Url) (n v : String) → base (q.append_pair u n v) ≡ base u
  pub base-set_query : (u : p.Url) (s : Option String) → base (q.set_query u s) ≡ base u
  pub pairs-query_pairs_mut : (u : p.Url) → pairs (q.query_pairs_mut u) ≡ pairs u
  pub pairs-append_pair :
      (u : p.Url) (n v : String) → pairs (q.append_pair u n v) ≡ pairs u ++ (n, v) ∷ []
  pub pairs_of_empty : (u : p.Url) → q.query u ≡ some "" → pairs u ≡ []
  pub pairs-set_query_none : (u : p.Url) → pairs (q.set_query u none) ≡ []
  pub query-set_query_none : (u : p.Url) → q.query (q.set_query u none) ≡ none

-- One call of a setter, by its name.
pub data Setting (p : Platform) : Type 0 where
  id_token_hint logout_hint client_id state ui_locale : String → Setting p
  post_logout_redirect_uri : UrlText p → Setting p

module _ {p : Platform} where
  pub apply : Setting p → LogoutRequest p → LogoutRequest p
  unfolding set_id_token_hint set_logout_hint set_client_id set_post_logout_redirect_uri set_state
      add_ui_locale
  apply (id_token_hint h) r = set_id_token_hint r h
  apply (logout_hint h) r = set_logout_hint r h
  apply (client_id i) r = set_client_id r i
  apply (state s) r = set_state r s
  apply (ui_locale l) r = add_ui_locale r l
  apply (post_logout_redirect_uri u) r = set_post_logout_redirect_uri r u

  abbrev pub id_token_hint_of : Setting p → Option String
  id_token_hint_of (id_token_hint v) = some v
  id_token_hint_of _ = none

  abbrev pub logout_hint_of : Setting p → Option String
  logout_hint_of (logout_hint v) = some v
  logout_hint_of _ = none

  abbrev pub client_id_of : Setting p → Option String
  client_id_of (client_id v) = some v
  client_id_of _ = none

  abbrev pub state_of : Setting p → Option String
  state_of (state v) = some v
  state_of _ = none

  abbrev pub post_logout_redirect_uri_of : Setting p → Option (UrlText p)
  post_logout_redirect_uri_of (post_logout_redirect_uri v) = some v
  post_logout_redirect_uri_of _ = none

  abbrev pub ui_locales_of : Setting p → List String
  ui_locales_of (ui_locale l) = l ∷ []
  ui_locales_of _ = []

  id_token_hint-apply :
      (s : Setting p) (r : LogoutRequest p)
      → (apply s r).parameters.id_token_hint
        ≡ elim (id_token_hint_of s) [ none ↦ r.parameters.id_token_hint | some v ↦ some v ]
  unfolding apply
  id_token_hint-apply (id_token_hint v) r = refl
  id_token_hint-apply s r = refl

  logout_hint-apply :
      (s : Setting p) (r : LogoutRequest p)
      → (apply s r).parameters.logout_hint
        ≡ elim (logout_hint_of s) [ none ↦ r.parameters.logout_hint | some v ↦ some v ]
  unfolding apply
  logout_hint-apply (logout_hint v) r = refl
  logout_hint-apply s r = refl

  client_id-apply :
      (s : Setting p) (r : LogoutRequest p)
      → (apply s r).parameters.client_id
        ≡ elim (client_id_of s) [ none ↦ r.parameters.client_id | some v ↦ some v ]
  unfolding apply
  client_id-apply (client_id v) r = refl
  client_id-apply s r = refl

  state-apply :
      (s : Setting p) (r : LogoutRequest p)
      → (apply s r).parameters.state
        ≡ elim (state_of s) [ none ↦ r.parameters.state | some v ↦ some v ]
  unfolding apply
  state-apply (state v) r = refl
  state-apply s r = refl

  post_logout_redirect_uri-apply :
      (s : Setting p) (r : LogoutRequest p)
      → (apply s r).parameters.post_logout_redirect_uri ≡ elim (post_logout_redirect_uri_of s) [
        | none ↦ r.parameters.post_logout_redirect_uri
        | some v ↦ some v
      ]
  unfolding apply
  post_logout_redirect_uri-apply (post_logout_redirect_uri v) r = refl
  post_logout_redirect_uri-apply s r = refl

  ui_locales-apply :
      (s : Setting p) (r : LogoutRequest p)
      → (apply s r).parameters.ui_locales ≡ r.parameters.ui_locales ++ ui_locales_of s
  unfolding apply
  ui_locales-apply (ui_locale l) r = refl
  ui_locales-apply s r = simp append-nil

  endpoint-apply :
      (s : Setting p) (r : LogoutRequest p)
      → (apply s r).end_session_endpoint ≡ r.end_session_endpoint
  unfolding apply
  endpoint-apply (ui_locale l) r = refl
  endpoint-apply s r = refl

is_empty_query_iff : (o : Option String) → (is_empty_query o ≡ true) ↔ (o ≡ some "")
unfolding is_empty_query
is_empty_query_iff none = (λ h. cc, λ h. cc)
is_empty_query_iff (some s) = (λ h. ap some ((eq_iff s "").0 h), λ h. (eq_iff s "").1 (cc))

module _ {p : Platform} {q : Query p} (l : QueryLaws q) where
  -- One URL is the other with these pairs after its own.
  record Adds (after before : p.Url) (params : List (String × String)) : Type 0 where
    same_base : l.base after ≡ l.base before
    more_pairs : l.pairs after ≡ l.pairs before ++ params

  Adds-then :
      {a b c : p.Url} {xs ys : List (String × String)}
      → Adds b a xs
      → Adds c b ys
      → Adds c a (xs ++ ys)
  Adds-then x y = record {
    same_base = y.same_base ∙ x.same_base;
    more_pairs = y.more_pairs ∙ simp (x.more_pairs, append_assoc);
  }

  Adds-nothing : (u : p.Url) → Adds u u []
  Adds-nothing u = record { same_base = refl; more_pairs = simp append-nil }

  Adds-one : (u : p.Url) (n v : String) → Adds (q.append_pair u n v) u ((n, v) ∷ [])
  Adds-one u n v = record {
    same_base = l.base-append_pair u n v;
    more_pairs = l.pairs-append_pair u n v;
  }

  Adds-pair :
      {T : Type 0} (f : T → String) (n : String) (v : Option T) (u : p.Url)
      → Adds (add_pair q f n v u) u (given n (text_of f v))
  unfolding add_pair
  Adds-pair f n none u = Adds-nothing u
  Adds-pair f n (some v) u = Adds-one u n (f v)

  Adds-text :
      (n : String) (v : Option String) (u : p.Url) → Adds (add_pair q (λ s. s) n v u) u (given n v)
  Adds-text n none u = Adds-pair (λ s. s) n none u
  Adds-text n (some v) u = Adds-pair (λ s. s) n (some v) u

  Adds-mapped :
      (ls : List String) (u : p.Url)
      → Adds (add_locales q ls u) u (spaced "ui_locales" (map (λ s. s) ls))
  unfolding add_locales join_vec
  Adds-mapped [] u = Adds-nothing u
  Adds-mapped (s ∷ ls) u = Adds-one u "ui_locales" _

  Adds-locales :
      (ls : List String) (u : p.Url) → Adds (add_locales q ls u) u (spaced "ui_locales" ls)
  Adds-locales ls u = rw (map-id ls) at (Adds-mapped ls u)

  -- The last step, which takes an empty query away.
  cleaned :
      (start u : p.Url) (params : List (String × String))
      → Adds u start params
      → let v = if is_empty_query (q.query u) then q.set_query u none else u in
        Adds v start params × (q.query v ≢ some "")
  cleaned start u params adds = elim (Bool-cases (is_empty_query (q.query u))) [
    | inl e ↦
        let none_left = l.pairs_of_empty u ((is_empty_query_iff (q.query u)).0 e) in
        rw e (
          record {
            same_base = l.base-set_query u none ∙ adds.same_base;
            more_pairs = l.pairs-set_query_none u ∙ sym none_left ∙ adds.more_pairs;
          },
          λ h. cc (l.query-set_query_none u, h),
        )
    | inr e ↦ rw e (adds, λ h. cc (e, (is_empty_query_iff (q.query u)).1 h))
  ]

  abbrev pub configured : List (Setting p) → List (String × String)
  configured ss =
      given "id_token_hint" (given_last id_token_hint_of none ss)
      ++ (given "logout_hint" (given_last logout_hint_of none ss)
          ++ (given "client_id" (given_last client_id_of none ss)
              ++ (given "post_logout_redirect_uri"
                    (text_of (λ u. u.text) (given_last post_logout_redirect_uri_of none ss))
                  ++ (given "state" (given_last state_of none ss)
                      ++ spaced "ui_locales" (given_all ui_locales_of ss)))))

  added :
      (r : LogoutRequest p)
      → Adds (http_get_url q r) r.end_session_endpoint.url (
          given "id_token_hint" r.parameters.id_token_hint
          ++ (given "logout_hint" r.parameters.logout_hint
              ++ (given "client_id" r.parameters.client_id
                  ++ (given "post_logout_redirect_uri"
                        (text_of (λ u. u.text) r.parameters.post_logout_redirect_uri)
                      ++ (given "state" r.parameters.state
                          ++ spaced "ui_locales" r.parameters.ui_locales)))))
        × (q.query (http_get_url q r) ≢ some "")
  unfolding http_get_url
  added r =
      let text = λ (s : String). s in
      cleaned _ _ _ (
        Adds-then
          (record {
            same_base = l.base-query_pairs_mut _;
            more_pairs = l.pairs-query_pairs_mut _ ∙ sym (append-nil _);
          })
          (Adds-then (Adds-text "id_token_hint" r.parameters.id_token_hint _) (
            Adds-then (Adds-text "logout_hint" r.parameters.logout_hint _) (
              Adds-then (Adds-text "client_id" r.parameters.client_id _) (
                Adds-then
                  (Adds-pair (λ u. u.text) "post_logout_redirect_uri"
                    r.parameters.post_logout_redirect_uri _)
                  (Adds-then (Adds-text "state" r.parameters.state _)
                    (Adds-locales r.parameters.ui_locales _)))))))

  -- Whatever setters are called on a logout request for an endpoint, its URL is that of the endpoint
  -- with the query parameters of the endpoint followed by the last value given to each setter and the
  -- list of the locales, in the order of the code, and nothing for what was not set; and it has no
  -- empty query.
  pub http_get_url_exact :
      (endpoint : UrlText p) (ss : List (Setting p))
      → let url = http_get_url q (Builder.run apply ss (from endpoint)) in
        (l.base url ≡ l.base endpoint.url)
        × (l.pairs url ≡ l.pairs endpoint.url ++ configured ss)
        × (q.query url ≢ some "")
  unfolding from
  http_get_url_exact endpoint ss =
      let r = Builder.run apply ss (from endpoint) in
      let (adds, clean) = added r in
      let same = run_same apply (λ r. r.end_session_endpoint) endpoint-apply ss (from endpoint) in
      (
        adds.same_base ∙ ap (λ u. l.base u.url) same,
        adds.more_pairs
            ∙ simp (
              same,
              run_last apply (λ r. r.parameters.id_token_hint) id_token_hint_of id_token_hint-apply
                  ss (from endpoint),
              run_last apply (λ r. r.parameters.logout_hint) logout_hint_of logout_hint-apply ss
                  (from endpoint),
              run_last apply (λ r. r.parameters.client_id) client_id_of client_id-apply ss
                  (from endpoint),
              run_last apply (λ r. r.parameters.post_logout_redirect_uri)
                  post_logout_redirect_uri_of post_logout_redirect_uri-apply ss (from endpoint),
              run_last apply (λ r. r.parameters.state) state_of state-apply ss (from endpoint),
              run_all apply (λ r. r.parameters.ui_locales) ui_locales_of ui_locales-apply ss
                  (from endpoint),
            ),
        clean,
      )
