-- ===== src/Discovery/Slash.antt =====
-- src/types.rs: where IssuerUrl::join puts a slash.
use Prim.Native.Char.{Char, code}
use Prim.Native.String
use text.Mathlib.TextEquality.{Char-path}
use text.Mathlib.TextLemmas.{cons-append, cons-eq-cons, nil≢cons, cons≢nil}
use openidconnect_rs.Prelude.{
  String, ◌≡◌, ◌↔◌, ◌⊎◌, inl, inr, refl, sym, ap, ◌∙◌, Bool, true, false, Bool-cases, ok, nat_eq,
  nat_eq_iff,
}
use openidconnect_rs.Text.{◌+++◌}
use openidconnect_rs.Types.Platform.{Platform, UrlText}
use openidconnect_rs.Http.{Http}
use openidconnect_rs.Discovery.{ends_with_slash, join, config_url_suffix}

-- The text ends with a slash.
abbrev pub EndsWithSlash : String → Type 0
EndsWithSlash text = (before : String) × (text ≡ before +++ "/")

no_text : (before : String) → ¬ ("" ≡ before +++ "/")
no_text String.[] e = nil≢cons e
no_text (String.◌∷◌ c s) e = nil≢cons (e ∙ cons-append c s "/")

abbrev LastIsSlash : Bool → String → Type 0
LastIsSlash last s = ((s ≡ "") × (last ≡ true)) ⊎ EndsWithSlash s

slash_first :
    (c : Char) (s : String) → s ≡ "" → nat_eq (code c) 47 ≡ true → String.◌∷◌ c s ≡ "" +++ "/"
slash_first c s empty mark =
    ap (λ z. String.◌∷◌ c z) empty
    ∙ ap (λ z. String.◌∷◌ z "")
        (Char-path c (String.char_at "/" 0) ((nat_eq_iff (code c) 47).0 mark))

rest_ends :
    (c : Char) (s before : String)
    → String.◌∷◌ c s ≡ before +++ "/"
    → LastIsSlash (nat_eq (code c) 47) s
rest_ends c s String.[] e =
    let parts = (cons-eq-cons {x = c} {y = String.char_at "/" 0} {xs = s} {ys = ""}).0 e in
    inl (parts.1, (nat_eq_iff (code c) 47).1 (ap code parts.0))
rest_ends c s (String.◌∷◌ d b) e = inr (b, (cons-eq-cons.0 (e ∙ cons-append d b "/")).1)

ends_with_slash_iff :
    (last : Bool) (s : String) → (ends_with_slash last s ≡ true) ↔ LastIsSlash last s
unfolding ends_with_slash
ends_with_slash_iff last String.[] =
    (λ e. inl (refl, e), λ w. elim w [ inl q ↦ q.1 | inr q ↦ absurd (no_text q.0 q.1) ])
ends_with_slash_iff last (String.◌∷◌ c s) = (
  λ e. elim ((ends_with_slash_iff (nat_eq (code c) 47) s).0 e) [
    | inl q ↦ inr ("", slash_first c s q.0 q.1)
    | inr q ↦ inr (String.◌∷◌ c q.0, ap (λ z. String.◌∷◌ c z) q.1 ∙ sym (cons-append c q.0 "/"))
  ],
  λ w.
      (ends_with_slash_iff (nat_eq (code c) 47) s).1
        (elim w [ inl q ↦ absurd (cons≢nil q.0) | inr q ↦ rest_ends c s q.0 q.1 ]),
)

clash : {b : Bool} → b ≡ false → b ≡ true → ⊥
clash {b} p q = cc (sym p ∙ q)

-- The URL of the configuration of an issuer, with one slash before it.
abbrev pub ConfigurationOf : (p : Platform) → UrlText p → p.Url → Type 0
ConfigurationOf p issuer url =
    (EndsWithSlash issuer.text
      × (p.parse (issuer.text +++ ".well-known/openid-configuration") ≡ ok url))
    ⊎ ((¬ EndsWithSlash issuer.text)
        × (p.parse (issuer.text +++ "/.well-known/openid-configuration") ≡ ok url))

pub slash_iff : (s : String) → (ends_with_slash false s ≡ true) ↔ EndsWithSlash s
slash_iff s = (
  λ e. elim ((ends_with_slash_iff false s).0 e) [ inl q ↦ cc q.1 | inr q ↦ q ],
  λ w. (ends_with_slash_iff false s).1 (inr w),
)

pub join_iff :
    (p : Platform) (h : Http) (issuer : UrlText p) (url : p.Url)
    → (join p h issuer config_url_suffix ≡ ok url) ↔ ConfigurationOf p issuer url
unfolding join
join_iff p h issuer url = elim (Bool-cases (ends_with_slash false issuer.text)) [
  | inl ends ↦
      let slash = (slash_iff issuer.text).0 ends in
      rw ends (λ e. inl (slash, e), λ w. elim w [ inl q ↦ q.1 | inr q ↦ absurd (q.0 slash) ])
  | inr bare ↦
      let no_slash : ¬ EndsWithSlash issuer.text = λ w. clash bare ((slash_iff issuer.text).1 w) in
      rw bare (λ e. inr (no_slash, e), λ w. elim w [ inl q ↦ absurd (no_slash q.0) | inr q ↦ q.1 ])
]
