-- ===== src/Http/Essence.antt =====
-- src/http_utils.rs: which content types have an essence.
use Prim.Native.Char.{Char, code}
use Prim.Native.String
use text.Mathlib.TextEquality.{Char-path}
use text.Mathlib.TextLemmas.{nil-append, cons-append, append_assoc}
use openidconnect_rs.Prelude.{
  String, ◌≡◌, ◌↔◌, ◌⊎◌, inl, inr, refl, sym, ap, ◌∙◌, true, false, Bool-cases, Option, none, some,
  ok, nat_eq, nat_eq_iff, eq_iff, if_ok_iff, arith,
}
use openidconnect_rs.Text.{◌+++◌, to_lowercase}
use openidconnect_rs.Text.Letters.{SameLetters, to_lowercase_iff, SameLetters-append-cons}
use openidconnect_rs.Http.{
  Http, before_semicolon, text_has_essence, content_type_has_essence, check_content_type,
}

abbrev pub NoSemicolon : String → Type 0
NoSemicolon String.[] = Unit
NoSemicolon (String.◌∷◌ c s) = (¬ (code c ≡ 59)) × NoSemicolon s

-- The text is the media type alone, or followed by a semicolon and parameters.
abbrev pub HasMediaType : String → String → Type 0
HasMediaType text media_type =
    NoSemicolon media_type
    × ((text ≡ media_type) ⊎ ((params : String) × (text ≡ media_type +++ ";" +++ params)))

clash : true ≡ false → ⊥
clash e = cc e

not_mark : (c : Char) → ¬ (code c ≡ 59) → nat_eq (code c) 59 ≡ false
not_mark c h = ground arith

pub before_semicolon-NoSemicolon : (s : String) → NoSemicolon (before_semicolon s)
unfolding before_semicolon
before_semicolon-NoSemicolon String.[] = tt
before_semicolon-NoSemicolon (String.◌∷◌ c s) = elim (Bool-cases (nat_eq (code c) 59)) [
  | inl mark ↦ rw mark tt
  | inr other ↦
      rw other
        (λ e. clash (sym ((nat_eq_iff (code c) 59).1 e) ∙ other), before_semicolon-NoSemicolon s)
]

before_semicolon_self : (s : String) → NoSemicolon s → before_semicolon s ≡ s
unfolding before_semicolon
before_semicolon_self String.[] h = refl
before_semicolon_self (String.◌∷◌ c s) (other, h) =
    rw (not_mark c other) (ap (λ z. String.◌∷◌ c z) (before_semicolon_self s h))

before_semicolon-append :
    (s params : String) → NoSemicolon s → before_semicolon (s +++ ";" +++ params) ≡ s
unfolding before_semicolon
before_semicolon-append String.[] params h =
    rw (nil-append (";" +++ params)) (rw (cons-append _ "" params) refl)
before_semicolon-append (String.◌∷◌ c s) params (other, h) =
    rw (cons-append c s (";" +++ params))
      (rw (not_mark c other) (ap (λ z. String.◌∷◌ c z) (before_semicolon-append s params h)))

mark_first : (c : Char) (s : String) → code c ≡ 59 → String.◌∷◌ c s ≡ ";" +++ s
mark_first c s mark =
    ap (λ z. String.◌∷◌ z s) (Char-path c (String.char_at ";" 0) mark)
    ∙ sym (
        cons-append (String.char_at ";" 0) "" s
        ∙ ap (λ z. String.◌∷◌ (String.char_at ";" 0) z) (nil-append s))

rest_of :
    (s : String)
    → (s ≡ before_semicolon s) ⊎ ((params : String) × (s ≡ before_semicolon s +++ ";" +++ params))
unfolding before_semicolon
rest_of String.[] = inl refl
rest_of (String.◌∷◌ c s) = elim (Bool-cases (nat_eq (code c) 59)) [
  | inl mark ↦
      inr (
        s,
        rw mark (mark_first c s ((nat_eq_iff (code c) 59).0 mark) ∙ sym (nil-append (";" +++ s))),
      )
  | inr other ↦ elim (rest_of s) [
    | inl same ↦ inl (rw other (ap (λ z. String.◌∷◌ c z) same))
    | inr (params, same) ↦ inr (
      params,
      rw other (
          ap (λ z. String.◌∷◌ c z) same
          ∙ sym (cons-append c (before_semicolon s) (";" +++ params))),
    )
  ]
]

before_semicolon_iff :
    (text head : String) → (before_semicolon text ≡ head) ↔ HasMediaType text head
before_semicolon_iff text head = (
  λ e. (rw e at (before_semicolon-NoSemicolon text), rw e at (rest_of text)),
  λ (no_mark, w). elim w [
    | inl same ↦ ap before_semicolon same ∙ before_semicolon_self head no_mark
    | inr (params, same) ↦ ap before_semicolon same ∙ before_semicolon-append head params no_mark
  ],
)

NoSemicolon-space : (s : String) → NoSemicolon s → NoSemicolon (s +++ " ")
NoSemicolon-space String.[] h = (λ e. omega arith, tt)
NoSemicolon-space (String.◌∷◌ c s) (other, h) =
    rw (cons-append c s " ") (other, NoSemicolon-space s h)

module _ (h : Http) where
  -- The value is text, whose media type, before any semicolon, is the given one up to case.
  abbrev pub HasType : h.HeaderValue → String → Type 0
  HasType content_type essence =
      (text : String) × (h.to_str content_type ≡ some text)
      × (media_type : String) × HasMediaType text media_type
      × SameLetters media_type essence

  text_has_essence_iff :
      (o : Option String) (essence : String)
      → (text_has_essence o essence ≡ true) ↔ (
          (text : String) × (o ≡ some text)
          × (media_type : String) × HasMediaType text media_type
          × SameLetters media_type essence)
  unfolding text_has_essence
  text_has_essence_iff none essence = (λ e. absurd (clash (sym e)), λ w. cc w.1)
  text_has_essence_iff (some ct) essence = (
    λ e. (
      ct,
      refl,
      before_semicolon ct,
      (before_semicolon_iff ct (before_semicolon ct)).0 refl,
      (to_lowercase_iff _ _).0 ((eq_iff _ _).0 e),
    ),
    λ (text, same, media_type, has, letters).
        let head : before_semicolon text ≡ media_type =
          (before_semicolon_iff text media_type).1 has in
        let is_text : ct ≡ text = cc same in
        (eq_iff _ _).1 (
          ap (λ z. to_lowercase (before_semicolon z)) is_text
          ∙ ap to_lowercase head
          ∙ (to_lowercase_iff media_type essence).1 letters),
  )

  -- A content type has an essence exactly if it is text that is a media type, alone or followed by a
  -- semicolon and parameters, which is the essence up to the case of its letters.
  pub content_type_exact :
      (content_type : h.HeaderValue) (essence : String)
      → (content_type_has_essence h content_type essence ≡ true) ↔ HasType content_type essence
  unfolding content_type_has_essence
  content_type_exact content_type essence = text_has_essence_iff (h.to_str content_type) essence

  -- A content type whose media type is followed by a space, and that by a semicolon and parameters, does
  -- not have that media type as its essence.
  pub space_refused :
      (content_type : h.HeaderValue) (essence params : String)
      → NoSemicolon essence
      → h.to_str content_type ≡ some (essence +++ " ;" +++ params)
      → content_type_has_essence h content_type essence ≡ false
  space_refused content_type essence params plain is_text =
      elim (Bool-cases (content_type_has_essence h content_type essence)) [
        | inl accepted ↦
            let (text, same, media_type, has, letters) =
              (content_type_exact content_type essence).0 accepted in
            let same_text : text ≡ essence +++ " ;" +++ params = cc in
            let split : essence +++ " ;" +++ params ≡ (essence +++ " ") +++ ";" +++ params =
              ap (λ z. essence +++ z) (append_assoc " " ";" params)
              ∙ sym (append_assoc essence " " (";" +++ params)) in
            let head : before_semicolon text ≡ essence +++ " " =
              (before_semicolon_iff text (essence +++ " ")).1
                (NoSemicolon-space essence plain, inr (params, same_text ∙ split)) in
            let found : media_type ≡ essence +++ " " =
              sym ((before_semicolon_iff text media_type).1 has) ∙ head in
            absurd (SameLetters-append-cons essence (String.char_at " " 0) "" (rw found at letters))
        | inr refused ↦ refused
      ]

  -- The content type is missing or the given one.
  abbrev pub IsOfType : Option h.HeaderValue → String → Type 0
  IsOfType content_type essence = (ct : h.HeaderValue) → content_type ≡ some ct → HasType ct essence

  pub check_content_type_iff :
      (content_type : Option h.HeaderValue) (essence : String)
      → (check_content_type h content_type essence ≡ ok tt) ↔ IsOfType content_type essence
  unfolding check_content_type
  check_content_type_iff none essence = (λ e ct q. cc, λ f. refl)
  check_content_type_iff (some ct) essence = (
    λ e ct' q.
        (content_type_exact ct' essence).0
          (ap (λ v. content_type_has_essence h v essence) (cc) ∙ ((if_ok_iff _ _ _).0 e).0),
    λ f. (if_ok_iff _ _ _).1 ((content_type_exact ct essence).1 (f ct refl), refl),
  )
