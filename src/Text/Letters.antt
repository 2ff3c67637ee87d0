-- ===== src/Text/Letters.antt =====
-- When two texts are the same but for the case of their letters.
use Prim.Native.Char.{Char, code}
use Prim.Native.String
use text.Mathlib.TextEquality.{Char-path}
use text.Mathlib.TextLemmas.{cons-eq-cons, nil≢cons, cons≢nil, nil-append, cons-append}
use openidconnect_rs.Prelude.{
  ℕ, zero, suc, ◌+◌, ◌-◌, String, ◌≡◌, ◌↔◌, ◌⊎◌, inl, inr, refl, sym, ap, ◌∙◌, arith, Bool, true,
  false, ◌&&◌, leb, ltb, nat_eq, nat_eq_iff, Bool-cases, if◌then◌else◌,
}
use openidconnect_rs.Text.{◌+++◌, lower_letter, to_lowercase}

-- The code of a capital letter of ASCII.
abbrev is_capital : ℕ → Bool
is_capital n = leb 65 n && leb n 90

-- The same code, or those of a capital letter and its small one.
abbrev pub SameLetter : ℕ → ℕ → Type 0
SameLetter a b =
    (a ≡ b) ⊎ ((is_capital a ≡ true) × (b ≡ a + 32)) ⊎ ((is_capital b ≡ true) × (a ≡ b + 32))

abbrev pub SameLetters : String → String → Type 0
SameLetters String.[] String.[] = Unit
SameLetters String.[] (String.◌∷◌ d t) = ⊥
SameLetters (String.◌∷◌ c s) String.[] = ⊥
SameLetters (String.◌∷◌ c s) (String.◌∷◌ d t) = SameLetter (code c) (code d) × SameLetters s t

all_below : ℕ → (ℕ → Bool) → Bool
all_below zero f = true
all_below (suc n) f = f n && all_below n f

both : (b : Bool) {c : Bool} → (b && c) ≡ true → (b ≡ true) × (c ≡ true)
both true h = (refl, h)
both false h = cc

all_below-true :
    (n : ℕ) (f : ℕ → Bool) → all_below n f ≡ true → (m : ℕ) → ltb m n ≡ true → f m ≡ true
unfolding all_below
all_below-true zero f h m k = ground arith
all_below-true (suc n) f h m k =
    let (last, others) = both (f n) h in
    elim (Bool-cases (nat_eq m n)) [
      | inl same ↦ ap f ((nat_eq_iff m n).0 same) ∙ last
      | inr other ↦ all_below-true n f others m (ground arith)
    ]

is_small : ℕ → Bool
is_small n = nat_eq (code (String.char_at "abcdefghijklmnopqrstuvwxyz" n)) (97 + n)

small_letters : all_below 26 is_small ≡ true
unfolding all_below is_small
small_letters = refl

code-lower_letter :
    (c : Char) → code (lower_letter c) ≡ (if is_capital (code c) then code c + 32 else code c)
unfolding lower_letter is_small
code-lower_letter c = elim (Bool-cases (is_capital (code c))) [
  | inl capital ↦
      let moved : 97 + (code c - 65) ≡ code c + 32 = ground arith in
      let small =
        (nat_eq_iff _ _).0
          (all_below-true 26 is_small small_letters (code c - 65) (ground arith)) in
      rw capital (small ∙ moved)
  | inr other ↦ rw other refl
]

folded_iff :
    (a b : ℕ)
    → ((if is_capital a then a + 32 else a) ≡ (if is_capital b then b + 32 else b)) ↔ SameLetter a b
folded_iff a b = (
  λ e. elim (Bool-cases (is_capital a)) [
    | inl p ↦ elim (Bool-cases (is_capital b)) [
      | inl q ↦ inl (let h : a + 32 ≡ b + 32 = rw (p, q) at e in omega arith)
      | inr q ↦ inr (inl (p, sym (rw (p, q) at e)))
    ]
    | inr p ↦ elim (Bool-cases (is_capital b)) [
      | inl q ↦ inr (inr (q, rw (p, q) at e))
      | inr q ↦ inl (rw (p, q) at e)
    ]
  ],
  λ w. ground arith,
)

lower_letter_iff : (c d : Char) → (lower_letter c ≡ lower_letter d) ↔ SameLetter (code c) (code d)
lower_letter_iff c d = (
  λ e.
      (folded_iff (code c) (code d)).0
        (sym (code-lower_letter c) ∙ ap code e ∙ code-lower_letter d),
  λ w.
      Char-path _ _
        (code-lower_letter c ∙ (folded_iff (code c) (code d)).1 w ∙ sym (code-lower_letter d)),
)

-- Two texts have the same small letters exactly if they are the same but for the case of letters.
pub to_lowercase_iff : (s t : String) → (to_lowercase s ≡ to_lowercase t) ↔ SameLetters s t
unfolding to_lowercase
to_lowercase_iff String.[] String.[] = (λ e. tt, λ w. refl)
to_lowercase_iff String.[] (String.◌∷◌ d t) = (λ e. nil≢cons e, λ w. absurd w)
to_lowercase_iff (String.◌∷◌ c s) String.[] = (λ e. cons≢nil e, λ w. absurd w)
to_lowercase_iff (String.◌∷◌ c s) (String.◌∷◌ d t) = (
  λ e.
      let (first, rest) = cons-eq-cons.0 e in
      ((lower_letter_iff c d).0 first, (to_lowercase_iff s t).0 rest),
  λ (first, rest). cons-eq-cons.1 ((lower_letter_iff c d).1 first, (to_lowercase_iff s t).1 rest),
)

-- Letters after letters are more letters.
pub SameLetters-append-cons :
    (s : String) (c : Char) (t : String) → ¬ SameLetters (s +++ String.◌∷◌ c t) s
SameLetters-append-cons String.[] c t w = rw (nil-append (String.◌∷◌ c t)) at w
SameLetters-append-cons (String.◌∷◌ d s) c t w =
    let rest = rw (cons-append d s (String.◌∷◌ c t)) at w in SameLetters-append-cons s c t rest.1
