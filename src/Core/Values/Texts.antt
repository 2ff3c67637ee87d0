-- ===== src/Core/Values/Texts.antt =====
-- The predicates over texts that the string-valued enums share.
use openidconnect_rs.Prelude.{
  String, ◌≡◌, ◌≢◌, false, List, [], ◌∷◌, ◌==◌, eq_iff, arith, if◌then◌else◌, inl, inr, Bool-cases,
  All, map,
}

-- The text is none of the listed ones.
abbrev pub IsNoneOf : String → List String → Type 0
IsNoneOf s [] = Unit
IsNoneOf s (t ∷ ts) = (s ≢ t) × IsNoneOf s ts

-- A comparison of texts, by its two outcomes.
pub text_choice {ℓ κ} :
    {A : Type ℓ} (P : A → Type κ) (s t : String) {a b : A}
    → (s ≡ t → P a)
    → (s ≢ t → P b)
    → P (if s == t then a else b)
text_choice P s t f g = elim (Bool-cases (s == t)) [
  | inl e ↦ rw e (f ((eq_iff s t).0 e))
  | inr e ↦ rw e (g (λ p. cc ((eq_iff s t).1 p)))
]

-- A chain of comparisons, as the arms of a `match` on a text.
abbrev pub read {ℓ} : {A : Type ℓ} → List (String × A) → A → String → A
read [] d s = d
read ((t, v) ∷ rest) d s = if s == t then v else read rest d s

-- What relates the text and the value of each arm, and a text that no arm has to the default,
-- relates a text to what is read.
pub read_elim {ℓ κ} :
    {A : Type ℓ} (P : String → A → Type κ) (table : List (String × A)) (d : A) (s : String)
    → All (λ arm. P arm.0 arm.1) table
    → (IsNoneOf s (map (λ arm. arm.0) table) → P s d)
    → P s (read table d s)
read_elim P [] d s h k = k tt
read_elim P ((t, v) ∷ rest) d s (f, h) k =
    text_choice (P s) s t (λ e. rw e f) (λ n. read_elim P rest d s h (λ ns. k (n, ns)))

pub eq_false : {s t : String} → s ≢ t → (s == t) ≡ false
eq_false {s} {t} n = ground (arith, eq_iff s t)
