-- ===== src/Builder.antt =====
-- Sequences of the calls of the setters of a builder, and what a field is after one.
use openidconnect_rs.Prelude.{◌≡◌, refl, ◌∙◌, ap, Option, none, some, List, [], ◌∷◌, ◌++◌}
use mathlib.Core.List.{append-nil, append_assoc}

-- What all settings of one kind give, in order.
unfoldable pub given_all {ℓ κ} : {S : Type ℓ} {A : Type κ} → (S → List A) → List S → List A
given_all pick [] = []
given_all pick (s ∷ ss) = pick s ++ given_all pick ss

-- What the last setting of one kind gives, or else the default.
unfoldable pub given_last {ℓ κ} :
    {S : Type ℓ} {A : Type κ} → (S → Option A) → Option A → List S → Option A
given_last pick before [] = before
given_last pick before (s ∷ ss) =
    given_last pick (elim (pick s) [ none ↦ before | some a ↦ some a ]) ss

module _ {S R : Type 0} (apply : S → R → R) where
  -- The calls, from left to right.
  unfoldable pub run : List S → R → R
  run [] r = r
  run (s ∷ ss) r = run ss (apply s r)

  -- A field that each call appends to.
  pub run_all :
      {A : Type 0} (f : R → List A) (pick : S → List A)
      → ((s : S) (r : R) → f (apply s r) ≡ f r ++ pick s)
      → (ss : List S) (r : R) → f (run ss r) ≡ f r ++ given_all pick ss
  unfolding run given_all
  run_all f pick step [] r = simp append-nil
  run_all f pick step (s ∷ ss) r =
      run_all f pick step ss (apply s r) ∙ simp (step s r, append_assoc)

  -- A field that each call replaces or leaves alone.
  pub run_last :
      {A : Type 0} (f : R → Option A) (pick : S → Option A)
      → ((s : S) (r : R) → f (apply s r) ≡ elim (pick s) [ none ↦ f r | some a ↦ some a ])
      → (ss : List S) (r : R) → f (run ss r) ≡ given_last pick (f r) ss
  unfolding run given_last
  run_last f pick step [] r = refl
  run_last f pick step (s ∷ ss) r =
      run_last f pick step ss (apply s r) ∙ ap (λ b. given_last pick b ss) (step s r)

  -- A field that no call changes.
  pub run_same :
      {A : Type 0} (f : R → A)
      → ((s : S) (r : R) → f (apply s r) ≡ f r)
      → (ss : List S) (r : R) → f (run ss r) ≡ f r
  unfolding run
  run_same f step [] r = refl
  run_same f step (s ∷ ss) r = run_same f step ss (apply s r) ∙ step s r
