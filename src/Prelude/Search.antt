-- ===== src/Prelude/Search.antt =====
-- What `any`, `find` and `filter` decide about a list.
use mathlib.Core.Path.{◌≡◌, refl}
use mathlib.Core.Logic.{◌⊎◌, inl, inr, ◌↔◌}
use mathlib.Core.Bool.{Bool, true, false}
use mathlib.Core.Option.{none}
use mathlib.Core.List.{List, [], ◌∷◌, ◌++◌}
use native.Mathlib.Omega.{arith}
use openidconnect_rs.Prelude.Lists.{any, filter, find, All, Bool-cases}

-- Some item of the list has the property.
abbrev pub Any : {A : Type 0} → (A → Type 0) → List A → Type 0
Any P [] = ⊥
Any P (x ∷ xs) = P x ⊎ Any P xs

-- `x` is the one item of the list that passes the test.
pub record OnlyPasses {A : Type 0} (P : A → Type 0) (xs : List A) (x : A) : Type 0 where
  pub before : List A
  pub after : List A
  pub split : xs ≡ before ++ x ∷ after
  pub passes : P x
  pub none_before : All (λ y. ¬ P y) before
  pub none_after : All (λ y. ¬ P y) after

module _ {A : Type 0} (p : A → Bool) (P : A → Type 0) (decides : (a : A) → (p a ≡ true) ↔ P a) where
  pub any-to-Any : (xs : List A) → any p xs ≡ true → Any P xs
  unfolding any
  any-to-Any [] h = cc
  any-to-Any (x ∷ xs) h = elim (Bool-cases (p x)) [
    | inl e ↦ inl ((decides x).0 e)
    | inr e ↦ inr (any-to-Any xs (rw e at h))
  ]

  pub Any-to-any : (xs : List A) → Any P xs → any p xs ≡ true
  unfolding any
  Any-to-any [] h = absurd h
  Any-to-any (x ∷ xs) (inl q) = rw ((decides x).1 q)
  Any-to-any (x ∷ xs) (inr q) = ground (arith, Any-to-any xs q)

  fails : (x : A) → p x ≡ false → ¬ P x
  fails x e q = cc ((decides x).1 q)

  fails_conv : (x : A) → ¬ P x → p x ≡ false
  fails_conv x n = elim (Bool-cases (p x)) [ inl e ↦ absurd (n ((decides x).0 e)) | inr e ↦ e ]

  filter-nil-to-All : (xs : List A) → filter p xs ≡ [] → All (λ y. ¬ P y) xs
  unfolding filter
  filter-nil-to-All [] h = tt
  filter-nil-to-All (x ∷ xs) h = elim (Bool-cases (p x)) [
    | inl e ↦ cc (rw e at h)
    | inr e ↦ (fails x e, filter-nil-to-All xs (rw e at h))
  ]

  pub All-to-filter-nil : (xs : List A) → All (λ y. ¬ P y) xs → filter p xs ≡ []
  unfolding filter
  All-to-filter-nil [] h = refl
  All-to-filter-nil (x ∷ xs) (n, h) = rw (fails_conv x n) (All-to-filter-nil xs h)

  pub filter-one-to-OnlyPasses : (xs : List A) (x : A) → filter p xs ≡ x ∷ [] → OnlyPasses P xs x
  unfolding filter
  filter-one-to-OnlyPasses [] x h = cc
  filter-one-to-OnlyPasses (y ∷ ys) x h = elim (Bool-cases (p y)) [
    | inl e ↦
        let h' : y ∷ filter p ys ≡ x ∷ [] = rw e at h in
        let head : y ≡ x = ground (arith, h') in
        let rest : filter p ys ≡ [] = ground (arith, h') in
        record {
          before = [];
          after = ys;
          split = rw head;
          passes = rw head at ((decides y).0 e);
          none_before = tt;
          none_after = filter-nil-to-All ys rest;
        }
    | inr e ↦
        let o = filter-one-to-OnlyPasses ys x (rw e at h) in
        record {
          before = y ∷ o.before;
          after = o.after;
          split = rw (← o.split);
          passes = o.passes;
          none_before = (fails y e, o.none_before);
          none_after = o.none_after;
        }
  ]

  filter-split :
      (before after : List A) (x : A)
      → P x
      → All (λ y. ¬ P y) before
      → All (λ y. ¬ P y) after
      → filter p (before ++ x ∷ after) ≡ x ∷ []
  unfolding filter
  filter-split [] after x q h k = rw ((decides x).1 q, All-to-filter-nil after k)
  filter-split (y ∷ before) after x q (n, h) k =
      rw (fails_conv y n) (filter-split before after x q h k)

  pub OnlyPasses-to-filter : {xs : List A} {x : A} → OnlyPasses P xs x → filter p xs ≡ x ∷ []
  OnlyPasses-to-filter {xs} {x} o =
      rw o.split (filter-split o.before o.after x o.passes o.none_before o.none_after)

module _ {A : Type 0} (p q : A → Bool) where
  -- Nothing is found among the items that pass `p` exactly when all that pass it fail `q`.
  pub find-filter-to-All :
      (xs : List A) → find q (filter p xs) ≡ none → All (λ y. p y ≡ true → q y ≡ false) xs
  unfolding find filter
  find-filter-to-All [] h = tt
  find-filter-to-All (x ∷ xs) h = ground (arith, find-filter-to-All xs)

  pub All-to-find-filter :
      (xs : List A) → All (λ y. p y ≡ true → q y ≡ false) xs → find q (filter p xs) ≡ none
  unfolding find filter
  All-to-find-filter [] h = refl
  All-to-find-filter (x ∷ xs) (f, h) = ground (arith, f, All-to-find-filter xs h)
