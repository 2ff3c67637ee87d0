-- ===== src/Prelude/Fallible.antt =====
-- Rust's `Result`, with the `?` operator as the bind of a do block.
use mathlib.Core.Path.{◌≡◌, refl, ap, ◌∙◌}
use openidconnect_rs.Prelude.Lists.{if◌then◌else◌}
use mathlib.Core.Logic.{◌↔◌, ◌⊎◌, inl, inr}
use mathlib.Core.Bool.{Bool, true, false}
use mathlib.Core.Option.{Option, none, some}

pub data Result {ℓ κ} (A : Type ℓ) (E : Type κ) : Type (ℓ ⊔ κ) where
  ok : A → Result A E
  err : E → Result A E

abbrev pub map_err {ℓ κ μ} :
    {A : Type ℓ} {E : Type κ} {F : Type μ} → (E → F) → Result A E → Result A F
map_err f (ok a) = ok a
map_err f (err e) = err (f e)

abbrev pub ok_or {ℓ κ} : {A : Type ℓ} {E : Type κ} → Option A → E → Result A E
ok_or (some a) e = ok a
ok_or none e = err e

-- `e?` and what follows it
infixl 5 ◌>>=◌ ◌>>◌
abbrev pub ◌>>=◌ {ℓ κ μ} :
    {A : Type ℓ} {B : Type κ} {E : Type μ} → Result A E → (A → Result B E) → Result B E
err failure >>= next = err failure
ok value >>= next = next value

abbrev pub ◌>>◌ {κ μ} : {B : Type κ} {E : Type μ} → Result (Unit {0}) E → Result B E → Result B E
err failure >> next = err failure
ok _ >> next = next

-- `if !test { return Err(failure) }`
abbrev pub guard {μ} : {E : Type μ} → Bool → E → Result (Unit {0}) E
guard false failure = err failure
guard true failure = ok tt

pub map_err-eq-ok {ℓ κ μ} :
    {A : Type ℓ} {E : Type κ} {F : Type μ} (f : E → F) (m : Result A E) {a : A}
    → map_err f m ≡ ok a
    → m ≡ ok a
map_err-eq-ok f (ok b) h = cc
map_err-eq-ok f (err e) h = cc

pub >>-eq-ok {κ μ} :
    {B : Type κ} {E : Type μ} (m : Result (Unit {0}) E) (k : Result B E) {b : B}
    → (m >> k) ≡ ok b
    → (m ≡ ok tt) × (k ≡ ok b)
>>-eq-ok (ok u) k h = (refl, h)
>>-eq-ok (err e) k h = cc

pub ok_inj {ℓ κ} : {A : Type ℓ} {E : Type κ} {a b : A} → ◌≡◌ {A = Result A E} (ok a) (ok b) → a ≡ b
ok_inj h = cc h

pub >>=-iff {ℓ κ μ} :
    {A : Type ℓ} {B : Type κ} {E : Type μ} (m : Result A E) (f : A → Result B E) {b : B}
    → ((m >>= f) ≡ ok b) ↔ ((a : A) × (m ≡ ok a) × (f a ≡ ok b))
>>=-iff (ok x) f = (λ h. (x, refl, h), λ w. ap f (ok_inj w.1) ∙ w.2)
>>=-iff (err e) f = (λ h. cc, λ w. cc w.1)

pub map_err_iff {ℓ κ μ} :
    {A : Type ℓ} {E : Type κ} {F : Type μ} (f : E → F) (m : Result A E) {a : A}
    → (map_err f m ≡ ok a) ↔ (m ≡ ok a)
map_err_iff f (ok x) = (λ h. cc, λ h. cc)
map_err_iff f (err e) = (λ h. cc, λ h. cc)

pub ok_or_iff {ℓ κ} :
    {A : Type ℓ} {E : Type κ} (o : Option A) (e : E) {a : A} → (ok_or o e ≡ ok a) ↔ (o ≡ some a)
ok_or_iff (some x) e = (λ h. cc, λ h. cc)
ok_or_iff none e = (λ h. cc, λ h. cc)

pub guard_iff {μ} : {E : Type μ} (b : Bool) (e : E) → (guard b e ≡ ok tt) ↔ (b ≡ true)
guard_iff true e = (λ _. refl, λ _. refl)
guard_iff false e = (λ h. cc, λ h. cc)

-- `if test { m } else { Err(e) }`
pub if_ok_iff {ℓ μ} :
    {A : Type ℓ} {E : Type μ} (b : Bool) (m : Result A E) (e : E) {a : A}
    → ((if b then m else err e) ≡ ok a) ↔ ((b ≡ true) × (m ≡ ok a))
if_ok_iff true m e = (λ h. (refl, h), λ h. h.1)
if_ok_iff false m e = (λ h. cc, λ h. cc h.0)

pub >>-intro {κ μ} :
    {B : Type κ} {E : Type μ} {m : Result (Unit {0}) E} {k : Result B E} {r : Result B E}
    → m ≡ ok tt
    → k ≡ r
    → (m >> k) ≡ r
>>-intro {m = ok u} p q = q
>>-intro {m = err e} p q = cc

-- `if test { Err(e) } else { m }`
pub unless_ok_iff {ℓ μ} :
    {A : Type ℓ} {E : Type μ} (b : Bool) (m : Result A E) (e : E) {a : A}
    → ((if b then err e else m) ≡ ok a) ↔ ((b ≡ false) × (m ≡ ok a))
unless_ok_iff true m e = (λ h. cc, λ h. cc h.0)
unless_ok_iff false m e = (λ h. (refl, h), λ h. h.1)

-- Where an error comes from.
pub map_err-err {ℓ κ μ} :
    {A : Type ℓ} {E : Type κ} {F : Type μ} (f : E → F) (m : Result A E) {e : F}
    → map_err f m ≡ err e
    → (x : E) × (m ≡ err x) × (f x ≡ e)
map_err-err f (ok a) h = cc
map_err-err f (err x) h = (x, refl, cc)

pub >>=-err {ℓ κ μ} :
    {A : Type ℓ} {B : Type κ} {E : Type μ} (m : Result A E) (f : A → Result B E) {e : E}
    → (m >>= f) ≡ err e
    → (m ≡ err e) ⊎ ((a : A) × (m ≡ ok a) × (f a ≡ err e))
>>=-err (ok a) f h = inr (a, refl, h)
>>=-err (err x) f h = inl (cc h)

pub >>-err {κ μ} :
    {B : Type κ} {E : Type μ} (m : Result (Unit {0}) E) (k : Result B E) {e : E}
    → (m >> k) ≡ err e
    → (m ≡ err e) ⊎ ((m ≡ ok tt) × (k ≡ err e))
>>-err (ok u) k h = inr (refl, h)
>>-err (err x) k h = inl (cc h)

pub >>=-intro {ℓ κ μ} :
    {A : Type ℓ} {B : Type κ} {E : Type μ} {m : Result A E} (f : A → Result B E) {a : A}
    {r : Result B E}
    → m ≡ ok a
    → f a ≡ r
    → (m >>= f) ≡ r
>>=-intro f p q = rw p q
