-- ===== src/Common/Results.antt =====
-- Rust's `Result<A, E>` as a value, with its bind.
use mathlib.Core.Path.{◌≡◌, refl}
use mathlib.Core.Bool.{Bool, true, false}
use mathlib.Core.Logic.{◌⊎◌, inl, inr}
use mathlib.Core.Option.{Option, none, some}

pub data Result {ℓ κ} (A : Type ℓ) (E : Type κ) : Type (ℓ ⊔ κ) where
  ok : A → Result A E
  err : E → Result A E

-- The `?` operator.
infixl 5 ◌>>=◌ ◌>>◌
abbrev pub ◌>>=◌ {ℓ κ μ} :
    {A : Type ℓ} {B : Type κ} {E : Type μ} → Result A E → (A → Result B E) → Result B E
ok a >>= f = f a
err e >>= f = err e

abbrev pub ◌>>◌ {ℓ μ} : {B : Type ℓ} {E : Type μ} → Result (Unit {0}) E → Result B E → Result B E
m >> k = m >>= λ _. k

-- `if !test { return Err(e) }`
abbrev pub guard {μ} : {E : Type μ} → Bool → E → Result (Unit {0}) E
guard true e = ok tt
guard false e = err e

-- `.ok_or(e)`
abbrev pub ok_or {ℓ μ} : {A : Type ℓ} {E : Type μ} → Option A → E → Result A E
ok_or none e = err e
ok_or (some a) e = ok a

-- `.map_err(f)`
abbrev pub map_err {ℓ μ ν} :
    {A : Type ℓ} {E : Type μ} {F : Type ν} → (E → F) → Result A E → Result A F
map_err f (ok a) = ok a
map_err f (err e) = err (f e)

-- `.is_ok()`
abbrev pub is_ok {ℓ μ} : {A : Type ℓ} {E : Type μ} → Result A E → Bool
is_ok (ok a) = true
is_ok (err e) = false

pub Result-cases {ℓ μ} :
    {A : Type ℓ} {E : Type μ} (r : Result A E) → ((a : A) × (r ≡ ok a)) ⊎ ((e : E) × (r ≡ err e))
Result-cases (ok a) = inl (a, refl)
Result-cases (err e) = inr (e, refl)

pub ok_or-some {ℓ μ} :
    {A : Type ℓ} {E : Type μ} (o : Option A) (e : E) {a : A} → ok_or o e ≡ ok a → o ≡ some a
ok_or-some none e h = cc
ok_or-some (some x) e h = cc

pub ok_or-none {ℓ μ} :
    {A : Type ℓ} {E : Type μ} (o : Option A) (e : E) {x : E} → ok_or o e ≡ err x → o ≡ none
ok_or-none none e h = refl
ok_or-none (some a) e h = cc
