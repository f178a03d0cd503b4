-- ===== src/Prelude/Results.antt =====
-- Fallible code: an operation returns its result or the error that it throws.
use mathlib.Core.Path.{◌≡◌, refl}
use mathlib.Core.Logic.{◌⊎◌, inl, inr}
use mathlib.Core.Bool.{Bool, true, false}
use mathlib.Core.Option.{Option, none, some}

pub data Result {ℓ κ} (E : Type κ) (A : Type ℓ) : Type (ℓ ⊔ κ) where
  ok : A → Result E A
  err : E → Result E A

-- A failed operation throws on, and what follows it does not run.
infixl 5 ◌>>=◌ ◌>>◌
abbrev pub ◌>>=◌ {μ ℓ κ} :
    {E : Type μ} {A : Type ℓ} {B : Type κ} → Result E A → (A → Result E B) → Result E B
err thrown >>= next = err thrown
ok value >>= next = next value

abbrev pub or_throw {ℓ μ} : {E : Type μ} {A : Type ℓ} → Option A → E → Result E A
or_throw (some value) e = ok value
or_throw none e = err e

-- `if (bad) throw e`.
abbrev pub throw_if {μ} : {E : Type μ} → Bool → E → Result E (Unit {0})
throw_if false e = ok tt
throw_if true e = err e

-- The same chain for an operation that is run for its checks alone.
abbrev pub ◌>>◌ {μ ℓ} : {E : Type μ} {B : Type ℓ} → Result E (Unit {0}) → Result E B → Result E B
check >> next = check >>= λ _. next

-- When a chain succeeds, its first operation did, and the proof goes on with the parts.
pub on_ok {ℓ κ μ ν} :
    {E : Type μ} {A : Type ℓ} {B : Type κ} {P : Type ν} (first : Result E A) (next : A → Result E B)
    {b : B}
    → (first >>= next) ≡ ok b
    → ((value : A) → first ≡ ok value → next value ≡ ok b → P)
    → P
on_ok (err thrown) next h go = cc
on_ok (ok value) next h go = go value refl h

-- The parts of a chain that succeeds.
pub >>=-eq-ok {ℓ κ μ} :
    {E : Type μ} {A : Type ℓ} {B : Type κ} (first : Result E A) (next : A → Result E B) {b : B}
    → (first >>= next) ≡ ok b
    → (value : A) × (first ≡ ok value) × (next value ≡ ok b)
>>=-eq-ok first next h = on_ok first next h (λ value e rest. (value, e, rest))

pub some_inj {ℓ} : {A : Type ℓ} {a b : A} → some a ≡ some b → a ≡ b
some_inj h = cc

pub Result-cases {ℓ κ} :
    {E : Type κ} {A : Type ℓ} (m : Result E A) → ((e : E) × (m ≡ err e)) ⊎ ((a : A) × (m ≡ ok a))
Result-cases (err e) = inl (e, refl)
Result-cases (ok a) = inr (a, refl)
