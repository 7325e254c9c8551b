-- ===== src/Prelude/Faults.antt =====
-- How a call ends: with a value, or with a fault that stops the simulation.
use mathlib.Core.Path.{◌≡◌, refl, subst, ap}
use mathlib.Core.Bool.{Bool, true, false}
use mathlib.Core.Option.{Option, none, some}

-- `failed_assert` is ASSERT2, `runtime_error` is error() or a thrown cRuntimeError, `undefined` is a
-- read outside an array or through a null pointer, and `out_of_range` is a std::out_of_range where a
-- caller catches it; elsewhere it stops the simulation as a `runtime_error` does.
pub data Fault : Type 0 where
  failed_assert runtime_error undefined out_of_range : Fault

pub data Outcome {ℓ} (A : Type ℓ) : Type ℓ where
  ok : A → Outcome A
  fault : Fault → Outcome A

infixl 5 ◌>>=◌ ◌>>◌
abbrev pub ◌>>=◌ {ℓ κ} : {A : Type ℓ} {B : Type κ} → Outcome A → (A → Outcome B) → Outcome B
ok a >>= f = f a
fault e >>= f = fault e

abbrev pub ◌>>◌ {ℓ} : {B : Type ℓ} → Outcome (Unit {0}) → Outcome B → Outcome B
m >> k = m >>= λ _. k

abbrev pub check : Bool → Fault → Outcome (Unit {0})
check true e = ok tt
check false e = fault e

abbrev pub or_fault {ℓ} : {A : Type ℓ} → Option A → Fault → Outcome A
or_fault none e = fault e
or_fault (some a) e = ok a

-- What holds of the value, if there is one.
abbrev pub Ensures {ℓ κ} : {A : Type ℓ} → (A → Type κ) → Outcome A → Type κ
Ensures P (ok a) = P a
Ensures P (fault e) = Unit

pub Ensures->>= {ℓ κ μ} :
    {A : Type ℓ} {B : Type κ} (P : B → Type μ) (m : Outcome A) (f : A → Outcome B)
    → ((a : A) → m ≡ ok a → Ensures P (f a))
    → Ensures P (m >>= f)
Ensures->>= P (ok a) f h = h a refl
Ensures->>= P (fault e) f h = tt

pub Ensures-ok {ℓ κ} :
    {A : Type ℓ} (P : A → Type κ) (m : Outcome A) {a : A} → Ensures P m → m ≡ ok a → P a
Ensures-ok P m {a} h e = subst (Ensures P) e h

pub or_fault-ok {ℓ} :
    {A : Type ℓ} (o : Option A) (e : Fault) (a : A) → or_fault o e ≡ ok a → o ≡ some a
or_fault-ok none e a h = cc
or_fault-ok (some b) e a h = cc

pub check-ok : (b : Bool) (e : Fault) (u : Unit) → check b e ≡ ok u → b ≡ true
check-ok true e u h = refl
check-ok false e u h = cc

-- One step of a chain that succeeds.
pub >>=-ok {ℓ κ} :
    {A : Type ℓ} {B : Type κ} (m : Outcome A) (f : A → Outcome B) (a : A)
    → m ≡ ok a
    → (m >>= f) ≡ f a
>>=-ok m f a h = ap (λ n. n >>= f) h
