-- ===== src/Common/Outcome.antt =====
-- What a C routine over raw memory can do: return a value, return its error value (`NULL` or a
-- negative number), or fault, which is a read or write outside the memory that it was given.
use Prim.Native.Nat.{ℕ}
use mathlib.Core.Path.{◌≡◌, refl}
use mathlib.Core.Logic.{◌⊎◌, inl, inr}
use mathlib.Core.Bool.{Bool, true, false}
use mathlib.Core.Option.{none, some}
use mathlib.Core.List.{List}
use dvb_apps.Common.Lists.{get_elem?}

pub data Result {ℓ} (A : Type ℓ) : Type ℓ where
  ok : A → Result A
  fail : Result A
  fault : Result A

infixl 5 ◌>>=◌ ◌>>◌
abbrev pub ◌>>=◌ {ℓ κ} : {A : Type ℓ} {B : Type κ} → Result A → (A → Result B) → Result B
ok a >>= f = f a
fail >>= f = fail
fault >>= f = fault

abbrev pub ◌>>◌ {ℓ} : {B : Type ℓ} → Result (Unit {0}) → Result B → Result B
m >> k = m >>= λ _. k

-- `if (!test) return -1;`
abbrev pub guard : Bool → Result (Unit {0})
guard true = ok tt
guard false = fail

-- A read of one byte at an index of the memory that is there.
abbrev pub read : List ℕ → ℕ → Result ℕ
read buf i = elim (get_elem? buf i) [ some v ↦ ok v | none ↦ fault ]

-- The routine returns a value, and the value has the property.
abbrev pub Returns {ℓ} : {A : Type ℓ} → (A → Type 0) → Result A → Type 0
Returns P (ok a) = P a
Returns P fail = ⊥
Returns P fault = ⊥

-- The routine returns its error value, or a value that has the property; it never faults.
abbrev pub Safe {ℓ} : {A : Type ℓ} → (A → Type 0) → Result A → Type 0
Safe P (ok a) = P a
Safe P fail = Unit
Safe P fault = ⊥

pub Result-cases {ℓ} :
    {A : Type ℓ} (r : Result A) → ((a : A) × (r ≡ ok a)) ⊎ ((r ≡ fail) ⊎ (r ≡ fault))
Result-cases (ok a) = inl (a, refl)
Result-cases fail = inr (inl refl)
Result-cases fault = inr (inr refl)

-- What is safe stays safe under a continuation that is safe on its values.
pub Safe-bind {ℓ κ} :
    {A : Type ℓ} {B : Type κ} (P : A → Type 0) (Q : B → Type 0) (m : Result A) (f : A → Result B)
    → Safe P m
    → ((a : A) → P a → Safe Q (f a))
    → Safe Q (m >>= f)
Safe-bind P Q (ok a) f s k = k a s
Safe-bind P Q fail f s k = tt
Safe-bind P Q fault f s k = absurd s

pub Returns-bind {ℓ κ} :
    {A : Type ℓ} {B : Type κ} (P : A → Type 0) (Q : B → Type 0) (m : Result A) (f : A → Result B)
    → Returns P m
    → ((a : A) → P a → Returns Q (f a))
    → Returns Q (m >>= f)
Returns-bind P Q (ok a) f r k = k a r
Returns-bind P Q fail f r k = absurd r
Returns-bind P Q fault f r k = absurd r

pub Safe-guard {ℓ} :
    {A : Type ℓ} (P : A → Type 0) (b : Bool) (k : Result A)
    → (b ≡ true → Safe P k)
    → Safe P (guard b >>= λ _. k)
Safe-guard P true k h = h refl
Safe-guard P false k h = tt

pub Safe-elim {ℓ} :
    {A : Type ℓ} (P : A → Type 0) (b : Bool) (x y : Result A)
    → (b ≡ true → Safe P x)
    → (b ≡ false → Safe P y)
    → Safe P (elim b [ true ↦ x | false ↦ y ])
Safe-elim P true x y hx hy = hx refl
Safe-elim P false x y hx hy = hy refl
