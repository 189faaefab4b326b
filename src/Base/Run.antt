-- ===== src/Base/Run.antt =====
-- The outcome of a C function: a value, a memory fault (a NULL or dangling pointer is read), or a
-- loop or recursion that is not given enough fuel.
use mathlib.Core.Path.{◌≡◌, refl}
use mathlib.Core.Bool.{Bool, true, false}
use socket.Base.Tests.{if◌then◌else◌}

pub data Run {ℓ} (A : Type ℓ) : Type ℓ where
  ok : A → Run A
  fault : Run A
  out_of_fuel : Run A

-- `abbrev`, so that `ok a >>= f` computes wherever it stands.
infixl 5 ◌>>=◌
abbrev pub ◌>>=◌ {ℓ κ} : {A : Type ℓ} {B : Type κ} → Run A → (A → Run B) → Run B
ok a >>= f = f a
fault >>= f = fault
out_of_fuel >>= f = out_of_fuel

-- `if (c) … else …`, where evaluating `c` may fault.
abbrev pub branch {ℓ} : {A : Type ℓ} → Run Bool → Run A → Run A → Run A
branch c m n = c >>= λ b. if b then m else n

-- The run returns, and what it returns satisfies `P`.
abbrev pub Returns {ℓ} : {A : Type ℓ} → (A → Type 0) → Run A → Type 0
Returns P (ok a) = P a
Returns P fault = ⊥
Returns P out_of_fuel = ⊥

pub Returns-bind {ℓ κ} :
    {A : Type ℓ} {B : Type κ} (P : A → Type 0) (Q : B → Type 0) (m : Run A) (f : A → Run B)
    → Returns P m
    → ((a : A) → P a → Returns Q (f a))
    → Returns Q (m >>= f)
Returns-bind P Q (ok a) f h k = k a h
Returns-bind P Q fault f h k = absurd h
Returns-bind P Q out_of_fuel f h k = absurd h

pub Returns-imp {ℓ} :
    {A : Type ℓ} (P Q : A → Type 0) (m : Run A) → Returns P m → ((a : A) → P a → Q a) → Returns Q m
Returns-imp P Q (ok a) h k = k a h
Returns-imp P Q fault h k = absurd h
Returns-imp P Q out_of_fuel h k = absurd h

-- What is returned, as a value with its properties.
pub Returns-eq {ℓ} :
    {A : Type ℓ} (P : A → Type 0) (m : Run A) → Returns P m → (a : A) × (m ≡ ok a) × P a
Returns-eq P (ok a) h = (a, refl, h)
Returns-eq P fault h = absurd h
Returns-eq P out_of_fuel h = absurd h

-- If the run returns, what it returns satisfies `P`.
abbrev pub Yields {ℓ} : {A : Type ℓ} → (A → Type 0) → Run A → Type 0
Yields P (ok a) = P a
Yields P fault = Unit
Yields P out_of_fuel = Unit

pub Yields-bind {ℓ κ} :
    {A : Type ℓ} {B : Type κ} (P : A → Type 0) (Q : B → Type 0) (m : Run A) (f : A → Run B)
    → Yields P m
    → ((a : A) → P a → Yields Q (f a))
    → Yields Q (m >>= f)
Yields-bind P Q (ok a) f h k = k a h
Yields-bind P Q fault f h k = tt
Yields-bind P Q out_of_fuel f h k = tt

pub Yields-trivial {ℓ} : {A : Type ℓ} (m : Run A) → Yields (λ _. Unit {0}) m
Yields-trivial (ok a) = tt
Yields-trivial fault = tt
Yields-trivial out_of_fuel = tt

pub Yields-imp {ℓ} :
    {A : Type ℓ} (P Q : A → Type 0) (m : Run A) → Yields P m → ((a : A) → P a → Q a) → Yields Q m
Yields-imp P Q (ok a) h k = k a h
Yields-imp P Q fault h k = tt
Yields-imp P Q out_of_fuel h k = tt

pub Yields-branch {ℓ} :
    {A : Type ℓ} (P : A → Type 0) (c : Run Bool) (m n : Run A)
    → Yields P m
    → Yields P n
    → Yields P (branch c m n)
Yields-branch P (ok true) m n h k = h
Yields-branch P (ok false) m n h k = k
Yields-branch P fault m n h k = tt
Yields-branch P out_of_fuel m n h k = tt

pub Yields-if {ℓ} :
    {A : Type ℓ} (P : A → Type 0) (b : Bool) (m n : Run A)
    → Yields P m
    → Yields P n
    → Yields P (if b then m else n)
Yields-if P true m n h k = h
Yields-if P false m n h k = k

-- A run that returns, with both kinds of property.
pub Returns-and {ℓ} :
    {A : Type ℓ} (P Q : A → Type 0) (m : Run A)
    → Returns P m
    → Yields Q m
    → Returns (λ a. P a × Q a) m
Returns-and P Q (ok a) h k = (h, k)
Returns-and P Q fault h k = absurd h
Returns-and P Q out_of_fuel h k = absurd h

pub Returns-Yields {ℓ} : {A : Type ℓ} (P : A → Type 0) (m : Run A) → Returns P m → Yields P m
Returns-Yields P (ok a) h = h
Returns-Yields P fault h = absurd h
Returns-Yields P out_of_fuel h = absurd h

pub ok-injective {ℓ} : {A : Type ℓ} {a b : A} → ok a ≡ ok b → a ≡ b
ok-injective e = cc
