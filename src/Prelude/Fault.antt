-- ===== src/Prelude/Fault.antt =====
-- How a run of the program can stop early, and computations that may: `errExit` and `exitOn`
-- (src/errorhandlers.c, src/errorhandlers.h) print a message and abort the process, so nothing that
-- follows them in the caller runs. A call through a NULL function pointer is a fault as well. So is a
-- read outside an array, which C leaves undefined: the code does not test for it, and of a run that
-- has come to it nothing can be said.
use mathlib.Core.Path.{◌≡◌, refl}
use mathlib.Core.Logic.{◌⊎◌, inl, inr}
use mathlib.Core.List.{List, [], ◌∷◌}
use mathlib.Core.Option.{Option, none, some}

pub data Fault : Type 0 where
  err_exit null_pointer undefined out_of_fuel : Fault

pub data Outcome {ℓ} (A : Type ℓ) : Type ℓ where
  ok : A → Outcome A
  abort : Fault → Outcome A

infixl 5 ◌>>=◌
abbrev pub ◌>>=◌ {ℓ κ} : {A : Type ℓ} {B : Type κ} → Outcome A → (A → Outcome B) → Outcome B
ok a >>= f = f a
abort e >>= f = abort e

-- A step on each element, in order.
abbrev pub map_outcome {ℓ κ} :
    {A : Type ℓ} {B : Type κ} → (A → Outcome B) → List A → Outcome (List B)
map_outcome f [] = ok []
map_outcome f (x ∷ xs) = f x >>= λ y. map_outcome f xs >>= λ ys. ok (y ∷ ys)

-- A read through a pointer.
abbrev pub deref {ℓ} : {A : Type ℓ} → Option A → Outcome A
deref none = abort null_pointer
deref (some a) = ok a

pub Outcome-cases {ℓ} :
    {A : Type ℓ} (m : Outcome A) → ((a : A) × (m ≡ ok a)) ⊎ ((f : Fault) × (m ≡ abort f))
Outcome-cases (ok a) = inl (a, refl)
Outcome-cases (abort f) = inr (f, refl)
