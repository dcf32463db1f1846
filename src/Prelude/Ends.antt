-- ===== src/Prelude/Ends.antt =====
-- Computations that do not run out of fuel, with what holds of their results.
use mathlib.Core.Path.{◌≡◌, refl}
use mathlib.Core.Logic.{◌⊎◌, inl, inr}
use mathlib.Core.List.{List, [], ◌∷◌}
use mathlib.Core.Bool.{Bool, true, false}
use nfql.Prelude.Tests.{if◌then◌else◌}
use nfql.Prelude.Fault.{Fault, out_of_fuel, Outcome, ok, abort, map_outcome}

abbrev pub EndsIn {ℓ} : {A : Type ℓ} → (A → Type 0) → Outcome A → Type 0
EndsIn P (ok a) = P a
EndsIn P (abort f) = ¬ (f ≡ out_of_fuel)

abbrev pub Ends {ℓ} : {A : Type ℓ} → Outcome A → Type 0
Ends m = EndsIn (λ _. Unit) m

pub EndsIn-cases {ℓ} :
    {A : Type ℓ} (P : A → Type 0) (m : Outcome A)
    → EndsIn P m
    → ((a : A) × (m ≡ ok a) × P a) ⊎ ((f : Fault) × (m ≡ abort f) × (¬ (f ≡ out_of_fuel)))
EndsIn-cases P (ok a) h = inl (a, refl, h)
EndsIn-cases P (abort f) h = inr (f, refl, h)

pub Ends-map_outcome {ℓ κ} :
    {A : Type ℓ} {B : Type κ} (f : A → Outcome B)
    → ((x : A) → Ends (f x))
    → (xs : List A) → Ends (map_outcome f xs)
Ends-map_outcome f h [] = tt
Ends-map_outcome f h (x ∷ xs) = elim (EndsIn-cases (λ _. Unit) (f x) (h x)) [
  | inr (fault, e, n) ↦ rw e n
  | inl (y, e, _) ↦ elim (EndsIn-cases (λ _. Unit) (map_outcome f xs) (Ends-map_outcome f h xs)) [
    | inr (fault, e', n) ↦ rw (e, e') n
    | inl (ys, e', _) ↦ rw (e, e') tt
  ]
]

pub EndsIn-weaken {ℓ} :
    {A : Type ℓ} (P Q : A → Type 0) (m : Outcome A)
    → ((a : A) → P a → Q a)
    → EndsIn P m
    → EndsIn Q m
EndsIn-weaken P Q (ok a) f h = f a h
EndsIn-weaken P Q (abort fault) f h = h

pub Ends-if {ℓ} :
    {A : Type ℓ} (flag : Bool) (m n : Outcome A) → Ends m → Ends n → Ends (if flag then m else n)
Ends-if true m n h k = h
Ends-if false m n h k = k
