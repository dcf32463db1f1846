-- ===== src/Prelude/Decides.antt =====
-- Computations that succeed exactly under a condition, and the same of what is built from them.
use mathlib.Core.Path.{◌≡◌, refl, ap, ◌∙◌}
use mathlib.Core.Logic.{◌⊎◌, inl, inr}
use mathlib.Core.Bool.{Bool, true, false}
use mathlib.Core.List.{List, [], ◌∷◌, map}
use nfql.Prelude.Tests.{if◌then◌else◌}
use nfql.Prelude.Lists.{All}
use nfql.Prelude.Fault.{Outcome, ok, abort, err_exit, ◌>>=◌, map_outcome}

-- The computation ends with the value if the condition holds, and exits with an error if it does not.
abbrev pub Decides {ℓ} : {A : Type ℓ} → Type 0 → Outcome A → A → Type ℓ
Decides P m a = (P × (m ≡ ok a)) ⊎ ((¬ P) × (m ≡ abort err_exit))

pub Decides-ok {ℓ} : {A : Type ℓ} (a : A) → Decides Unit (ok a) a
Decides-ok a = inl (tt, refl)

pub Decides-iff {ℓ} :
    {A : Type ℓ} {P Q : Type 0} {m : Outcome A} {a : A}
    → (P → Q)
    → (Q → P)
    → Decides P m a
    → Decides Q m a
Decides-iff f g (inl (p, e)) = inl (f p, e)
Decides-iff f g (inr (n, e)) = inr ((λ q. n (g q)), e)

pub Decides-bind {ℓ κ} :
    {A : Type ℓ} {B : Type κ} {P Q : Type 0} {m : Outcome A} {a : A} {b : B} (f : A → Outcome B)
    → Decides P m a
    → Decides Q (f a) b
    → Decides (P × Q) (m >>= f) b
Decides-bind f (inl (p, e)) (inl (q, r)) = inl ((p, q), ap (λ o. o >>= f) e ∙ r)
Decides-bind f (inl (p, e)) (inr (n, r)) = inr ((λ h. n h.1), ap (λ o. o >>= f) e ∙ r)
Decides-bind f (inr (n, e)) d = inr ((λ h. n h.0), ap (λ o. o >>= f) e)

-- The last step of a block.
pub Decides-last {ℓ κ} :
    {A : Type ℓ} {B : Type κ} {P : Type 0} {m : Outcome A} {a : A} (f : A → B)
    → Decides P m a
    → Decides P (m >>= λ x. ok (f x)) (f a)
Decides-last f (inl (p, e)) = inl (p, ap (λ o. o >>= λ x. ok (f x)) e)
Decides-last f (inr (n, e)) = inr (n, ap (λ o. o >>= λ x. ok (f x)) e)

pub Decides-map_outcome {ℓ κ} :
    {A : Type ℓ} {B : Type κ} {P : A → Type 0} (Q : A → Type 0) (f : A → Outcome B) (g : A → B)
    → ((x : A) → Q x → Decides (P x) (f x) (g x))
    → (xs : List A) → All Q xs
    → Decides (All P xs) (map_outcome f xs) (map g xs)
Decides-map_outcome Q f g h [] q = Decides-ok []
Decides-map_outcome Q f g h (x ∷ xs) q =
    Decides-bind _ (h x q.0) (Decides-last (λ ys. g x ∷ ys) (Decides-map_outcome Q f g h xs q.1))

pub Decides-always {ℓ κ} :
    {A : Type ℓ} {B : Type κ} {P : A → Type 0} (f : A → Outcome B) (g : A → B)
    → ((x : A) → Decides (P x) (f x) (g x))
    → (xs : List A) → Decides (All P xs) (map_outcome f xs) (map g xs)
Decides-always f g h [] = Decides-ok []
Decides-always f g h (x ∷ xs) =
    Decides-bind _ (h x) (Decides-last (λ ys. g x ∷ ys) (Decides-always f g h xs))

-- A computation under a flag.
pub Decides-if {ℓ} :
    {A : Type ℓ} {P : Type 0} {m : Outcome A} {a : A} (flag : Bool) (d : A)
    → (flag ≡ true → Decides P m a)
    → Decides (flag ≡ true → P) (if flag then m else ok d) (if flag then a else d)
Decides-if true d h = elim (h refl) [
  | inl (p, e) ↦ inl ((λ _. p), e)
  | inr (n, e) ↦ inr ((λ k. n (k refl)), e)
]
Decides-if false d h = inl ((λ e. cc), refl)
