-- ===== src/Prelude/Ensures.antt =====
-- What holds of the result of a computation, if it ends with one.
use mathlib.Core.Path.{◌≡◌, subst}
use nfql.Prelude.Fault.{Outcome, ok, abort}

abbrev pub Ensures {ℓ} : {A : Type ℓ} → (A → Type 0) → Outcome A → Type 0
Ensures P (ok a) = P a
Ensures P (abort f) = Unit

pub Ensures-ok {ℓ} :
    {A : Type ℓ} (P : A → Type 0) (m : Outcome A) (a : A) → Ensures P m → m ≡ ok a → P a
Ensures-ok P m a h e = subst (Ensures P) e h
