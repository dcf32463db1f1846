-- ===== src/Libc.antt =====
-- What the program calls of the C library: a parameter of the definitions that use it. A record of
-- functions, and the documented behaviour that the theorems rely on.
use mathlib.Core.List.{Perm}
use nfql.Prelude.{ℕ, zero, suc, ◌≡◌, List, [], ◌∷◌, Bool, true, false, All, Outcome, ok}
use nfql.Prelude.Ints.{ℤ, pos, negsuc}
use nfql.Word.{Buffer}

-- A comparison function, as `qsort` takes it: negative, zero or positive.
abbrev pub Comparator {ℓ} : Type ℓ → Type ℓ
Comparator A = A → A → ℤ

-- `qsort` on an array of uint64_t; `qsort_r` on an array of records, whose comparison may fault;
-- and `sqrt` on an integer, cut to an integer.
pub record Libc : Type 0 where
  pub qsort : Comparator ℕ → List ℕ → List ℕ
  pub qsort_r : (Buffer → Buffer → Outcome ℤ) → List Buffer → Outcome (List Buffer)
  pub sqrt : ℕ → ℕ

abbrev pub is_negative : ℤ → Bool
is_negative (pos n) = false
is_negative (negsuc n) = true

abbrev pub is_positive : ℤ → Bool
is_positive (pos zero) = false
is_positive (pos (suc n)) = true
is_positive (negsuc n) = false

-- The comparison is that of a total preorder.
pub record IsOrder (A : Type 0) (compare : Comparator A) : Type 0 where
  pub antisymmetric : (x y : A) → is_positive (compare x y) ≡ is_negative (compare y x)
  pub transitive :
      (x y z : A)
      → is_positive (compare x y) ≡ false
      → is_positive (compare y z) ≡ false
      → is_positive (compare x z) ≡ false

-- No element is greater than a later one.
abbrev pub IsSorted : {A : Type 0} → Comparator A → List A → Type 0
IsSorted compare [] = Unit
IsSorted compare (x ∷ xs) = All (λ y. is_positive (compare x y) ≡ false) xs × IsSorted compare xs

-- The sorting functions order the elements that they are given.
pub record IsLibc (libc : Libc) : Type 0 where
  pub qsort_perm : (compare : Comparator ℕ) (xs : List ℕ) → Perm (libc.qsort compare xs) xs
  pub qsort_sorted :
      (compare : Comparator ℕ) (xs : List ℕ)
      → IsOrder _ compare
      → IsSorted compare (libc.qsort compare xs)
  pub qsort_r_lem :
      (compare : Comparator Buffer) (xs : List Buffer)
      → IsOrder _ compare
      → (ys : List Buffer) × (libc.qsort_r (λ x y. ok (compare x y)) xs ≡ ok ys)
        × Perm ys xs
        × IsSorted compare ys
