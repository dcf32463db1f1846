-- ===== src/Tests/Sorting.antt =====
-- An insertion sort, as a C library whose sorting functions do what they document.
use mathlib.Core.List.{Perm}
use mathlib.Core.List.Perm
use nfql.Prelude.{
  ◌≡◌, refl, sym, ap, ◌∙◌, true, false, List, [], ◌∷◌, All, All-map, Outcome, ok, ◌>>=◌,
  if◌then◌else◌, Bool-cases, inl, inr, arith,
}
use nfql.Prelude.Ints.{ℤ, pos, negsuc}
use nfql.Prelude.Ends.{Ends, EndsIn-cases}
use nfql.Grouper.Termination.{SortEnds}
use nfql.Libc.{Libc, IsLibc, Comparator, IsOrder, IsSorted, is_positive, is_negative}

module _ {A : Type 0} (compare : Comparator A) where
  abbrev insert : A → List A → List A
  insert x [] = x ∷ []
  insert x (y ∷ ys) =
      let further = y ∷ insert x ys in if is_positive (compare x y) then further else x ∷ y ∷ ys

  abbrev sort : List A → List A
  sort [] = []
  sort (x ∷ xs) = insert x (sort xs)

  insert-perm : (x : A) (ys : List A) → Perm (insert x ys) (x ∷ ys)
  insert-perm x [] = Perm.refl (x ∷ [])
  insert-perm x (y ∷ ys) = elim (Bool-cases (is_positive (compare x y))) [
    | inl on ↦ rw on (Perm.trans (Perm.cons y (insert-perm x ys)) (Perm.swap x y ys))
    | inr off ↦ rw off (Perm.refl (x ∷ y ∷ ys))
  ]

  sort-perm : (xs : List A) → Perm (sort xs) xs
  sort-perm [] = Perm.refl []
  sort-perm (x ∷ xs) = Perm.trans (insert-perm x (sort xs)) (Perm.cons x (sort-perm xs))

  insert-All : (P : A → Type 0) (x : A) (ys : List A) → P x → All P ys → All P (insert x ys)
  insert-All P x [] p h = (p, tt)
  insert-All P x (y ∷ ys) p h = elim (Bool-cases (is_positive (compare x y))) [
    | inl on ↦ rw on (h.0, insert-All P x ys p h.1)
    | inr off ↦ rw off (p, h)
  ]

  not_both : (n : ℤ) → is_negative n ≡ true → is_positive n ≡ false
  not_both (pos n) h = absurd (ground (arith, h))
  not_both (negsuc n) h = refl

  insert-IsSorted :
      (x : A) (ys : List A)
      → IsOrder A compare
      → IsSorted compare ys
      → IsSorted compare (insert x ys)
  insert-IsSorted x [] o h = (tt, tt)
  insert-IsSorted x (y ∷ ys) o h = elim (Bool-cases (is_positive (compare x y))) [
    | inl on ↦ rw on (
      insert-All (λ z. is_positive (compare y z) ≡ false) x ys
          (not_both (compare y x) (sym (o.antisymmetric x y) ∙ on)) h.0,
      insert-IsSorted x ys o h.1,
    )
    | inr off ↦ rw off ((off, All-map (λ z p. o.transitive x y z off p) ys h.0), h)
  ]

  sort-IsSorted : (xs : List A) → IsOrder A compare → IsSorted compare (sort xs)
  sort-IsSorted [] o = tt
  sort-IsSorted (x ∷ xs) o = insert-IsSorted x (sort xs) o (sort-IsSorted xs o)

-- The same sort with a comparison that may fault.
module _ {A : Type 0} (compare : A → A → Outcome ℤ) where
  abbrev insert_r : A → List A → Outcome (List A)
  insert_r x [] = ok (x ∷ [])
  insert_r x (y ∷ ys) = do
    order ← compare x y
    let further = insert_r x ys
    if is_positive order then (further >>= λ zs. ok (y ∷ zs)) else ok (x ∷ y ∷ ys)

  abbrev sort_r : List A → Outcome (List A)
  sort_r [] = ok []
  sort_r (x ∷ xs) = sort_r xs >>= λ ys. insert_r x ys

insert_r_lem :
    {A : Type 0} (compare : Comparator A) (x : A) (ys : List A)
    → insert_r (λ a b. ok (compare a b)) x ys ≡ ok (insert compare x ys)
insert_r_lem compare x [] = refl
insert_r_lem compare x (y ∷ ys) = elim (Bool-cases (is_positive (compare x y))) [
  | inl on ↦ rw (on, insert_r_lem compare x ys) refl
  | inr off ↦ rw off refl
]

sort_r_lem :
    {A : Type 0} (compare : Comparator A) (xs : List A)
    → sort_r (λ a b. ok (compare a b)) xs ≡ ok (sort compare xs)
sort_r_lem compare [] = refl
sort_r_lem compare (x ∷ xs) =
    ap (λ o. o >>= λ ys. insert_r (λ a b. ok (compare a b)) x ys) (sort_r_lem compare xs)
    ∙ insert_r_lem compare x (sort compare xs)

insert_r-Ends :
    {A : Type 0} (compare : A → A → Outcome ℤ)
    → ((x y : A) → Ends (compare x y))
    → (x : A) (ys : List A) → Ends (insert_r compare x ys)
insert_r-Ends compare h x [] = tt
insert_r-Ends compare h x (y ∷ ys) = elim (EndsIn-cases (λ _. Unit) _ (h x y)) [
  | inr (f, e, n) ↦ rw e n
  | inl (order, e, _) ↦ elim (Bool-cases (is_positive order)) [
    | inr off ↦ rw (e, off) tt
    | inl on ↦ elim (EndsIn-cases (λ _. Unit) _ (insert_r-Ends compare h x ys)) [
      | inr (f, e', n) ↦ rw (e, on, e') n
      | inl (zs, e', _) ↦ rw (e, on, e') tt
    ]
  ]
]

sort_r-Ends :
    {A : Type 0} (compare : A → A → Outcome ℤ)
    → ((x y : A) → Ends (compare x y))
    → (xs : List A) → Ends (sort_r compare xs)
sort_r-Ends compare h [] = tt
sort_r-Ends compare h (x ∷ xs) = elim (EndsIn-cases (λ _. Unit) _ (sort_r-Ends compare h xs)) [
  | inr (f, e, n) ↦ rw e n
  | inl (ys, e, _) ↦ rw e (insert_r-Ends compare h x ys)
]

-- The square root is not looked at.
abbrev pub sorting_libc : Libc
sorting_libc = record { qsort = sort; qsort_r = sort_r; sqrt = λ n. n }

pub sorting_libc-IsLibc : IsLibc sorting_libc
sorting_libc-IsLibc = record {
  qsort_perm = sort-perm;
  qsort_sorted = sort-IsSorted;
  qsort_r_lem = λ compare xs o.
      (sort compare xs, sort_r_lem compare xs, sort-perm compare xs, sort-IsSorted compare xs o);
}

pub sorting_libc-SortEnds : SortEnds sorting_libc
sorting_libc-SortEnds = λ compare xs h. sort_r-Ends compare h xs
