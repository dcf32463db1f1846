-- ===== src/Merger/Product.antt =====
-- The tuples of group numbers that the iterator visits, as tuples of groups.
use mathlib.Core.List.{append_assoc}
use nfql.Prelude.{
  deref, ℕ, suc, ◌+◌, ◌-◌, ◌*◌, ◌≡◌, refl, ap, ◌∙◌, List, [], ◌∷◌, ◌++◌, some, map, arith, length,
  length-append, get_elem?, for_each, ok,
}
use nfql.Pipeline.{Branch, Group}
use nfql.Permut.Tuples.{from_heads, all_tuples}
use nfql.Permut.Walk.{Filtered, group_counts}
use nfql.Merger.{filtered_group, tuple_groups, product}

-- All ways to choose one group of each branch, the last branch's running fastest.
abbrev pub cartesian : List (List Group) → List (List Group)
cartesian [] = [] ∷ []
cartesian (groups ∷ groupsets) = for_each groups λ group. map (◌∷◌ group) (cartesian groupsets)

-- Two lists agree place by place.
abbrev pub Pairs {ℓ κ} : {A : Type ℓ} {B : Type κ} → (A → B → Type 0) → List A → List B → Type 0
Pairs R [] [] = Unit
Pairs R (x ∷ xs) (y ∷ ys) = R x y × Pairs R xs ys
Pairs R [] (y ∷ ys) = ⊥
Pairs R (x ∷ xs) [] = ⊥

pub length-Pairs {ℓ κ} :
    {A : Type ℓ} {B : Type κ} (R : A → B → Type 0) (xs : List A) (ys : List B)
    → Pairs R xs ys
    → length xs ≡ length ys
length-Pairs R [] [] h = refl
length-Pairs R [] (y ∷ ys) h = absurd h
length-Pairs R (x ∷ xs) [] h = absurd h
length-Pairs R (x ∷ xs) (y ∷ ys) h = ap suc (length-Pairs R xs ys h.1)

Pairs-append {ℓ κ} :
    {A : Type ℓ} {B : Type κ} (R : A → B → Type 0) (xs xs' : List A) (ys ys' : List B)
    → Pairs R xs ys
    → Pairs R xs' ys'
    → Pairs R (xs ++ xs') (ys ++ ys')
Pairs-append R [] xs' [] ys' h h' = h'
Pairs-append R [] xs' (y ∷ ys) ys' h h' = absurd h
Pairs-append R (x ∷ xs) xs' [] ys' h h' = absurd h
Pairs-append R (x ∷ xs) xs' (y ∷ ys) ys' h h' = (h.0, Pairs-append R xs xs' ys ys' h.1 h')

-- The group numbers stand for the groups.
abbrev pub Names : List Branch → List ℕ → List Group → Type 0
Names branches ids groups = tuple_groups branches ids ≡ ok groups

Names-map :
    (branch : Branch) (branches : List Branch) (id : ℕ) (group : Group)
    → filtered_group branch id ≡ ok group
    → (tuples : List (List ℕ)) (rows : List (List Group)) → Pairs (Names branches) tuples rows
    → Pairs (Names (branch ∷ branches)) (map (◌∷◌ id) tuples) (map (◌∷◌ group) rows)
unfolding tuple_groups
Names-map branch branches id group e [] [] h = tt
Names-map branch branches id group e [] (row ∷ rows) h = absurd h
Names-map branch branches id group e (tuple ∷ tuples) [] h = absurd h
Names-map branch branches id group e (tuple ∷ tuples) (row ∷ rows) h =
    (rw (e, h.0) refl, Names-map branch branches id group e tuples rows h.1)

get_elem?-append {ℓ} :
    {A : Type ℓ} (before : List A) (a : A) (after : List A)
    → get_elem? (before ++ a ∷ after) (length before) ≡ some a
get_elem?-append [] a after = refl
get_elem?-append (x ∷ before) a after = get_elem?-append before a after

module _ (branch : Branch) (branches : List Branch) (tuples : List (List ℕ))
    (rows : List (List Group)) (rest : Pairs (Names branches) tuples rows) where
  -- With `before` behind it, the branch's groups from there on.
  Names-from_heads :
      (before groups : List Group)
      → branch.gfilter_result ≡ some (record { filtered_groupset = before ++ groups })
      → Pairs
          (Names (branch ∷ branches))
          (from_heads (suc (length before)) (length groups) tuples)
          (for_each groups λ group. map (◌∷◌ group) rows)
  unfolding from_heads filtered_group
  Names-from_heads before [] e = tt
  Names-from_heads before (group ∷ groups) e =
      Pairs-append (Names (branch ∷ branches)) _ _ _ _
        (Names-map branch branches (suc (length before)) group (rw (e, index) found) tuples rows
          rest)
        (rw (← grown) (
          Names-from_heads (before ++ group ∷ []) groups
            (rw (append_assoc before (group ∷ []) groups) e)))
    where
      index : suc (length before) - 1 ≡ length before
      index = omega arith

      found : deref (get_elem? (before ++ group ∷ groups) (length before)) ≡ ok group
      found = rw (get_elem?-append before group groups) refl

      grown : suc (length (before ++ group ∷ [])) ≡ suc (length before) + 1
      grown = omega (arith, length-append before (group ∷ []))

-- The iterator's tuples stand for all choices, in the same order.
pub Names-cartesian :
    (branches : List Branch) (groupsets : List (List Group))
    → Filtered branches groupsets
    → Pairs (Names branches) (all_tuples (group_counts groupsets)) (cartesian groupsets)
unfolding all_tuples tuple_groups
Names-cartesian [] [] h = (refl, tt)
Names-cartesian [] (groups ∷ groupsets) h = absurd h
Names-cartesian (branch ∷ branches) [] h = absurd h
Names-cartesian (branch ∷ branches) (groups ∷ groupsets) h =
    Names-from_heads branch branches _ _ (Names-cartesian branches groupsets h.1) [] groups h.0

length-map-cons :
    (group : Group) (rows : List (List Group)) → length (map (◌∷◌ group) rows) ≡ length rows
length-map-cons group [] = refl
length-map-cons group (row ∷ rows) = ap suc (length-map-cons group rows)

length-for_each-map :
    (groups : List Group) (rows : List (List Group))
    → length (for_each groups λ group. map (◌∷◌ group) rows) ≡ length groups * length rows
length-for_each-map [] rows = omega arith
length-for_each-map (group ∷ groups) rows = omega (
  arith,
  length-append (map (◌∷◌ group) rows) (for_each groups λ group. map (◌∷◌ group) rows),
  length-map-cons group rows,
  length-for_each-map groups rows,
)

pub length-cartesian :
    (groupsets : List (List Group))
    → length (cartesian groupsets) ≡ product (group_counts groupsets)
length-cartesian [] = refl
length-cartesian (groups ∷ groupsets) =
    length-for_each-map groups (cartesian groupsets)
    ∙ ap (◌*◌ (length groups)) (length-cartesian groupsets)
