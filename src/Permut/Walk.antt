-- ===== src/Permut/Walk.antt =====
-- The iterator of src/utils.c visits every tuple of filtered groups once, in order.
use nfql.Prelude.{
  ℕ, suc, ◌-◌, ◌≤◌, ◌≡◌, refl, ap, ◌∙◌, Bool, true, false, List, [], ◌∷◌, none, some, arith, length,
  ok, set, length-set, ◌⊎◌, inl, inr, ◌==◌, ==_iff, Bool-cases,
}
use nfql.Pipeline.{Branch, Group}
use nfql.Permut.{PermutIter, init_tuple, iter_init, iter_next}
use nfql.Permut.Odometer.{next_tuple-odometer}
use nfql.Permut.Tuples.{
  all_tuples, remaining, ones, AllPositive, odometer-Steps, length-odometer, remaining_start, Steps,
}

abbrev pub IsIter : PermutIter → Type 0
IsIter iter =
    AllPositive iter.num_filtered_groups
    × (length iter.filtered_group_tuple ≡ length iter.num_filtered_groups)

-- The tuples that the iterator has still to visit.
abbrev pub to_come : PermutIter → List (List ℕ)
to_come iter = remaining iter.num_filtered_groups iter.filtered_group_tuple

turn :
    (cs : List ℕ) (before : List (List ℕ)) (r : Bool × List ℕ)
    → Steps cs before r
    → (r.0 ≡ true) × (before ≡ r.1 ∷ remaining cs r.1) ⊎ (r.0 ≡ false) × (before ≡ [])
turn cs before (true, ts) s = inl (refl, s)
turn cs before (false, ts) s = inr (refl, s.0)

-- `iter_next` answers true exactly while a tuple is to come, and then holds the next one; the
-- counts stay, and the iterator stays well formed.
pub iter_next_lem :
    (iter : PermutIter)
    → IsIter iter
    → IsIter (iter_next iter).1
      × (((iter_next iter).0 ≡ true)
            × (to_come iter ≡ (iter_next iter).1.filtered_group_tuple ∷ to_come (iter_next iter).1)
          ⊎ ((iter_next iter).0 ≡ false) × (to_come iter ≡ []))
unfolding iter_next
iter_next_lem iter (pos, len) =
    let e = next_tuple-odometer iter.num_filtered_groups iter.filtered_group_tuple len in
    rw e (
      (pos, length-odometer iter.num_filtered_groups iter.filtered_group_tuple ∙ len),
      turn iter.num_filtered_groups (to_come iter) _
          (odometer-Steps iter.num_filtered_groups iter.filtered_group_tuple pos len),
    )

-- Each branch has come to its filtered groups.
abbrev pub Filtered : List Branch → List (List Group) → Type 0
Filtered [] [] = Unit
Filtered (branch ∷ branches) (groups ∷ groupsets) =
    (branch.gfilter_result ≡ some (record { filtered_groupset = groups }))
    × Filtered branches groupsets
Filtered [] (groups ∷ groupsets) = ⊥
Filtered (branch ∷ branches) [] = ⊥

-- The number of filtered groups of each branch.
abbrev pub group_counts : List (List Group) → List ℕ
group_counts [] = []
group_counts (groups ∷ groupsets) = length groups ∷ group_counts groupsets

-- No branch is without groups.
abbrev pub NonEmpty : List (List Group) → Type 0
NonEmpty groupsets = AllPositive (group_counts groupsets)

init_tuple_lem :
    (branches : List Branch) (groupsets : List (List Group))
    → Filtered branches groupsets
    → NonEmpty groupsets
        × (init_tuple branches
            ≡ ok (
                some (record {
                  num_filtered_groups = group_counts groupsets;
                  filtered_group_tuple = ones (group_counts groupsets);
                })))
      ⊎ (¬ NonEmpty groupsets) × (init_tuple branches ≡ ok none)
unfolding init_tuple ones
init_tuple_lem [] [] h = inl (tt, refl)
init_tuple_lem [] (groups ∷ groupsets) h = absurd h
init_tuple_lem (branch ∷ branches) [] h = absurd h
init_tuple_lem (branch ∷ branches) (groups ∷ groupsets) (here, there) =
    elim (Bool-cases (length groups == 0)) [
      | inl e ↦
          inr ((λ all. absurd (omega (arith, all.0, (==_iff (length groups) 0).0 e))), rw (here, e))
      | inr e ↦ elim (init_tuple_lem branches groupsets there) [
        | inl (some_groups, run) ↦ inl ((ground arith, some_groups), rw (here, e, run))
        | inr (no_groups, run) ↦ inr ((λ all. no_groups all.1), rw (here, e, run))
      ]
    ]

length-ones : (cs : List ℕ) → length (ones cs) ≡ length cs
unfolding ones
length-ones [] = refl
length-ones (c ∷ cs) = ap suc (length-ones cs)

length-Filtered :
    (branches : List Branch) (groupsets : List (List Group))
    → Filtered branches groupsets
    → length (group_counts groupsets) ≡ length branches
length-Filtered [] [] h = refl
length-Filtered [] (groups ∷ groupsets) h = absurd h
length-Filtered (branch ∷ branches) [] h = absurd h
length-Filtered (branch ∷ branches) (groups ∷ groupsets) h =
    ap suc (length-Filtered branches groupsets h.1)

-- `iter_init` gives NULL exactly if some branch has no filtered group. Otherwise it gives a well
-- formed iterator to which all the tuples of group numbers are still to come.
pub iter_init_lem :
    (branches : List Branch) (groupsets : List (List Group))
    → 1 ≤ length branches
    → Filtered branches groupsets
    → NonEmpty groupsets
        × ((iter : PermutIter) × (iter_init branches ≡ ok (some iter))
            × (iter.num_filtered_groups ≡ group_counts groupsets)
            × IsIter iter
            × (to_come iter ≡ all_tuples (group_counts groupsets)))
      ⊎ (¬ NonEmpty groupsets) × (iter_init branches ≡ ok none)
unfolding iter_init
iter_init_lem branches groupsets h f = elim (init_tuple_lem branches groupsets f) [
  | inl (some_groups, run) ↦ inl (
    some_groups,
    (
      record {
        num_filtered_groups = counts;
        filtered_group_tuple = set (ones counts) (length branches - 1) 0;
      },
      rw run,
      refl,
      (some_groups, length-set (ones counts) (length branches - 1) 0 ∙ length-ones counts),
      rw (← same) (remaining_start counts some_groups (omega (arith, same))),
    ),
  )
  | inr (no_groups, run) ↦ inr (no_groups, rw run)
]
  where
    counts : List ℕ
    counts = group_counts groupsets

    same : length counts ≡ length branches
    same = length-Filtered branches groupsets f
