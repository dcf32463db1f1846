-- ===== src/Permut.antt =====
-- src/utils.c: the iterator over all tuples of filtered groups, one group of each branch, which
-- the merger uses in place of loops nested as deep as there are branches. Group numbers start at 1.
pub mod Odometer
pub mod Tuples
pub mod Walk
use nfql.Prelude.{
  ℕ, zero, suc, ◌+◌, ◌-◌, Bool, true, false, List, [], ◌∷◌, Option, none, some, ltb, ◌==◌,
  if◌then◌else◌, length, get_or, set, Outcome, ok, abort, null_pointer, ◌>>=◌,
}
use nfql.Pipeline.{Branch, GroupfilterResult}

-- struct permut_iter; `num_branches` is the length of both arrays.
pub record PermutIter : Type 0 where
  pub num_filtered_groups : List ℕ
  pub filtered_group_tuple : List ℕ

-- The loop of `iter_init`, on the branches that are left. A branch with no group ends it with NULL.
unfoldable pub init_tuple : List Branch → Outcome (Option PermutIter)
init_tuple [] = ok (some (record { num_filtered_groups = []; filtered_group_tuple = [] }))
init_tuple (branch ∷ branches) = elim branch.gfilter_result [
  | none ↦ abort null_pointer
  | some result ↦ if length result.filtered_groupset == 0 then ok none else do
    rest ← init_tuple branches
    elim rest [
      | none ↦ ok none
      | some iter ↦ ok (
          some (record {
            num_filtered_groups = length result.filtered_groupset ∷ iter.num_filtered_groups;
            filtered_group_tuple = 1 ∷ iter.filtered_group_tuple;
          }))
    ]
]

-- The last entry starts at 0, so that the first call of `iter_next` switches it to 1.
unfoldable pub iter_init : List Branch → Outcome (Option PermutIter)
unfolding init_tuple
iter_init branchset = do
  made ← init_tuple branchset
  elim made [
    | none ↦ ok none
    | some iter ↦ ok (
        some (record iter {
          filtered_group_tuple = set iter.filtered_group_tuple (length branchset - 1) 0;
        }))
  ]

-- The loop of `iter_next`, with `i` entries still to look at, from the right to the left.
unfoldable pub next_tuple : ℕ → List ℕ → List ℕ → Bool × List ℕ
next_tuple zero counts tuple = (false, tuple)
next_tuple (suc i) counts tuple =
    let wrapped = next_tuple i counts (set tuple i 1) in
    if ltb (get_or tuple i 0) (get_or counts i 0)
    then (true, set tuple i (get_or tuple i 0 + 1))
    else wrapped

unfoldable pub iter_next : PermutIter → Bool × PermutIter
unfolding next_tuple
iter_next iter =
    let (more, tuple) =
      next_tuple (length iter.num_filtered_groups) iter.num_filtered_groups
        iter.filtered_group_tuple in
    (more, record iter { filtered_group_tuple = tuple })
