-- ===== src/Merger/Contract.antt =====
-- The contract of `merger` of src/merger.c.
use native.Mathlib.Nat.{zero-add}
use nfql.Prelude.{
  suc, ◌%◌, ◌^◌, ◌≤◌, ◌<◌, ◌≡◌, refl, sym, ap, ◌∙◌, Bool, true, false, ◌&&◌, List, [], ◌∷◌, ◌++◌,
  map, arith, length, keep, for_each, ok, ◌⊎◌, inl, inr, if◌then◌else◌,
}
use nfql.Word.{Buffer}
use nfql.Pipeline.{Branch, Group, MergerClause, MergerResult}
use nfql.Output.{Options, written_if, merger_merged_groups, merger_to_be_merged_groups}
use nfql.Comps.Assign.{assign_merger_func}
use nfql.Permut.{PermutIter}
use nfql.Permut.Tuples.{all_tuples}
use nfql.Permut.Walk.{Filtered, NonEmpty, group_counts, IsIter, to_come, iter_init_lem}
use nfql.Merger.{merger_loop, merger, cooked_records, product}
use nfql.Merger.Holds.{AllReady}
use nfql.Merger.Product.{Names, length-Pairs, cartesian, Names-cartesian, length-cartesian}
use nfql.Merger.Result.{matches, merger_loop_lem, after_all_lem}

for_each-nil :
    (groups : List Group) (rows : List (List Group))
    → rows ≡ []
    → for_each groups (λ group. map (◌∷◌ group) rows) ≡ []
for_each-nil [] rows e = refl
for_each-nil (group ∷ groups) rows e = rw e (rw e at (for_each-nil groups rows e))

-- Without a group in some branch there is nothing to choose.
cartesian-nil : (groupsets : List (List Group)) → ¬ NonEmpty groupsets → cartesian groupsets ≡ []
cartesian-nil [] h = absurd (h tt)
cartesian-nil ([] ∷ groupsets) h = refl
cartesian-nil ((group ∷ groups) ∷ groupsets) h =
    for_each-nil (group ∷ groups) (cartesian groupsets)
      (cartesian-nil groupsets (λ some_groups. h (omega arith, some_groups)))

module _ (options : Options) (clauseset : List MergerClause) (branches : List Branch)
    (groupsets : List (List Group)) (one_branch : 1 ≤ length branches)
    (filtered : Filtered branches groupsets)
    (ready : AllReady (length branches) (map (map assign_merger_func) clauseset)) where
  -- The choices that the first clause matches.
  abbrev pub merged : List (List Group)
  merged =
      keep (matches options branches (map (map assign_merger_func) clauseset) ready)
        (cartesian groupsets)

  -- For at least one branch, each with its filtered groups, and terms whose functions are found:
  -- the merger returns. Its tuples are, in order, those of all choices of one group of each branch
  -- that the first clause matches (all of them if there is no clause), its total is the number of
  -- choices modulo 2^32, and it writes the cooked records of the matched tuples, and of all
  -- choices, to the two files that the options ask for; with a branch that has no group it opens
  -- no file.
  pub merger_lem :
      NonEmpty groupsets
        × (merger options clauseset branches
            ≡ ok (
              record {
                total_num_group_tuples = length (cartesian groupsets) % 2 ^ 32;
                group_tuples = merged;
              },
              written_if
                    (options.verbose_v && options.file)
                    merger_merged_groups
                    (cooked_records merged)
                  ++ written_if
                      (options.verbose_vv && options.file)
                      merger_to_be_merged_groups
                      (cooked_records (cartesian groupsets)),
            ))
      ⊎ (¬ NonEmpty groupsets)
        × (merged ≡ [])
        × (merger options clauseset branches
            ≡ ok (record { total_num_group_tuples = 0; group_tuples = [] }, []))
  unfolding merger
  merger_lem = elim (iter_init_lem branches groupsets one_branch filtered) [
    | inr (no_groups, run) ↦ inr (
      no_groups,
      ap (keep (matches options branches (map (map assign_merger_func) clauseset) ready))
          (cartesian-nil groupsets no_groups),
      rw run refl,
    )
    | inl (some_groups, (iter, run, counts, inv, coming)) ↦ inl (
      some_groups,
      rw (run, loop iter inv coming counts)
          (ap (λ files. ok (result, files)) (ap (◌++◌ _) (tobe_file _ _))),
    )
  ]
    where
      clauses : List MergerClause
      clauses = map (map assign_merger_func) clauseset

      result : MergerResult
      result = record {
        total_num_group_tuples = length (cartesian groupsets) % 2 ^ 32;
        group_tuples = merged;
      }

      enough :
          (iter : PermutIter)
          → iter.num_filtered_groups ≡ group_counts groupsets
          → length (all_tuples (group_counts groupsets)) < suc (product iter.num_filtered_groups)
      enough iter counts = rw counts (
          omega (
            arith,
            length-Pairs (Names branches) _ _ (Names-cartesian branches groupsets filtered),
            length-cartesian groupsets,
          ))

      loop :
          (iter : PermutIter)
          → IsIter iter
          → to_come iter ≡ all_tuples (group_counts groupsets)
          → iter.num_filtered_groups ≡ group_counts groupsets
          → merger_loop options branches clauses
              (suc (product iter.num_filtered_groups))
              iter
              (record { index = 0; group_tuples = []; to_be_merged = [] })
            ≡ ok (record {
              index = length (cartesian groupsets) % 2 ^ 32;
              group_tuples = merged;
              to_be_merged =
                  if options.verbose_vv && options.file
                  then cooked_records (cartesian groupsets)
                  else [];
            })
      loop iter inv coming counts =
          merger_loop_lem options branches clauses ready _ iter _ _ _ inv coming
            (Names-cartesian branches groupsets filtered) (enough iter counts)
          ∙ ap ok (
              after_all_lem options branches clauses ready (cartesian groupsets) _ (omega arith)
              ∙ rw (zero-add (length (cartesian groupsets))) refl)

      tobe_file :
          (on : Bool) (records : List Buffer)
          → written_if on merger_to_be_merged_groups (if on then records else [])
            ≡ written_if on merger_to_be_merged_groups records
      tobe_file true records = refl
      tobe_file false records = refl

-- Under the conditions of `merger_lem` the clauses behind the first one have no effect: the merger returns
-- the same result and writes the same files without them.
pub merger_first_clause :
    (options : Options) (clause : MergerClause) (clauses : List MergerClause)
    (branches : List Branch) (groupsets : List (List Group))
    → 1 ≤ length branches
    → Filtered branches groupsets
    → AllReady (length branches) (map (map assign_merger_func) (clause ∷ clauses))
    → merger options (clause ∷ clauses) branches ≡ merger options (clause ∷ []) branches
merger_first_clause options clause clauses branches groupsets one filtered ready =
    elim (merger_lem options (clause ∷ clauses) branches groupsets one filtered ready) [
      | inl (some_groups, run) ↦
          elim (merger_lem options (clause ∷ []) branches groupsets one filtered (ready.0, tt)) [
            | inl (_, run') ↦ run ∙ sym run'
            | inr (no_groups, _, _) ↦ absurd (no_groups some_groups)
          ]
      | inr (no_groups, _, run) ↦
          elim (merger_lem options (clause ∷ []) branches groupsets one filtered (ready.0, tt)) [
            | inl (some_groups, _) ↦ absurd (no_groups some_groups)
            | inr (_, _, run') ↦ run ∙ sym run'
          ]
    ]
