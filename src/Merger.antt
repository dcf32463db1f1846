-- ===== src/Merger.antt =====
-- src/merger.c: `merger` walks all tuples of filtered groups, one of each branch, and keeps those
-- that its clauses match.
pub mod Terms
pub mod Product
pub mod Holds
pub mod Result
pub mod Contract
use nfql.Prelude.{
  deref, ℕ, zero, suc, ◌+◌, ◌-◌, ◌*◌, ◌%◌, ◌^◌, Bool, true, false, ◌&&◌, List, [], ◌∷◌, ◌++◌,
  Option, none, some, if◌then◌else◌, get_elem?, get_or, map, Outcome, ok, abort, null_pointer,
  out_of_fuel, ◌>>=◌,
}
use nfql.Dnf.{call}
use nfql.Word.{Buffer}
use nfql.Pipeline.{Group, Branch, MergerTerm, MergerClause, MergerResult}
use nfql.Output.{Options, OutFile, written_if, merger_merged_groups, merger_to_be_merged_groups}
use nfql.Comps.{cooked}
use nfql.Comps.Assign.{assign_merger_func}
use nfql.Permut.{PermutIter, iter_init, iter_next}

-- branch->gfilter_result->filtered_groupset[group_id - 1]
unfoldable pub filtered_group : Branch → ℕ → Outcome Group
filtered_group branch group_id = do
  result ← deref branch.gfilter_result
  deref (get_elem? result.filtered_groupset (group_id - 1))

-- The groups that a tuple of group numbers stands for, one of each branch.
unfoldable pub tuple_groups : List Branch → List ℕ → Outcome (List Group)
unfolding filtered_group
tuple_groups [] ids = ok []
tuple_groups (branch ∷ branches) [] = abort null_pointer
tuple_groups (branch ∷ branches) (id ∷ ids) = do
  group ← filtered_group branch id
  groups ← tuple_groups branches ids
  ok (group ∷ groups)

-- One term on a tuple. The delta passed is 0.
unfoldable pub merger_test : List Branch → List ℕ → MergerTerm → Outcome Bool
unfolding filtered_group
merger_test branchset ids term = do
  branch1 ← deref (get_elem? branchset term.branch1)
  branch2 ← deref (get_elem? branchset term.branch2)
  id1 ← deref (get_elem? ids term.branch1)
  id2 ← deref (get_elem? ids term.branch2)
  group1 ← filtered_group branch1 id1
  group2 ← filtered_group branch2 id2
  call term.func (λ func. func group1 term.field1 group2 term.field2 0)

module _ {ℓ} {T : Type ℓ} (test : T → Outcome Bool) where
  -- The loop over a clause's terms; the flag is set to false by a term that fails, and left alone
  -- otherwise.
  unfoldable pub match_terms : Bool → List T → Outcome Bool
  match_terms clause [] = ok clause
  match_terms clause (term ∷ terms) = do
    holds ← test term
    if holds then match_terms clause terms else ok false

  -- The loop over the clauses: it goes on while the flag is false.
  unfoldable pub match_clauses : Bool → List (List T) → Outcome Bool
  unfolding match_terms
  match_clauses clause [] = ok clause
  match_clauses clause (mclause ∷ mclauses) = do
    clause' ← match_terms clause mclause
    if clause' then ok true else match_clauses clause' mclauses

-- What the loop over the tuples has gathered, and what it has written to the file of the tuples
-- to be merged.
pub record MergerState : Type 0 where
  pub index : ℕ
  pub group_tuples : List (List Group)
  pub to_be_merged : List Buffer

module _ (options : Options) (branchset : List Branch) (clauseset : List MergerClause) where
  -- if (verbose_vv && file), each tuple is written before it is tested.
  unfoldable pub write_tuple : List ℕ → List Buffer → Outcome (List Buffer)
  unfolding tuple_groups
  write_tuple ids written =
      if options.verbose_vv && options.file
      then (tuple_groups branchset ids >>= λ groups. ok (written ++ map cooked groups))
      else ok written

  -- A matched tuple is added to the result.
  unfoldable pub add_tuple : Bool → List ℕ → List (List Group) → Outcome (List (List Group))
  unfolding tuple_groups
  add_tuple clause ids tuples =
      if clause
      then (tuple_groups branchset ids >>= λ matched_tuple. ok (tuples ++ matched_tuple ∷ []))
      else ok tuples

  -- The body of the loop, at one tuple. `index` is an unsigned int.
  unfoldable pub visit_tuple : List ℕ → MergerState → Outcome MergerState
  unfolding write_tuple add_tuple merger_test match_clauses
  visit_tuple ids state = do
    to_be_merged ← write_tuple ids state.to_be_merged
    clause ← match_clauses (merger_test branchset ids) true clauseset
    group_tuples ← add_tuple clause ids state.group_tuples
    ok (record {
      index = (state.index + 1) % 2 ^ 32;
      group_tuples = group_tuples;
      to_be_merged = to_be_merged;
    })

  -- `while (iter_next(iter))`, on fuel.
  unfoldable pub merger_loop : ℕ → PermutIter → MergerState → Outcome MergerState
  unfolding visit_tuple iter_next
  merger_loop zero iter state = abort out_of_fuel
  merger_loop (suc fuel) iter state =
      let (more, iter') = iter_next iter in
      let rest =
        visit_tuple iter'.filtered_group_tuple state >>= λ state'. merger_loop fuel iter' state' in
      if more then rest else ok state

-- One more round than there are tuples.
abbrev pub product : List ℕ → ℕ
product [] = 1
product (n ∷ ns) = n * product ns

-- The cooked records of the groups of a tuple, in a file.
abbrev pub cooked_records : List (List Group) → List Buffer
cooked_records [] = []
cooked_records (groups ∷ tuples) = map cooked groups ++ cooked_records tuples

unfoldable pub merger :
    Options → List MergerClause → List Branch → Outcome (MergerResult × List OutFile)
unfolding assign_merger_func iter_init
merger options clauseset branchset = do
  made ← iter_init branchset
  elim made [
    | none ↦ ok (record { total_num_group_tuples = 0; group_tuples = [] }, [])
    | some iter ↦ do
      let clauses = map (map assign_merger_func) clauseset
      state ←
          merger_loop options branchset clauses (suc (product iter.num_filtered_groups)) iter
            (record { index = 0; group_tuples = []; to_be_merged = [] })
      ok (
        record { total_num_group_tuples = state.index; group_tuples = state.group_tuples },
        written_if (options.verbose_v && options.file) merger_merged_groups
              (cooked_records state.group_tuples)
            ++ written_if (options.verbose_vv && options.file) merger_to_be_merged_groups
                state.to_be_merged,
      )
  ]
