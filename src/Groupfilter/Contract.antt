-- ===== src/Groupfilter/Contract.antt =====
-- The contract of `groupfilter` of src/groupfilter.c.
use mathlib.Core.List.{append-nil, append_assoc}
use nfql.Prelude.{
  ℕ, ◌≡◌, refl, Bool, false, ◌&&◌, List, [], ◌∷◌, ◌++◌, none, some, map, arith, keep, All, All-map,
  ok,
}
use nfql.Dnf.{Answers, holds_dnf, scan_clauses_lem}
use nfql.Pipeline.{Group, GroupfilterFunc, GroupfilterTerm, GroupfilterClause, GrouperResult}
use nfql.Output.{Options, written_if, groupfilter_branch_filtered_groups}
use nfql.Comps.{cooked}
use nfql.Comps.Assign.{assign_groupfilter_func}
use nfql.Groupfilter.{groupfilter_test, filter_groups, groupfilter}

-- The dispatch has found the term's function.
pub record IsAssigned (term : GroupfilterTerm) : Type 0 where
  pub func : GroupfilterFunc
  pub assigned : term.func ≡ some func

-- The term's comparison on a group.
unfoldable pub groupfilter_holds : Group → GroupfilterTerm → Bool
groupfilter_holds group term = elim term.func [
  | none ↦ false
  | some func ↦ func group term.field term.value term.delta
]

groupfilter_test_lem :
    (group : Group) (term : GroupfilterTerm)
    → IsAssigned term
    → groupfilter_test group term ≡ ok (groupfilter_holds group term)
unfolding groupfilter_test groupfilter_holds
groupfilter_test_lem group term a = rw (a.assigned, groupfilter_holds) refl

groupfilter_test-All :
    (group : Group) (clauses : List GroupfilterClause)
    → All (All IsAssigned) clauses
    → All (Answers (groupfilter_test group) (groupfilter_holds group)) clauses
groupfilter_test-All group clauses h =
    All-map
      (λ clause a.
        All-map {Q = λ term. groupfilter_test group term ≡ ok (groupfilter_holds group term)}
          (groupfilter_test_lem group) clause a)
      clauses h

abbrev pub kept_groups : List GroupfilterClause → List Group → List Group
kept_groups clauses groups = keep (λ group. holds_dnf (groupfilter_holds group) clauses) groups

filter_groups_lem :
    (clauses : List GroupfilterClause) (groups filtered : List Group)
    → All (All IsAssigned) clauses
    → filter_groups clauses groups filtered ≡ ok (filtered ++ kept_groups clauses groups)
unfolding filter_groups
filter_groups_lem clauses [] filtered h = rw (append-nil filtered) refl
filter_groups_lem clauses (group ∷ groups) filtered h =
    rw
      (scan_clauses_lem (groupfilter_test group) (groupfilter_holds group) clauses
        (groupfilter_test-All group clauses h))
      (ground (
        arith,
        filter_groups_lem clauses groups (filtered ++ group ∷ []) h,
        filter_groups_lem clauses groups filtered h,
        append_assoc filtered (group ∷ []) (kept_groups clauses groups),
      ))

-- Where the dispatch finds the function of every term, the group filter returns, in their order,
-- exactly the groups of which some clause has only terms that hold (none if there is no clause),
-- and writes their cooked records to its file if the options ask for it.
pub groupfilter_lem :
    (options : Options) (clauseset : List GroupfilterClause) (gresult : GrouperResult)
    (branch_id : ℕ)
    → All (All IsAssigned) (map (map assign_groupfilter_func) clauseset)
    → groupfilter options clauseset (some gresult) branch_id
      ≡ ok (
        record {
          filtered_groupset =
              kept_groups (map (map assign_groupfilter_func) clauseset) gresult.groupset;
        },
        written_if
            (options.verbose_v && options.file)
            (groupfilter_branch_filtered_groups branch_id)
            (map cooked
              (kept_groups (map (map assign_groupfilter_func) clauseset) gresult.groupset)),
      )
unfolding groupfilter
groupfilter_lem options clauseset gresult branch_id h =
    rw (filter_groups_lem (map (map assign_groupfilter_func) clauseset) gresult.groupset [] h) refl
