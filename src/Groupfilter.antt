-- ===== src/Groupfilter.antt =====
-- src/groupfilter.c: `groupfilter` keeps the groups of a branch that its clauses hold of.
pub mod Contract
use nfql.Prelude.{
  ℕ, Bool, ◌&&◌, List, [], ◌∷◌, ◌++◌, Option, none, some, map, if◌then◌else◌, Outcome, ok, abort,
  null_pointer, ◌>>=◌,
}
use nfql.Dnf.{call, scan_clauses}
use nfql.Pipeline.{Group, GroupfilterTerm, GroupfilterClause, GrouperResult, GroupfilterResult}
use nfql.Output.{Options, OutFile, written_if, groupfilter_branch_filtered_groups}
use nfql.Comps.{cooked}
use nfql.Comps.Assign.{assign_groupfilter_func}

-- One term on a group.
unfoldable pub groupfilter_test : Group → GroupfilterTerm → Outcome Bool
groupfilter_test group term = call term.func (λ func. func group term.field term.value term.delta)

-- The loop over the groups, with the groups that are kept so far.
unfoldable pub filter_groups :
    List GroupfilterClause → List Group → List Group → Outcome (List Group)
unfolding groupfilter_test scan_clauses
filter_groups clauseset [] filtered = ok filtered
filter_groups clauseset (group ∷ groups) filtered = do
  satisfied ← scan_clauses (groupfilter_test group) clauseset
  filter_groups clauseset groups (if satisfied then filtered ++ group ∷ [] else filtered)

-- The filtered groups, and the file of their cooked records. A NULL grouper result is read.
unfoldable pub groupfilter :
    Options
    → List GroupfilterClause
    → Option GrouperResult
    → ℕ
    → Outcome (GroupfilterResult × List OutFile)
unfolding filter_groups assign_groupfilter_func
groupfilter options clauseset none branch_id = abort null_pointer
groupfilter options clauseset (some gresult) branch_id = do
  groups ← filter_groups (map (map assign_groupfilter_func) clauseset) gresult.groupset []
  ok (
    record { filtered_groupset = groups },
    written_if (options.verbose_v && options.file) (groupfilter_branch_filtered_groups branch_id)
        (map cooked groups),
  )
