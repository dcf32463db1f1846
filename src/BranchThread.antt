-- ===== src/BranchThread.antt =====
-- src/branch.c: `branch_start`, the thread that takes one branch through the grouper and the group
-- filter. The clause sets that a stage is done with are freed.
pub mod Contract
pub mod Termination
use nfql.Prelude.{
  ◌≡◌, refl, ap, ◌∙◌, Bool, true, false, ◌&&◌, List, [], ◌∷◌, ◌++◌, Option, none, some, map, All,
  Outcome, ok, ◌>>=◌, if◌then◌else◌,
}
use nfql.Word.{Buffer}
use nfql.Io.{IoHandler}
use nfql.Libc.{Libc, IsLibc}
use nfql.Output.{Options, OutFile, written_if, groupfilter_branch_filtered_groups}
use nfql.Pipeline.{Branch, FilterResult, GrouperClause, GrouperResult, GroupfilterClause}
use nfql.Comps.{cooked}
use nfql.Comps.Assign.{assign_groupfilter_func}
use nfql.Grouper.{grouper}
use nfql.Grouper.Assigned.{IsTyped, with_functions}
use nfql.Grouper.Contract.{Grouped, grouped_branch}
use nfql.Groupfilter.{groupfilter}
use nfql.Groupfilter.Contract.{IsAssigned, kept_groups, groupfilter_lem}

-- The argument of `pthread_exit`.
pub data ExitStatus : Type 0 where
  exit_success exit_failure : ExitStatus

module _ (libc : Libc) (options : Options) where
  unfoldable pub run_grouper : IoHandler → Branch → Outcome (Branch × List OutFile)
  unfolding grouper
  run_grouper io branch =
      if options.grouper_enabled
      then (grouper libc options io branch >>= λ grouped. ok (
        record grouped.0 {
          grouper_clauseset = [];
          aggr_clause_termset =
              if options.groupaggregations_enabled then [] else grouped.0.aggr_clause_termset;
        },
        grouped.1,
      ))
      else ok (branch, [])

  unfoldable pub free_filter_rules : Branch → Branch
  free_filter_rules branch =
      if options.filter_enabled then record branch { filter_clauseset = [] } else branch

  unfoldable pub run_groupfilter : Branch → Outcome (Branch × List OutFile)
  unfolding groupfilter
  run_groupfilter branch =
      if options.groupfilter_enabled
      then (groupfilter options branch.groupfilter_clauseset branch.grouper_result branch.branch_id
          >>= λ filtered. ok (
            record branch { gfilter_result = some filtered.0; groupfilter_clauseset = [] },
            filtered.1,
          ))
      else ok (branch, [])

  -- The stages behind the test of the filter result.
  unfoldable pub run_stages : IoHandler → Branch → Outcome (ExitStatus × Branch × List OutFile)
  unfolding run_grouper free_filter_rules run_groupfilter
  run_stages io branch = do
    grouped ← run_grouper io branch
    filtered ← run_groupfilter (free_filter_rules grouped.0)
    ok (exit_success, filtered.0, grouped.1 ++ filtered.1)

  unfoldable pub branch_start : IoHandler → Branch → Outcome (ExitStatus × Branch × List OutFile)
  unfolding run_stages
  branch_start io branch = elim branch.filter_result [
    | none ↦ if options.filter_enabled then ok (exit_failure, branch, []) else run_stages io branch
    | some result ↦ run_stages io branch
  ]
