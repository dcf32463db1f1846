-- ===== src/Engine.antt =====
-- src/f.c: `main`, which composes the stages: it reads the query, prepares it, filters the trace,
-- runs the branches in threads and joins them, and merges and ungroups what they have found. What
-- it prints and frees is not modelled.
pub mod Threaded
pub mod Started
use nfql.Prelude.{
  Bool, List, [], ◌∷◌, ◌++◌, Option, none, some, Outcome, ok, abort, err_exit, ◌>>=◌, length,
  if◌then◌else◌,
}
use nfql.Word.{Buffer}
use nfql.Io.{IoHandler}
use nfql.Libc.{Libc}
use nfql.JsonC.{JsonC}
use nfql.Output.{Options, OutFile}
use nfql.Pipeline.{Branch, Flowquery, MergerResult, UngrouperResult}
use nfql.Ipfix.{IpfixTempl, empty_templ, ipfix_templ_new}
use nfql.Parse.{parse_json_query}
use nfql.Prepare.{prepare_flowquery}
use nfql.Filter.{read_trace}
use nfql.BranchThread.{ExitStatus, exit_success, exit_failure, branch_start}
use nfql.Merger.{merger}
use nfql.Ungrouper.{ungrouper}

-- `exitOn(... == NULL)`
abbrev pub exit_on_null {ℓ} : {A : Type ℓ} → Option A → Outcome A
exit_on_null none = abort err_exit
exit_on_null (some a) = ok a

-- `res != EXIT_SUCCESS`
abbrev pub exit_on_failure : ExitStatus → Outcome {0} Unit
exit_on_failure exit_success = ok tt
exit_on_failure exit_failure = abort err_exit

-- The template that the query's fields are registered in; NULL, which nothing reads, if the trace is
-- not in IPFIX format.
unfoldable pub make_templ : Bool → Outcome IpfixTempl
make_templ ipfix_enabled =
    if ipfix_enabled then (ipfix_templ_new >>= λ templ. exit_on_null templ) else ok empty_templ

unfoldable pub run_merger : Options → Flowquery → Outcome (Option MergerResult × List OutFile)
run_merger options fquery =
    if options.merger_enabled
    then (merger options fquery.merger_clauseset fquery.branchset >>= λ merged.
        ok (some merged.0, merged.1))
    else ok (none, [])

unfoldable pub run_ungrouper :
    Options → Flowquery → Option MergerResult → Outcome (Option UngrouperResult × List OutFile)
run_ungrouper options fquery merger_result =
    if options.ungrouper_enabled
    then (ungrouper options (length fquery.branchset) merger_result >>= λ ungrouped.
        ok (some ungrouped.0, ungrouped.1))
    else ok (none, [])

-- The stages behind the threads.
unfoldable pub finish_query : Options → Flowquery → Outcome (Flowquery × List OutFile)
finish_query options fquery = do
  merged ← run_merger options fquery
  ungrouped ← run_ungrouper options fquery merged.0
  ok (
    record fquery {
      merger_clauseset = if options.merger_enabled then [] else fquery.merger_clauseset;
      merger_result = merged.0;
      ungrouper_result = ungrouped.0;
    },
    merged.1 ++ ungrouped.1,
  )

-- The branches, each run by its thread to its end and joined in order.
unfoldable pub join_branches :
    Libc → Options → IoHandler → List Branch → Outcome (List Branch × List OutFile)
join_branches libc options io [] = ok ([], [])
join_branches libc options io (branch ∷ branches) = do
  one ← branch_start libc options io branch
  _ ← exit_on_failure one.0
  rest ← join_branches libc options io branches
  ok (one.1 ∷ rest.0, one.2 ++ rest.1)

-- The handler of the trace's format is what `ipfix_io_handler` or `ft_io_handler` makes.
module _ (libc : Libc) {J : Type 0} (c : JsonC J) (make_io : Bool → IpfixTempl → IoHandler) where
  -- The stages before the threads: the options with the query's stages on, the handler, the flow
  -- query with its filtered branches, and the files.
  unfoldable pub start_query :
      Bool
      → Options
      → Option J
      → List Buffer
      → Outcome (Options × IoHandler × Flowquery × List OutFile)
  start_query ipfix_enabled options query trace = do
    templ ← make_templ ipfix_enabled
    read ← parse_json_query c ipfix_enabled options templ query
    let io = make_io ipfix_enabled (read.1)
    fquery ← prepare_flowquery io (read.0) (read.2)
    filtered ← read_trace (read.0) io.io_read_get_record_size trace fquery.branchset
    ok (read.0, io, record fquery { branchset = filtered.1 }, filtered.2)

  unfoldable pub run_query :
      Bool → Options → Option J → List Buffer → Outcome (Flowquery × List OutFile)
  run_query ipfix_enabled options query trace = do
    started ← start_query ipfix_enabled options query trace
    joined ← join_branches libc (started.0) (started.1) started.2.branchset
    done ← finish_query (started.0) (record started.2 { branchset = joined.0 })
    ok (done.0, started.3 ++ joined.1 ++ done.1)
