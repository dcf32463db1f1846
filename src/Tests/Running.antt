-- ===== src/Tests/Running.antt =====
-- The theorem on the whole run, at a query that keeps every record of a trace.
use mathlib.Core.List.{Perm}
use nfql.Prelude.{◌≡◌, refl, Bool, true, false, [], ◌∷◌, ◌++◌, none, some, ok, ◌>>=◌}
use nfql.Io.{IoHandler}
use nfql.Ipfix.{IpfixTempl}
use nfql.Output.{Options, OutFile}
use nfql.Pipeline.{Branch, Flowquery}
use nfql.Query.{Json}
use nfql.Query.Loops.{parse_array}
use nfql.Parse.{
  parse_branch, parse_json_query, parse_filter, parse_grouper, parse_aggr, parse_groupfilter,
  parse_merger,
}
use nfql.Parse.Encode.{encode_query}
use nfql.Prepare.{prepare_flowquery}
use nfql.Filter.{read_trace}
use nfql.BranchThread.{exit_success, run_grouper, free_filter_rules, run_groupfilter}
use nfql.Threads.{exited, Thread, System, advance, Moves, create, move, join, Reach, start, later}
use nfql.Engine.{make_templ, start_query, run_query, finish_query}
use nfql.Engine.Threaded.{run_query-threaded}
use nfql.Tests.Sorting.{sorting_libc}
use nfql.Tests.Trees.{trees}
use nfql.Tests.Samples.{byte_io, trace}

abbrev quiet : Options
quiet = record {
  verbose_v = false;
  verbose_vv = false;
  file = false;
  filter_enabled = false;
  grouper_enabled = false;
  groupaggregations_enabled = false;
  groupfilter_enabled = false;
  merger_enabled = false;
  ungrouper_enabled = false;
}

abbrev filter_and_ungrouper : Options
filter_and_ungrouper = record quiet { filter_enabled = true; ungrouper_enabled = true }

abbrev keep_all : Json
keep_all = record {
  branchset =
      record {
        filter_clauseset = [] ∷ [];
        grouper_clauseset = [];
        aggr_clause_termset = [];
        groupfilter_clauseset = [];
      }
      ∷ [];
  merger_clauseset = [];
}

abbrev byte_handler : Bool → IpfixTempl → IoHandler
byte_handler ipfix_enabled templ = byte_io

abbrev kept_branch : Branch
kept_branch = record {
  branch_id = 0;
  filter_clauseset = [] ∷ [];
  grouper_clauseset = [];
  aggr_clause_termset = [];
  groupfilter_clauseset = [];
  write_ctxt = [];
  filter_result = some (record { filtered_recordset = trace });
  grouper_result = none;
  gfilter_result = none;
}

abbrev started_query : Flowquery
started_query = record {
  branchset = kept_branch ∷ [];
  merger_clauseset = [];
  merger_result = none;
  ungrouper_result = none;
}

started :
    start_query sorting_libc trees byte_handler false quiet
      (some (encode_query trees filter_and_ungrouper keep_all))
      trace
    ≡ ok (filter_and_ungrouper, byte_io, started_query, [])
unfolding start_query make_templ parse_json_query parse_branch parse_array parse_filter
    parse_grouper parse_aggr parse_groupfilter parse_merger prepare_flowquery read_trace
started = refl

abbrev joined_thread : Thread
joined_thread = record {
  phase = exited exit_success;
  branch = record kept_branch { filter_clauseset = [] };
  written = [];
}

abbrev finished : System
finished = record { pending = []; live = []; joined = joined_thread ∷ []; log = [] }

finished-Reach : Reach sorting_libc filter_and_ungrouper byte_io (kept_branch ∷ []) finished
unfolding advance run_grouper free_filter_rules run_groupfilter
finished-Reach =
    let r1 = later start (create kept_branch [] [] [] []) in
    let r2 = later r1 (move [] [] [] (Moves.here [] refl)) in
    let r3 = later r2 (move [] [] [] (Moves.here [] refl)) in
    let r4 = later r3 (move [] [] [] (Moves.here [] refl)) in
    let r5 = later r4 (move [] [] [] (Moves.here [] refl)) in
    later r5 (join joined_thread.branch [] [] [] [])

run_query-threaded_example :
    (run_query sorting_libc trees byte_handler false quiet
        (some (encode_query trees filter_and_ungrouper keep_all))
        trace
      ≡ (finish_query filter_and_ungrouper
            (record started_query { branchset = joined_thread.branch ∷ [] })
          >>= λ done. ok (done.0, [] ++ [] ++ done.1)))
    × Perm {A = OutFile} [] []
run_query-threaded_example =
    run_query-threaded sorting_libc trees byte_handler false quiet filter_and_ungrouper
      (some (encode_query trees filter_and_ungrouper keep_all)) trace byte_io started_query []
      finished started finished-Reach (record { no_pending = refl; no_live = refl })
