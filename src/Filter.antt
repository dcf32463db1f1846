-- ===== src/Filter.antt =====
-- src/f.c, `read_trace`: the filter stage, which runs while the trace is read.
pub mod Contract
use nfql.Prelude.{
  ℕ, Bool, true, false, ◌&&◌, List, [], ◌∷◌, ◌++◌, Option, none, some, map, if◌then◌else◌, take,
  Outcome, ok, abort, null_pointer, ◌>>=◌,
}
use nfql.Word.{Buffer}
use nfql.Dnf.{call, scan_clauses}
use nfql.Pipeline.{Branch, FilterTerm, FilterResult}
use nfql.Output.{Options, OutFile, written_if, filter_branch_filtered_records}
use nfql.Comps.Assign.{assign_filter_func}

-- One term on a record.
unfoldable pub filter_test : Buffer → FilterTerm → Outcome Bool
filter_test rec term = call term.func (λ func. func rec term.field_offset term.value term.delta)

-- if (filter_enabled): a branch gets an empty result and the functions of its filter terms.
unfoldable pub prepare_branch : Options → Branch → Branch
unfolding assign_filter_func
prepare_branch options branch =
    if options.filter_enabled
    then record branch {
      filter_clauseset = map (map assign_filter_func) branch.filter_clauseset;
      filter_result = some (record { filtered_recordset = [] });
    }
    else branch

-- if (verbose_v && file): each branch's file is opened with the count of its filter result, which
-- is read through a pointer.
unfoldable pub open_files : Options → List Branch → Outcome (Unit {0})
open_files options [] = ok tt
open_files options (branch ∷ branches) =
    if options.verbose_v && options.file
    then elim branch.filter_result [
      | none ↦ abort null_pointer
      | some result ↦ open_files options branches
    ]
    else ok tt

-- The saved copy of a record and the trace data that it stands in.
pub record Saved : Type 0 where
  pub first_time : Bool
  pub target : Buffer
  pub recordset : List Buffer

-- The first branch that wants the record makes the copy for all of them.
unfoldable pub save_record : ℕ → Buffer → Saved → Saved
save_record record_size rec saved =
    if saved.first_time
    then record {
      first_time = false;
      target = take record_size rec;
      recordset = saved.recordset ++ take record_size rec ∷ [];
    }
    else saved

-- A branch that wants the record refers to the copy; its file gets the record itself.
unfoldable pub add_record : Options → Buffer → Buffer → Branch → Outcome Branch
add_record options rec target branch = elim branch.filter_result [
  | none ↦ abort null_pointer
  | some result ↦ ok (record branch {
    filter_result = some (record { filtered_recordset = result.filtered_recordset ++ target ∷ [] });
    write_ctxt = branch.write_ctxt ++ (if options.verbose_v && options.file then rec ∷ [] else []);
  })
]

module _ (options : Options) (record_size : ℕ) (rec : Buffer) where
  -- The body of the loop over the branches.
  unfoldable pub offer_record : Saved → Branch → Outcome (Saved × Branch)
  unfolding filter_test scan_clauses save_record add_record
  offer_record saved branch = do
    satisfied ← scan_clauses (filter_test rec) branch.filter_clauseset
    let saved' = save_record record_size rec saved
    if satisfied
        then (add_record options rec saved'.target branch >>= λ branch'. ok (saved', branch'))
        else ok (saved, branch)

  unfoldable pub offer_branches : Saved → List Branch → Outcome (Saved × List Branch)
  unfolding offer_record
  offer_branches saved [] = ok (saved, [])
  offer_branches saved (branch ∷ branches) = do
    one ← offer_record saved branch
    rest ← offer_branches one.0 branches
    ok (rest.0, one.1 ∷ rest.1)

-- The loop over the records of the trace, with the trace data (`io_data`) saved so far.
unfoldable pub read_records :
    Options → ℕ → List Buffer → List Buffer → List Branch → Outcome (List Buffer × List Branch)
unfolding offer_branches
read_records options record_size [] recordset branches = ok (recordset, branches)
read_records options record_size (rec ∷ trace) recordset branches = do
  offered ←
      offer_branches options record_size rec
        (record { first_time = true; target = []; recordset = recordset }) branches
  read_records options record_size trace (offered.0.recordset) (offered.1)

-- The file of a branch's filtered records.
abbrev pub branch_files : Options → List Branch → List OutFile
branch_files options [] = []
branch_files options (branch ∷ branches) =
    written_if (options.verbose_v && options.file) (filter_branch_filtered_records branch.branch_id)
      branch.write_ctxt
    ++ branch_files options branches

-- The trace data, the branches with their filter results, and the files. The NULL behind the last
-- filtered record is the end of the list.
unfoldable pub read_trace :
    Options → ℕ → List Buffer → List Branch → Outcome (List Buffer × List Branch × List OutFile)
unfolding prepare_branch open_files read_records
read_trace options record_size trace branchset = do
  let branches = map (prepare_branch options) branchset
  _ ← open_files options branches
  outcome ← read_records options record_size trace [] branches
  ok (outcome.0, outcome.1, branch_files options outcome.1)
