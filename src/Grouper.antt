-- ===== src/Grouper.antt =====
-- src/grouper.c: `grouper` sorts the filtered records of a branch and makes groups of neighbours.
pub mod Sort
pub mod Cook
pub mod Growth
pub mod Contract
pub mod Ends
pub mod Termination
pub mod Assigned
pub mod Keys
pub mod Partition
pub mod Span
pub mod Finish
use nfql.Prelude.{
  ℕ, zero, suc, Bool, true, false, ◌&&◌, List, [], ◌∷◌, ◌++◌, Option, none, some, map, ltb,
  if◌then◌else◌, length, replicate, Outcome, ok, abort, err_exit, null_pointer, out_of_fuel, ◌>>=◌,
  map_outcome, deref,
}
use nfql.Word.{Buffer, Width}
use nfql.Libc.{Libc}
use nfql.Io.{IoHandler}
use nfql.Dnf.{call, scan_terms}
use nfql.Pipeline.{
  Branch, AggrRecord, AggrResult, Group, FilterTerm, FilterResult, GrouperTerm, GrouperClause,
  GrouperResult,
}
use nfql.Output.{Options, OutFile, written_if, grouper_branch_groups, grouper_branch_group_records}
use nfql.Comps.{cooked}
use nfql.Comps.Assign.{assign_grouper_func}
use nfql.Comps.AssignAggr.{assign_aggr_func, get_aggr_fptr, get_gtype}
use nfql.Grouper.Sort.{get_grouper_intermediates}
use nfql.Grouper.Cook.{finish_group}

-- One term on the group so far and the next record.
unfoldable pub grouper_test : Group → Buffer → GrouperTerm → Outcome Bool
grouper_test group item term =
    call term.func (λ func. func group term.field_offset1 item term.field_offset2 term.delta)

module _ (io : IoHandler) where
  -- A group of one record. It refers to its result from the start here, which C lets it do behind
  -- the loop over its members; no grouper function reads it.
  unfoldable pub new_group : ℕ → Buffer → Group
  new_group rec_size item = record {
    members = item ∷ [];
    aggr_result = record {
      aggr_record = record {
        aggr_record = replicate rec_size 0;
        start_ts_msec = io.io_record_get_StartTS item;
        end_ts_msec = io.io_record_get_EndTS item;
      };
      aggrset = [];
    };
  }

  -- A further member, and the time span with it.
  unfoldable pub add_member : Group → Buffer → Group
  add_member group item =
      let start = io.io_record_get_StartTS item in
      let end = io.io_record_get_EndTS item in
      let span = group.aggr_result.aggr_record in
      record {
        members = group.members ++ item ∷ [];
        aggr_result = record {
          aggr_record = record {
            aggr_record = span.aggr_record;
            start_ts_msec = if ltb start span.start_ts_msec then start else span.start_ts_msec;
            end_ts_msec = if ltb span.end_ts_msec end then end else span.end_ts_msec;
          };
          aggrset = group.aggr_result.aggrset;
        };
      }

  unfoldable pub add_members : Group → List Buffer → Group
  unfolding add_member
  add_members group [] = group
  add_members group (item ∷ items) = add_members (add_member group item) items

  -- `while (current_item != last_item)`: the group, what was written to its file, and the records
  -- behind it.
  unfoldable pub grow_group :
      GrouperClause
      → Group
      → List Buffer
      → List Buffer
      → Outcome (Group × List Buffer × List Buffer)
  unfolding grouper_test scan_terms add_member
  grow_group gclause group written [] = ok (group, written, [])
  grow_group gclause group written (item ∷ items) = do
    k ← scan_terms (grouper_test group item) 0 gclause
    let longer = grow_group gclause (add_member group item) (written ++ item ∷ []) items
    if ltb k (length gclause) then ok (group, written, item ∷ items) else longer

-- `gresult->groupset`, and the files of the groups' members.
pub record Grouping : Type 0 where
  pub groupset : List Group
  pub files : List OutFile

module _ (io : IoHandler) (options : Options) (branch : Branch) where
  -- The groups of the sorted records, added to those of the earlier clauses.
  unfoldable pub group_records : ℕ → GrouperClause → List Buffer → Grouping → Outcome Grouping
  unfolding new_group grow_group finish_group
  group_records zero gclause items grouping = abort out_of_fuel
  group_records (suc fuel) gclause [] grouping = ok grouping
  group_records (suc fuel) gclause (item ∷ items) grouping = do
    grown ← grow_group io gclause (new_group io io.io_read_get_record_size item) [] items
    group ← finish_group options branch grown.0
    group_records fuel gclause grown.2 (record {
      groupset = grouping.groupset ++ group ∷ [];
      files =
          grouping.files
          ++ written_if (options.verbose_vv && options.file)
              (grouper_branch_group_records branch.branch_id (length grouping.groupset)) grown.1;
    })

  -- The loop over the clauses. Each sorts the records in place, as the one before left them.
  unfoldable pub group_clauses :
      Libc
      → List GrouperClause
      → List Buffer
      → List Buffer
      → Grouping
      → Outcome (List Buffer × List Buffer × Grouping)
  unfolding get_grouper_intermediates group_records get_gtype
  group_clauses libc [] records sorted grouping = ok (records, sorted, grouping)
  group_clauses libc (gclause ∷ gclauses) records sorted grouping = do
    let gtypeset = map (λ (term : GrouperTerm). get_gtype term.op.field2_type) gclause
    made ← get_grouper_intermediates libc options gclause gtypeset records sorted branch.branch_id
    done ←
        group_records (suc (length made.0)) gclause made.0
          (record { groupset = grouping.groupset; files = grouping.files ++ made.2 })
    group_clauses libc gclauses made.0 made.1 done

  -- All records in one group, when the branch has no grouper clause. Nothing is written to the
  -- file of its members.
  unfoldable pub group_all : List Buffer → Outcome Grouping
  unfolding new_group add_members finish_group
  group_all [] = abort null_pointer
  group_all (item ∷ items) = do
    group ←
        finish_group options branch
          (add_members io (new_group io io.io_read_get_record_size item) items)
    ok (record {
      groupset = group ∷ [];
      files =
          written_if (options.verbose_vv && options.file)
            (grouper_branch_group_records branch.branch_id 0) [];
    })

-- The records as they are left, the sorted records, and the groups.
unfoldable pub make_groups :
    Libc
    → IoHandler
    → Options
    → Branch
    → List GrouperClause
    → List Buffer
    → Outcome (List Buffer × List Buffer × Grouping)
unfolding group_all group_clauses
make_groups libc io options branch [] records = do
  grouping ← group_all io options branch records
  ok (records, [], grouping)
make_groups libc io options branch (gclause ∷ gclauses) records =
    group_clauses io options branch libc (gclause ∷ gclauses) records []
      (record { groupset = []; files = [] })

module _ (libc : Libc) (options : Options) where
  -- A NULL function of a field's type aborts.
  unfoldable pub assign_filter_aggr : FilterTerm → Outcome FilterTerm
  unfolding get_aggr_fptr
  assign_filter_aggr term = elim (get_aggr_fptr libc term.op.field_type) [
    | none ↦ abort err_exit
    | some function ↦ ok (record term { aggr_function = some function })
  ]

  unfoldable pub assign_grouper_aggr : GrouperTerm → Outcome GrouperTerm
  unfolding get_aggr_fptr
  assign_grouper_aggr term = elim (get_aggr_fptr libc term.op.field1_type) [
    | none ↦ abort err_exit
    | some function ↦ ok (record term { aggr_function = some function })
  ]

  -- The branch with its functions assigned.
  unfoldable pub assign_functions : Branch → Outcome Branch
  unfolding assign_aggr_func assign_filter_aggr assign_grouper_aggr assign_grouper_func
  assign_functions branch = do
    filter_clauses ← map_outcome (map_outcome assign_filter_aggr) branch.filter_clauseset
    grouper_clauses ← map_outcome (map_outcome assign_grouper_aggr) branch.grouper_clauseset
    ok (record branch {
      filter_clauseset = filter_clauses;
      grouper_clauseset = map (map assign_grouper_func) grouper_clauses;
      aggr_clause_termset =
          if options.groupaggregations_enabled
          then map (assign_aggr_func libc) branch.aggr_clause_termset
          else branch.aggr_clause_termset;
    })

  -- The branch with its grouper result, and its filter result sorted; and the files.
  unfoldable pub group_filtered : IoHandler → Branch → List Buffer → Outcome (Branch × List OutFile)
  unfolding assign_functions make_groups
  group_filtered io branch [] = ok (
    record branch { grouper_result = some (record { sorted_recordset = []; groupset = [] }) },
    [],
  )
  group_filtered io branch (item ∷ items) = do
    assigned ← assign_functions branch
    done ← make_groups libc io options assigned assigned.grouper_clauseset (item ∷ items)
    ok (
      record assigned {
        filter_result = some (record { filtered_recordset = done.0 });
        grouper_result =
            some (record { sorted_recordset = done.1; groupset = Grouping.groupset done.2 });
      },
      Grouping.files done.2
          ++ written_if (options.verbose_v && options.file) (grouper_branch_groups branch.branch_id)
              (map cooked (Grouping.groupset done.2)),
    )

  -- A NULL filter result is read.
  unfoldable pub grouper : IoHandler → Branch → Outcome (Branch × List OutFile)
  unfolding group_filtered
  grouper io branch =
      deref branch.filter_result >>= λ fresult. group_filtered io branch fresult.filtered_recordset
