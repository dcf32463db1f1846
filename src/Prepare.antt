-- ===== src/Prepare.antt =====
-- src/f.c: `prepare_flowquery`, which makes the flow query of a query read from its file: the names
-- of fields become offsets in the records of the trace, the names of rules their constants.
pub mod Known
pub mod Contract
pub mod Ignored
use Prim.Native.String.{String}
use nfql.Prelude.{
  ℕ, zero, suc, List, [], ◌∷◌, Option, none, Outcome, ok, abort, err_exit, undefined, ◌>>=◌,
  map_outcome, if◌then◌else◌, ◌==◌, ltb, length,
}
use nfql.Rule.{no_enum, get_enum}
use nfql.Io.{IoHandler}
use nfql.Output.{Options}
use nfql.Query.{
  JsonFilterTerm, JsonGrouperTerm, JsonAggrTerm, JsonGroupfilterTerm, JsonMergerTerm, JsonBranch,
  Json,
}
use nfql.Pipeline.{
  FilterTerm, GrouperTerm, AggrTerm, GroupfilterTerm, MergerTerm, FilterClause, GrouperClause,
  GroupfilterClause, MergerClause, Branch, Flowquery,
}

-- `if (value == -1) errExit(...)`, for a size_t or a uint64_t.
unfoldable pub checked : ℕ → Outcome ℕ
checked value = if value == no_enum then abort err_exit else ok value

-- `fquery->branchset[id]`, as the branch's index. The code reads it without a test of the id, which
-- is undefined in C for an id outside the array.
unfoldable pub branch_at : ℕ → ℕ → Outcome ℕ
branch_at num_branches id = if ltb id num_branches then ok id else abort undefined

module _ (io : IoHandler) where
  unfoldable pub prepare_filter_term : JsonFilterTerm → Outcome FilterTerm
  unfolding checked
  prepare_filter_term term_json = do
    offset ← checked (io.io_read_get_field_offset term_json.off.name)
    op_enum ← checked (get_enum term_json.op)
    type_enum ← checked (get_enum term_json.off.datatype)
    ok (record {
      field_offset = offset;
      value = term_json.off.value;
      delta = term_json.delta;
      op = record { op = op_enum; field_type = type_enum };
      func = none;
      aggr_function = none;
    })

  -- The test behind the look-up of `f2_datatype` reads `f1_type_enum` once more.
  unfoldable pub prepare_grouper_term : JsonGrouperTerm → Outcome GrouperTerm
  unfolding checked
  prepare_grouper_term term_json = do
    f1_offset ← checked (io.io_read_get_field_offset term_json.off.f1_name)
    f2_offset ← checked (io.io_read_get_field_offset term_json.off.f2_name)
    op_name_enum ← checked (get_enum term_json.op.name)
    f1_type_enum ← checked (get_enum term_json.off.f1_datatype)
    let f2_type_enum = get_enum term_json.off.f2_datatype
    _ ← checked f1_type_enum
    op_type_enum ← checked (get_enum term_json.op.type)
    ok (record {
      field_offset1 = f1_offset;
      field_offset2 = f2_offset;
      delta = term_json.delta;
      op = record {
        op = op_name_enum;
        field1_type = f1_type_enum;
        field2_type = f2_type_enum;
        optype = op_type_enum;
      };
      func = none;
      aggr_function = none;
    })

  unfoldable pub prepare_aggr_term : JsonAggrTerm → Outcome AggrTerm
  unfolding checked
  prepare_aggr_term term_json = do
    offset ← checked (io.io_read_get_field_offset term_json.off.name)
    op_enum ← checked (get_enum term_json.op)
    type_enum ← checked (get_enum term_json.off.datatype)
    ok (record {
      field_offset = offset;
      op = record { op = op_enum; field_type = type_enum };
      func = none;
    })

  unfoldable pub prepare_groupfilter_term : JsonGroupfilterTerm → Outcome GroupfilterTerm
  unfolding checked
  prepare_groupfilter_term term_json = do
    offset ← checked (io.io_read_get_field_offset term_json.off.name)
    op_enum ← checked (get_enum term_json.op)
    type_enum ← checked (get_enum term_json.off.datatype)
    ok (record {
      field = offset;
      value = term_json.off.value;
      delta = term_json.delta;
      op = record { op = op_enum; field_type = type_enum };
      func = none;
    })

  -- The delta that the query gives is not taken over.
  unfoldable pub prepare_merger_term : ℕ → JsonMergerTerm → Outcome MergerTerm
  unfolding checked branch_at
  prepare_merger_term num_branches term_json = do
    f1_offset ← checked (io.io_read_get_field_offset term_json.off.f1_name)
    f2_offset ← checked (io.io_read_get_field_offset term_json.off.f2_name)
    op_name ← checked (get_enum term_json.op.name)
    op_type ← checked (get_enum term_json.op.type)
    f1_type ← checked (get_enum term_json.off.f1_datatype)
    f2_type ← checked (get_enum term_json.off.f2_datatype)
    branch1 ← branch_at num_branches term_json.b1_id
    branch2 ← branch_at num_branches term_json.b2_id
    ok (record {
      branch1 = branch1;
      field1 = f1_offset;
      branch2 = branch2;
      field2 = f2_offset;
      op = record { op = op_name; field1_type = f1_type; field2_type = f2_type; optype = op_type };
      delta = 0;
      func = none;
    })

  module _ (options : Options) where
    unfoldable pub prepare_filter : JsonBranch → Outcome (List FilterClause)
    unfolding prepare_filter_term
    prepare_filter json_branch =
        if options.filter_enabled
        then map_outcome (map_outcome prepare_filter_term) json_branch.filter_clauseset
        else ok []

    unfoldable pub prepare_grouper : JsonBranch → Outcome (List GrouperClause)
    unfolding prepare_grouper_term
    prepare_grouper json_branch =
        if options.grouper_enabled
        then map_outcome (map_outcome prepare_grouper_term) json_branch.grouper_clauseset
        else ok []

    unfoldable pub prepare_aggr : JsonBranch → Outcome (List AggrTerm)
    unfolding prepare_aggr_term
    prepare_aggr json_branch =
        if options.groupaggregations_enabled
        then map_outcome prepare_aggr_term json_branch.aggr_clause_termset
        else ok []

    unfoldable pub prepare_groupfilter : JsonBranch → Outcome (List GroupfilterClause)
    unfolding prepare_groupfilter_term
    prepare_groupfilter json_branch =
        if options.groupfilter_enabled
        then map_outcome (map_outcome prepare_groupfilter_term) json_branch.groupfilter_clauseset
        else ok []

    -- The branch of an index of the query.
    unfoldable pub prepare_branch : ℕ → JsonBranch → Outcome Branch
    unfolding prepare_filter prepare_grouper prepare_aggr prepare_groupfilter
    prepare_branch i json_branch = do
      fclauseset ← prepare_filter json_branch
      gclauseset ← prepare_grouper json_branch
      termset ← prepare_aggr json_branch
      gfclauseset ← prepare_groupfilter json_branch
      ok (record {
        branch_id = i;
        filter_clauseset = fclauseset;
        grouper_clauseset = gclauseset;
        aggr_clause_termset = termset;
        groupfilter_clauseset = gfclauseset;
        write_ctxt = [];
        filter_result = none;
        grouper_result = none;
        gfilter_result = none;
      })

    -- The branches from an index on.
    unfoldable pub prepare_branches : ℕ → List JsonBranch → Outcome (List Branch)
    unfolding prepare_branch
    prepare_branches i [] = ok []
    prepare_branches i (json_branch ∷ branches) = do
      branch ← prepare_branch i json_branch
      rest ← prepare_branches (suc i) branches
      ok (branch ∷ rest)

    unfoldable pub prepare_merger : Json → Outcome (List MergerClause)
    unfolding prepare_merger_term
    prepare_merger json_query =
        if options.merger_enabled
        then map_outcome (map_outcome (prepare_merger_term (length json_query.branchset)))
            json_query.merger_clauseset
        else ok []

    unfoldable pub prepare_flowquery : Json → Outcome Flowquery
    unfolding prepare_branches prepare_merger
    prepare_flowquery json_query = do
      branchset ← prepare_branches 0 json_query.branchset
      mclauseset ← prepare_merger json_query
      ok (record {
        branchset = branchset;
        merger_clauseset = mclauseset;
        merger_result = none;
        ungrouper_result = none;
      })
