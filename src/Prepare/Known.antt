-- ===== src/Prepare/Known.antt =====
-- The names that `prepare_flowquery` of src/f.c asks for, and what each term comes to if they are
-- known.
use Prim.Native.String.{String}
use nfql.Prelude.{ℕ, ◌<◌, ◌≡◌, ◌≢◌, none, arith, abort, undefined}
use nfql.Prelude.Decides.{Decides}
use nfql.Rule.{no_enum, get_enum}
use nfql.Io.{IoHandler}
use nfql.Query.{JsonFilterTerm, JsonGrouperTerm, JsonAggrTerm, JsonGroupfilterTerm, JsonMergerTerm}
use nfql.Pipeline.{FilterTerm, GrouperTerm, AggrTerm, GroupfilterTerm, MergerTerm}
use nfql.Prepare.{
  checked, branch_at, prepare_filter_term, prepare_grouper_term, prepare_aggr_term,
  prepare_groupfilter_term, prepare_merger_term,
}

checked-Decides : (value : ℕ) → Decides (value ≢ no_enum) (checked value) value
unfolding checked
checked-Decides value = ground arith

-- The ids of a merger term are those of branches of the query.
abbrev pub NamesBranches : ℕ → JsonMergerTerm → Type 0
NamesBranches num t = (t.b1_id < num) × (t.b2_id < num)

module _ (io : IoHandler) where
  abbrev pub IsField : String → Type 0
  IsField name = io.io_read_get_field_offset name ≢ no_enum

  abbrev pub IsRule : String → Type 0
  IsRule name = get_enum name ≢ no_enum

  abbrev pub FilterKnown : JsonFilterTerm → Type 0
  FilterKnown t = IsField t.off.name × IsRule t.op × IsRule t.off.datatype

  abbrev pub filter_term : JsonFilterTerm → FilterTerm
  filter_term t = record {
    field_offset = io.io_read_get_field_offset t.off.name;
    value = t.off.value;
    delta = t.delta;
    op = record { op = get_enum t.op; field_type = get_enum t.off.datatype };
    func = none;
    aggr_function = none;
  }

  pub prepare_filter_term-Decides :
      (t : JsonFilterTerm) → Decides (FilterKnown t) (prepare_filter_term io t) (filter_term t)
  unfolding prepare_filter_term checked branch_at
  prepare_filter_term-Decides t = ground arith

  -- The type of the second field is not asked for.
  abbrev pub GrouperKnown : JsonGrouperTerm → Type 0
  GrouperKnown t =
      IsField t.off.f1_name
      × IsField t.off.f2_name
      × IsRule t.op.name
      × IsRule t.off.f1_datatype
      × IsRule t.op.type

  abbrev pub grouper_term : JsonGrouperTerm → GrouperTerm
  grouper_term t = record {
    field_offset1 = io.io_read_get_field_offset t.off.f1_name;
    field_offset2 = io.io_read_get_field_offset t.off.f2_name;
    delta = t.delta;
    op = record {
      op = get_enum t.op.name;
      field1_type = get_enum t.off.f1_datatype;
      field2_type = get_enum t.off.f2_datatype;
      optype = get_enum t.op.type;
    };
    func = none;
    aggr_function = none;
  }

  pub prepare_grouper_term-Decides :
      (t : JsonGrouperTerm) → Decides (GrouperKnown t) (prepare_grouper_term io t) (grouper_term t)
  unfolding prepare_grouper_term checked branch_at
  prepare_grouper_term-Decides t = ground arith

  abbrev pub AggrKnown : JsonAggrTerm → Type 0
  AggrKnown t = IsField t.off.name × IsRule t.op × IsRule t.off.datatype

  abbrev pub aggr_term : JsonAggrTerm → AggrTerm
  aggr_term t = record {
    field_offset = io.io_read_get_field_offset t.off.name;
    op = record { op = get_enum t.op; field_type = get_enum t.off.datatype };
    func = none;
  }

  pub prepare_aggr_term-Decides :
      (t : JsonAggrTerm) → Decides (AggrKnown t) (prepare_aggr_term io t) (aggr_term t)
  unfolding prepare_aggr_term checked branch_at
  prepare_aggr_term-Decides t = ground arith

  abbrev pub GroupfilterKnown : JsonGroupfilterTerm → Type 0
  GroupfilterKnown t = IsField t.off.name × IsRule t.op × IsRule t.off.datatype

  abbrev pub groupfilter_term : JsonGroupfilterTerm → GroupfilterTerm
  groupfilter_term t = record {
    field = io.io_read_get_field_offset t.off.name;
    value = t.off.value;
    delta = t.delta;
    op = record { op = get_enum t.op; field_type = get_enum t.off.datatype };
    func = none;
  }

  pub prepare_groupfilter_term-Decides :
      (t : JsonGroupfilterTerm)
      → Decides (GroupfilterKnown t) (prepare_groupfilter_term io t) (groupfilter_term t)
  unfolding prepare_groupfilter_term checked branch_at
  prepare_groupfilter_term-Decides t = ground arith

  abbrev pub MergerKnown : JsonMergerTerm → Type 0
  MergerKnown t =
      IsField t.off.f1_name
      × IsField t.off.f2_name
      × IsRule t.op.name
      × IsRule t.op.type
      × IsRule t.off.f1_datatype
      × IsRule t.off.f2_datatype

  abbrev pub merger_term : JsonMergerTerm → MergerTerm
  merger_term t = record {
    branch1 = t.b1_id;
    field1 = io.io_read_get_field_offset t.off.f1_name;
    branch2 = t.b2_id;
    field2 = io.io_read_get_field_offset t.off.f2_name;
    op = record {
      op = get_enum t.op.name;
      field1_type = get_enum t.off.f1_datatype;
      field2_type = get_enum t.off.f2_datatype;
      optype = get_enum t.op.type;
    };
    delta = 0;
    func = none;
  }

  pub prepare_merger_term-Decides :
      (num : ℕ) (t : JsonMergerTerm)
      → NamesBranches num t
      → Decides (MergerKnown t) (prepare_merger_term io num t) (merger_term t)
  unfolding prepare_merger_term checked branch_at
  prepare_merger_term-Decides num t ids = ground arith

  -- For a term whose names are known, an id that is not a branch's is not found out: the array of
  -- the branches is read outside its bounds.
  pub prepare_merger_term_unchecked :
      (num : ℕ) (t : JsonMergerTerm)
      → MergerKnown t
      → ¬ NamesBranches num t
      → prepare_merger_term io num t ≡ abort undefined
  unfolding prepare_merger_term checked branch_at
  prepare_merger_term_unchecked num t known other = ground arith
