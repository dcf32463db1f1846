-- ===== src/Pipeline.antt =====
-- src/pipeline.h: the structures that the stages of a flow query pass on. A counted array is a
-- list, whose length is the count. A function pointer is NULL (`none`) until the stage assigns it.
-- Records are never written after the trace is read, so a pointer to one is modelled by its bytes.
use nfql.Prelude.{ℕ, Bool, Option, List}
use nfql.Word.{Buffer}

-- The values that an aggregation of a group's field came to.
pub record Aggr : Type 0 where
  pub values : List ℕ

-- The cooked record of a group, and the time span of its members in milliseconds.
pub record AggrRecord : Type 0 where
  pub aggr_record : Buffer
  pub start_ts_msec : ℕ
  pub end_ts_msec : ℕ

pub record AggrResult : Type 0 where
  pub aggr_record : AggrRecord
  pub aggrset : List Aggr

pub record Group : Type 0 where
  pub members : List Buffer
  pub aggr_result : AggrResult

-- bool (*func)(record, field_offset, value, delta)
abbrev pub FilterFunc : Type 0
FilterFunc = Buffer → ℕ → ℕ → ℕ → Bool

-- struct aggr* (*func)(records, group_aggregation, num_records, field_offset, if_aggr_common): the
-- aggregation, and the group's record after the function has written to it.
abbrev pub AggrFunc : Type 0
AggrFunc = List Buffer → Buffer → ℕ → Bool → Aggr × Buffer

-- bool (*func)(group, field_offset1, record2, field_offset2, delta)
abbrev pub GrouperFunc : Type 0
GrouperFunc = Group → ℕ → Buffer → ℕ → ℕ → Bool

-- bool (*func)(group, field, value, delta)
abbrev pub GroupfilterFunc : Type 0
GroupfilterFunc = Group → ℕ → ℕ → ℕ → Bool

-- bool (*func)(group1, field1, group2, field2, delta)
abbrev pub MergerFunc : Type 0
MergerFunc = Group → ℕ → Group → ℕ → ℕ → Bool

pub record FilterOp : Type 0 where
  pub op : ℕ
  pub field_type : ℕ

pub record GrouperOp : Type 0 where
  pub op : ℕ
  pub field1_type : ℕ
  pub field2_type : ℕ
  pub optype : ℕ

pub record AggrOp : Type 0 where
  pub op : ℕ
  pub field_type : ℕ

pub record GroupfilterOp : Type 0 where
  pub op : ℕ
  pub field_type : ℕ

pub record MergerOp : Type 0 where
  pub op : ℕ
  pub field1_type : ℕ
  pub field2_type : ℕ
  pub optype : ℕ

pub record FilterTerm : Type 0 where
  pub field_offset : ℕ
  pub value : ℕ
  pub delta : ℕ
  pub op : FilterOp
  pub func : Option FilterFunc
  pub aggr_function : Option AggrFunc

pub record GrouperTerm : Type 0 where
  pub field_offset1 : ℕ
  pub field_offset2 : ℕ
  pub delta : ℕ
  pub op : GrouperOp
  pub func : Option GrouperFunc
  pub aggr_function : Option AggrFunc

pub record AggrTerm : Type 0 where
  pub field_offset : ℕ
  pub op : AggrOp
  pub func : Option AggrFunc

pub record GroupfilterTerm : Type 0 where
  pub field : ℕ
  pub value : ℕ
  pub delta : ℕ
  pub op : GroupfilterOp
  pub func : Option GroupfilterFunc

-- The two branches of a merger term are named by their places in the query's `branchset`, which
-- are their `branch_id`s.
pub record MergerTerm : Type 0 where
  pub branch1 : ℕ
  pub field1 : ℕ
  pub branch2 : ℕ
  pub field2 : ℕ
  pub op : MergerOp
  pub delta : ℕ
  pub func : Option MergerFunc

-- The terms of a clause are AND'd, the clauses of a stage are OR'd.
abbrev pub FilterClause : Type 0
FilterClause = List FilterTerm

abbrev pub GrouperClause : Type 0
GrouperClause = List GrouperTerm

abbrev pub GroupfilterClause : Type 0
GroupfilterClause = List GroupfilterTerm

abbrev pub MergerClause : Type 0
MergerClause = List MergerTerm

pub record FilterResult : Type 0 where
  pub filtered_recordset : List Buffer

pub record GrouperResult : Type 0 where
  pub sorted_recordset : List Buffer
  pub groupset : List Group

pub record GroupfilterResult : Type 0 where
  pub filtered_groupset : List Group

pub record MergerResult : Type 0 where
  pub total_num_group_tuples : ℕ
  pub group_tuples : List (List Group)

pub record Stream : Type 0 where
  pub recordset : List Buffer

pub record UngrouperResult : Type 0 where
  pub streamset : List Stream

pub record Branch : Type 0 where
  pub branch_id : ℕ
  pub filter_clauseset : List FilterClause
  pub grouper_clauseset : List GrouperClause
  pub aggr_clause_termset : List AggrTerm
  pub groupfilter_clauseset : List GroupfilterClause
  -- What was written through `write_ctxt`, the file of the branch's filtered records.
  pub write_ctxt : List Buffer
  pub filter_result : Option FilterResult
  pub grouper_result : Option GrouperResult
  pub gfilter_result : Option GroupfilterResult

pub record Flowquery : Type 0 where
  pub branchset : List Branch
  pub merger_clauseset : List MergerClause
  pub merger_result : Option MergerResult
  pub ungrouper_result : Option UngrouperResult
