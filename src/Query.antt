-- ===== src/Query.antt =====
-- src/f.h: the structures that a query file is read into, before its names are looked up. A counted
-- array is a list, whose length is the count.
pub mod Loops
pub mod Terms
use Prim.Native.String.{String}
use nfql.Prelude.{ℕ, List}

pub record JsonFilterTermOffset : Type 0 where
  pub name : String
  pub value : ℕ
  pub datatype : String

pub record JsonFilterTerm : Type 0 where
  pub op : String
  pub delta : ℕ
  pub off : JsonFilterTermOffset

pub record JsonGrouperTermOffset : Type 0 where
  pub f1_name : String
  pub f2_name : String
  pub f1_datatype : String
  pub f2_datatype : String

pub record JsonGrouperTermOp : Type 0 where
  pub name : String
  pub type : String

pub record JsonGrouperTerm : Type 0 where
  pub delta : ℕ
  pub off : JsonGrouperTermOffset
  pub op : JsonGrouperTermOp

pub record JsonAggrTermOffset : Type 0 where
  pub name : String
  pub datatype : String

pub record JsonAggrTerm : Type 0 where
  pub op : String
  pub off : JsonAggrTermOffset

pub record JsonGroupfilterTermOffset : Type 0 where
  pub name : String
  pub value : ℕ
  pub datatype : String

pub record JsonGroupfilterTerm : Type 0 where
  pub op : String
  pub delta : ℕ
  pub off : JsonGroupfilterTermOffset

-- A merger term's offset and operation have the types of a grouper term's.
pub record JsonMergerTerm : Type 0 where
  pub b1_id : ℕ
  pub b2_id : ℕ
  pub delta : ℕ
  pub off : JsonGrouperTermOffset
  pub op : JsonGrouperTermOp

-- The terms of a clause are AND'd, the clauses of a stage are OR'd.
abbrev pub JsonFilterClause : Type 0
JsonFilterClause = List JsonFilterTerm

abbrev pub JsonGrouperClause : Type 0
JsonGrouperClause = List JsonGrouperTerm

abbrev pub JsonGroupfilterClause : Type 0
JsonGroupfilterClause = List JsonGroupfilterTerm

abbrev pub JsonMergerClause : Type 0
JsonMergerClause = List JsonMergerTerm

pub record JsonBranch : Type 0 where
  pub filter_clauseset : List JsonFilterClause
  pub grouper_clauseset : List JsonGrouperClause
  pub aggr_clause_termset : List JsonAggrTerm
  pub groupfilter_clauseset : List JsonGroupfilterClause

pub record Json : Type 0 where
  pub branchset : List JsonBranch
  pub merger_clauseset : List JsonMergerClause
