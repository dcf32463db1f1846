-- ===== src/Output.antt =====
-- The options of a run (src/base.c) and the files that the stages write when they are asked to.
-- A file is the list of the records that were written to it through the I/O handler; that the
-- handler's own calls succeed is taken for granted, since a failure aborts the run (`exitOn`).
use nfql.Prelude.{ℕ, Bool, true, false, List, [], ◌∷◌}
use nfql.Word.{Buffer}

-- The global flags that the stages read.
pub record Options : Type 0 where
  pub verbose_v : Bool
  pub verbose_vv : Bool
  pub file : Bool
  pub filter_enabled : Bool
  pub grouper_enabled : Bool
  pub groupaggregations_enabled : Bool
  pub groupfilter_enabled : Bool
  pub merger_enabled : Bool
  pub ungrouper_enabled : Bool

-- The names that the stages give their files, up to the directory and the format's suffix.
pub data OutName : Type 0 where
  filter_branch_filtered_records : ℕ → OutName
  grouper_branch_sorted_records : ℕ → OutName
  grouper_branch_groups : ℕ → OutName
  grouper_branch_group_records : ℕ → ℕ → OutName
  groupfilter_branch_filtered_groups : ℕ → OutName
  merger_merged_groups : OutName
  merger_to_be_merged_groups : OutName
  ungrouper_stream : ℕ → OutName

pub record OutFile : Type 0 where
  pub name : OutName
  pub records : List Buffer

-- A file that is opened under a flag, and what is written to it if it is.
abbrev pub written_if : Bool → OutName → List Buffer → List OutFile
written_if true name records = record { name = name; records = records } ∷ []
written_if false name records = []
