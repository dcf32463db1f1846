-- ===== src/Tests/Samples.antt =====
-- A query over records of four bytes: a port, a start, an end, and a byte that is not looked at.
use Prim.Native.String.{String}
use nfql.Prelude.{ℕ, true, List, [], ◌∷◌, none, some, get_or}
use nfql.Word.{Buffer}
use nfql.Rule.{rule_eq, rule_no, rule_s1_8, rule_s2_8, rule_sum, find_name}
use nfql.Io.{IoHandler}
use nfql.Output.{Options}
use nfql.Pipeline.{
  AggrTerm, Branch, FilterClause, FilterTerm, Group, GrouperClause, GrouperTerm, GroupfilterClause,
  MergerClause,
}

abbrev pub packet : ℕ → ℕ → ℕ → Buffer
packet port start end = port ∷ start ∷ end ∷ 7 ∷ []

abbrev pub trace : List Buffer
trace = packet 80 5 9 ∷ packet 22 1 2 ∷ packet 80 3 4 ∷ packet 22 6 8 ∷ []

-- The names of the fields.
abbrev byte_offset : String → ℕ
byte_offset name = find_name name (("port", 0) ∷ ("start", 1) ∷ ("end", 2) ∷ [])

abbrev pub byte_io : IoHandler
byte_io = record {
  io_read_get_field_offset = byte_offset;
  io_read_get_record_size = 4;
  io_record_get_StartTS = λ rec. get_or rec 1 0;
  io_record_get_EndTS = λ rec. get_or rec 2 0;
}

abbrev pub all_options : Options
all_options = record {
  verbose_v = true;
  verbose_vv = true;
  file = true;
  filter_enabled = true;
  grouper_enabled = true;
  groupaggregations_enabled = true;
  groupfilter_enabled = true;
  merger_enabled = true;
  ungrouper_enabled = true;
}

abbrev pub port_is : ℕ → FilterTerm
port_is port = record {
  field_offset = 0;
  value = port;
  delta = 0;
  op = record { op = rule_eq; field_type = rule_s1_8 };
  func = none;
  aggr_function = none;
}

abbrev pub ports : List FilterClause
ports = (port_is 80 ∷ []) ∷ (port_is 22 ∷ []) ∷ []

abbrev pub same_port : GrouperTerm
same_port = record {
  field_offset1 = 0;
  field_offset2 = 0;
  delta = 0;
  op = record { op = rule_eq; field1_type = rule_s1_8; field2_type = rule_s2_8; optype = rule_no };
  func = none;
  aggr_function = none;
}

abbrev pub by_port : GrouperClause
by_port = same_port ∷ []

abbrev pub sum_of_ends : AggrTerm
sum_of_ends = record {
  field_offset = 2;
  op = record { op = rule_sum; field_type = rule_s1_8 };
  func = none;
}

abbrev pub web_groups : List GroupfilterClause
web_groups =
    (record {
      field = 0;
      value = 80;
      delta = 0;
      op = record { op = rule_eq; field_type = rule_s1_8 };
      func = none;
    }
      ∷ [])
    ∷ []

abbrev pub sample_branch : ℕ → Branch
sample_branch branch_id = record {
  branch_id = branch_id;
  filter_clauseset = ports;
  grouper_clauseset = by_port ∷ [];
  aggr_clause_termset = sum_of_ends ∷ [];
  groupfilter_clauseset = web_groups;
  write_ctxt = [];
  filter_result = none;
  grouper_result = none;
  gfilter_result = none;
}

abbrev pub filtered_sample : Branch
filtered_sample = record (sample_branch 0) {
  filter_result = some (record { filtered_recordset = trace });
}

abbrev pub group_of : Buffer → Group
group_of rec = record {
  members = rec ∷ [];
  aggr_result = record {
    aggr_record = record { aggr_record = rec; start_ts_msec = 0; end_ts_msec = 1 };
    aggrset = [];
  };
}

-- Two branches with their filtered groups.
abbrev pub sample_groups : List (List Group)
sample_groups =
    (group_of (packet 80 5 9) ∷ group_of (packet 22 1 2) ∷ [])
    ∷ (group_of (packet 22 6 8) ∷ [])
    ∷ []

abbrev pub with_groups : ℕ → List Group → Branch
with_groups branch_id groups = record (sample_branch branch_id) {
  gfilter_result = some (record { filtered_groupset = groups });
}

abbrev pub sample_branches : List Branch
sample_branches =
    with_groups 0 (group_of (packet 80 5 9) ∷ group_of (packet 22 1 2) ∷ [])
    ∷ with_groups 1 (group_of (packet 22 6 8) ∷ [])
    ∷ []

abbrev pub equal_ports : MergerClause
equal_ports =
    record {
      branch1 = 0;
      field1 = 0;
      branch2 = 1;
      field2 = 0;
      op = record { op = rule_eq; field1_type = rule_s1_8; field2_type = rule_s2_8; optype = 0 };
      delta = 0;
      func = none;
    }
    ∷ []
