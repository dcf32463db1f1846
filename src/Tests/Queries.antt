-- ===== src/Tests/Queries.antt =====
-- The theorems on reading and preparing a query, at a sample query.
use nfql.Prelude.{◌≡◌, [], ◌∷◌, none, some, ok, map, false, arith, refl, Bool, All}
use nfql.Prelude.Decides.{Decides}
use nfql.Rule.{no_enum, get_enum, find_name}
use nfql.Io.{IoHandler}
use nfql.Output.{Options}
use nfql.Ipfix.{IpfixTempl}
use nfql.Query.{JsonGrouperTerm, Json}
use nfql.Comps.AssignAggr.{get_gtype}
use nfql.Parse.{parse_json_query}
use nfql.Parse.Encode.{encode_query}
use nfql.Parse.ReadStages.{AreWithin}
use nfql.Parse.ReadQuery.{IsQuery, with_query}
use nfql.Parse.RoundTrip.{parse_json_query_lem}
use nfql.Parse.RangeTerms.{QueryInRange}
use nfql.Parse.Range.{parse_json_query-InRange}
use nfql.Prepare.{prepare_flowquery, prepare_grouper_term}
use nfql.Prepare.Known.{grouper_term}
use nfql.Prepare.Contract.{QueryKnown, IdsInBounds, prepared, prepare_flowquery_lem}
use nfql.Prepare.Ignored.{with_delta, prepare_grouper_term_unlisted, prepare_flowquery-with_delta}
use nfql.Tests.Trees.{trees, trees-IsJsonC}
use nfql.Comps.Assign.{filter_cases, assign_filter_func}
use nfql.Filter.{branch_files}
use nfql.Filter.Contract.{AllAssigned, branch_after}
use nfql.Engine.{make_templ, start_query}
use nfql.Engine.Started.{start_query-encode}
use nfql.Tests.Sorting.{sorting_libc}
use nfql.Tests.Samples.{byte_io, all_options, trace}

-- The options of a run before its query is read.
abbrev no_stages : Options
no_stages = record all_options {
  filter_enabled = false;
  grouper_enabled = false;
  groupaggregations_enabled = false;
  groupfilter_enabled = false;
  merger_enabled = false;
  ungrouper_enabled = false;
}

abbrev no_fields : IpfixTempl
no_fields = record { arr = []; next_offset = 0 }

abbrev same_port : JsonGrouperTerm
same_port = record {
  delta = 0;
  off = record {
    f1_name = "port";
    f2_name = "port";
    f1_datatype = "RULE_S1_8";
    f2_datatype = "RULE_S2_8";
  };
  op = record { name = "RULE_EQ"; type = "RULE_NO" };
}

abbrev wrong_type : JsonGrouperTerm
wrong_type = record same_port {
  off = record {
    f1_name = "port";
    f2_name = "port";
    f1_datatype = "RULE_S1_8";
    f2_datatype = "RULE_S2_128";
  };
}

abbrev sample_query : Json
sample_query = record {
  branchset =
      record {
        filter_clauseset =
            (record {
              op = "RULE_EQ";
              delta = 0;
              off = record { name = "port"; value = 80; datatype = "RULE_S1_8" };
            }
              ∷ [])
            ∷ [];
        grouper_clauseset = (same_port ∷ []) ∷ [];
        aggr_clause_termset =
            record { op = "RULE_SUM"; off = record { name = "end"; datatype = "RULE_S1_8" } } ∷ [];
        groupfilter_clauseset =
            (record {
              op = "RULE_GT";
              delta = 0;
              off = record { name = "end"; value = 5; datatype = "RULE_S1_8" };
            }
              ∷ [])
            ∷ [];
      }
      ∷ [];
  merger_clauseset =
      (record { b1_id = 0; b2_id = 0; delta = 3; off = same_port.off; op = same_port.op } ∷ [])
      ∷ [];
}

within : AreWithin all_options no_stages
within = record {
  filter_within = λ e. cc;
  grouper_within = λ e. cc;
  aggr_within = λ e. cc;
  groupfilter_within = λ e. cc;
  merger_within = λ e. cc;
  ungrouper_within = λ e. cc;
}

sample-IsQuery : IsQuery all_options sample_query
sample-IsQuery = record {
  grouped = λ e. e;
  branches = (
    record {
      filter_off = λ e. cc;
      grouper_off = λ e. cc;
      aggr_off = λ e. cc;
      groupfilter_off = λ e. cc;
      filter_small = (((omega arith, omega arith), tt), tt);
      grouper_small = ((omega arith, tt), tt);
      groupfilter_small = (((omega arith, omega arith), tt), tt);
    },
    tt,
  );
  merger_off = λ e. cc;
  merger_small = (((omega arith, omega arith, omega arith), tt), tt);
}

parse_json_query_lem_example :
    parse_json_query trees false no_stages no_fields
      (some (encode_query trees all_options sample_query))
    ≡ ok (with_query all_options no_stages, no_fields, sample_query)
parse_json_query_lem_example =
    parse_json_query_lem all_options false trees trees-IsJsonC no_stages no_fields sample_query
      (λ e. cc) within sample-IsQuery

parse_json_query-InRange_example : QueryInRange sample_query
parse_json_query-InRange_example =
    parse_json_query-InRange trees trees-IsJsonC false no_stages (with_query all_options no_stages)
      no_fields no_fields (some (encode_query trees all_options sample_query)) sample_query
      (parse_json_query_lem all_options false trees trees-IsJsonC no_stages no_fields sample_query
        (λ e. cc) within sample-IsQuery)

sample_ids : IdsInBounds byte_io all_options sample_query
sample_ids = λ on. (((omega arith, omega arith), tt), tt)

prepare_flowquery_lem_example :
    Decides
      (QueryKnown byte_io all_options sample_query)
      (prepare_flowquery byte_io all_options sample_query)
      (prepared byte_io all_options sample_query)
prepare_flowquery_lem_example = prepare_flowquery_lem byte_io all_options sample_query sample_ids

prepare_grouper_term_unlisted_example :
    (prepare_grouper_term byte_io wrong_type ≡ ok (grouper_term byte_io wrong_type))
    × ((grouper_term byte_io wrong_type).op.field2_type ≡ no_enum)
    × (get_gtype (grouper_term byte_io wrong_type).op.field2_type ≡ none)
unfolding get_enum find_name
prepare_grouper_term_unlisted_example =
    prepare_grouper_term_unlisted byte_io wrong_type
      (omega arith, omega arith, omega arith, omega arith, omega arith) (λ e. cc)

prepare_flowquery-with_delta_example :
    prepare_flowquery byte_io all_options (record sample_query {
      merger_clauseset = map (map (with_delta 7)) sample_query.merger_clauseset;
    })
    ≡ prepare_flowquery byte_io all_options sample_query
prepare_flowquery-with_delta_example =
    prepare_flowquery-with_delta byte_io all_options sample_query 7

abbrev always_byte_io : Bool → IpfixTempl → IoHandler
always_byte_io ipfix_enabled templ = byte_io

sample_known : QueryKnown byte_io all_options sample_query
unfolding get_enum find_name
sample_known = ground arith

sample_assigned : All AllAssigned (prepared byte_io all_options sample_query).branchset
unfolding get_enum find_name assign_filter_func filter_cases
sample_assigned = (((record { func = _; assigned = refl }, tt), tt), tt)

start_query-encode_example :
    let fquery = prepared byte_io all_options sample_query in
    let kept =
      map (branch_after all_options byte_io.io_read_get_record_size trace) fquery.branchset in
    start_query sorting_libc trees always_byte_io false no_stages
      (some (encode_query trees all_options sample_query))
      trace
    ≡ ok (
      with_query all_options no_stages,
      byte_io,
      record fquery { branchset = kept },
      branch_files all_options kept,
    )
unfolding make_templ
start_query-encode_example =
    start_query-encode sorting_libc all_options trees trees-IsJsonC always_byte_io false no_stages
      no_fields no_fields sample_query trace (λ e. cc) within sample-IsQuery refl refl refl
      sample_known sample_ids sample_assigned
