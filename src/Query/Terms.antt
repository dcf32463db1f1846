-- ===== src/Query/Terms.antt =====
-- src/f.c, `parse_json_query`: the bodies of its loops over the terms of clauses, which read a term
-- into its structure of src/f.h, and tell an IPFIX template of the term's fields.
use Prim.Native.String.{String}
use nfql.Prelude.{
  ℕ, suc, ◌-◌, Bool, Option, none, some, Outcome, ok, abort, err_exit, ◌>>=◌, deref, if◌then◌else◌,
}
use nfql.Prelude.Ints.{ℤ, pos, negsuc}
use nfql.Word.{u64_mod}
use nfql.JsonC.{JsonC}
use nfql.Ipfix.{IpfixTempl, ipfix_templ_ie_register}
use nfql.Query.{JsonFilterTerm, JsonGrouperTerm, JsonAggrTerm, JsonGroupfilterTerm, JsonMergerTerm}

-- An int assigned to a uint64_t.
unfoldable pub u64_of_int : ℤ → ℕ
u64_of_int (pos n) = n
u64_of_int (negsuc n) = u64_mod - suc n

-- `strdup(...)`, of a string that must not be NULL.
abbrev pub strdup : Option String → Outcome String
strdup = deref

module _ {J : Type 0} (c : JsonC J) (ipfix_enabled : Bool) where
  -- The macro REGISTER_IPFIX_IE.
  unfoldable pub register_ipfix_ie : IpfixTempl → Option J → Outcome IpfixTempl
  register_ipfix_ie templ ie =
      if ipfix_enabled
      then (deref (c.object_get_string ie) >>= λ name.
          ipfix_templ_ie_register templ name >>= λ registered. elim registered [
            | none ↦ abort err_exit
            | some templ' ↦ ok templ'
          ])
      else ok templ

  unfoldable pub parse_filter_term : IpfixTempl → Option J → Outcome (IpfixTempl × JsonFilterTerm)
  unfolding register_ipfix_ie u64_of_int
  parse_filter_term templ term = do
    let term_items = c.object_object_get term "term"
    let delta = c.object_object_get term_items "delta"
    let op = c.object_object_get term_items "op"
    let foffset = c.object_object_get term_items "offset"
    let fo_name = c.object_object_get foffset "name"
    templ' ← register_ipfix_ie templ fo_name
    let fo_val = c.object_object_get foffset "value"
    let fo_type = c.object_object_get foffset "datatype"
    op' ← strdup (c.object_get_string op)
    name ← strdup (c.object_get_string fo_name)
    datatype ← strdup (c.object_get_string fo_type)
    ok (
      templ',
      record {
        op = op';
        delta = u64_of_int (c.object_get_int delta);
        off = record {
          name = name;
          value = u64_of_int (c.object_get_int fo_val);
          datatype = datatype;
        };
      },
    )

  unfoldable pub parse_grouper_term : IpfixTempl → Option J → Outcome (IpfixTempl × JsonGrouperTerm)
  unfolding register_ipfix_ie u64_of_int
  parse_grouper_term templ term = do
    let term_items = c.object_object_get term "term"
    let delta = c.object_object_get term_items "delta"
    let op = c.object_object_get term_items "op"
    let offset = c.object_object_get term_items "offset"
    let f1_name = c.object_object_get offset "f1_name"
    templ1 ← register_ipfix_ie templ f1_name
    let f2_name = c.object_object_get offset "f2_name"
    templ2 ← register_ipfix_ie templ1 f2_name
    let f1_datatype = c.object_object_get offset "f1_datatype"
    let f2_datatype = c.object_object_get offset "f2_datatype"
    let op_type = c.object_object_get op "type"
    let op_name = c.object_object_get op "name"
    name ← strdup (c.object_get_string op_name)
    type ← strdup (c.object_get_string op_type)
    name1 ← strdup (c.object_get_string f1_name)
    name2 ← strdup (c.object_get_string f2_name)
    datatype1 ← strdup (c.object_get_string f1_datatype)
    datatype2 ← strdup (c.object_get_string f2_datatype)
    ok (
      templ2,
      record {
        delta = u64_of_int (c.object_get_int delta);
        off = record {
          f1_name = name1;
          f2_name = name2;
          f1_datatype = datatype1;
          f2_datatype = datatype2;
        };
        op = record { name = name; type = type };
      },
    )

  unfoldable pub parse_aggr_term : IpfixTempl → Option J → Outcome (IpfixTempl × JsonAggrTerm)
  unfolding register_ipfix_ie
  parse_aggr_term templ term_json = do
    let term_items = c.object_object_get term_json "term"
    let op = c.object_object_get term_items "op"
    let offset = c.object_object_get term_items "offset"
    let name_json = c.object_object_get offset "name"
    templ' ← register_ipfix_ie templ name_json
    let datatype_json = c.object_object_get offset "datatype"
    op' ← strdup (c.object_get_string op)
    name ← strdup (c.object_get_string name_json)
    datatype ← strdup (c.object_get_string datatype_json)
    ok (templ', record { op = op'; off = record { name = name; datatype = datatype } })

  unfoldable pub parse_groupfilter_term :
      IpfixTempl → Option J → Outcome (IpfixTempl × JsonGroupfilterTerm)
  unfolding register_ipfix_ie u64_of_int
  parse_groupfilter_term templ term = do
    let term_items = c.object_object_get term "term"
    let delta = c.object_object_get term_items "delta"
    let op = c.object_object_get term_items "op"
    let offset = c.object_object_get term_items "offset"
    let fo_name = c.object_object_get offset "name"
    templ' ← register_ipfix_ie templ fo_name
    let fo_val = c.object_object_get offset "value"
    let fo_type = c.object_object_get offset "datatype"
    op' ← strdup (c.object_get_string op)
    name ← strdup (c.object_get_string fo_name)
    datatype ← strdup (c.object_get_string fo_type)
    ok (
      templ',
      record {
        op = op';
        delta = u64_of_int (c.object_get_int delta);
        off = record {
          name = name;
          value = u64_of_int (c.object_get_int fo_val);
          datatype = datatype;
        };
      },
    )

  unfoldable pub parse_merger_term : IpfixTempl → Option J → Outcome (IpfixTempl × JsonMergerTerm)
  unfolding register_ipfix_ie u64_of_int
  parse_merger_term templ term = do
    let term_items = c.object_object_get term "term"
    let delta = c.object_object_get term_items "delta"
    let op = c.object_object_get term_items "op"
    let offset = c.object_object_get term_items "offset"
    let b1_id = c.object_object_get term_items "branch1_id"
    let b2_id = c.object_object_get term_items "branch2_id"
    let f1_name = c.object_object_get offset "f1_name"
    templ1 ← register_ipfix_ie templ f1_name
    let f2_name = c.object_object_get offset "f2_name"
    templ2 ← register_ipfix_ie templ1 f2_name
    let f1_datatype = c.object_object_get offset "f1_datatype"
    let f2_datatype = c.object_object_get offset "f2_datatype"
    let op_type = c.object_object_get op "type"
    let op_name = c.object_object_get op "name"
    name ← strdup (c.object_get_string op_name)
    type ← strdup (c.object_get_string op_type)
    name1 ← strdup (c.object_get_string f1_name)
    name2 ← strdup (c.object_get_string f2_name)
    datatype1 ← strdup (c.object_get_string f1_datatype)
    datatype2 ← strdup (c.object_get_string f2_datatype)
    ok (
      templ2,
      record {
        b1_id = u64_of_int (c.object_get_int b1_id);
        b2_id = u64_of_int (c.object_get_int b2_id);
        delta = u64_of_int (c.object_get_int delta);
        off = record {
          f1_name = name1;
          f2_name = name2;
          f1_datatype = datatype1;
          f2_datatype = datatype2;
        };
        op = record { name = name; type = type };
      },
    )
