-- ===== src/Tests/Fields.antt =====
-- The theorems on comparisons, on aggregations and on the IPFIX template at concrete fields.
use Prim.Native.Nat.{bit_or}
use Prim.Native.String.{String}
use text.Mathlib.Text.{◌==◌ as str_eq}
use nfql.Prelude.{
  ◌≢◌, ℕ, ◌%◌, ◌^◌, ◌≤◌, ◌<◌, ◌≡◌, ◌↔◌, ◌⊎◌, inl, inr, refl, List, [], ◌∷◌, some, All, arith, true,
  false, ok, if◌then◌else◌,
}
use nfql.Word.{Buffer, w8, w16, store, load}
use nfql.Rule.{get_enum, no_enum}
use nfql.Comps.Names.{Rule, rule_name, label_of, get_enum_lem}
use nfql.Comps.{
  eq, ne, ge, lt, absolute, compare_within, filter_func, gfilter_func, grouper_func, merger_func,
}
use nfql.Comps.Within.{Deviates, filter_func_iff, compare_within_wraps}
use nfql.Comps.Allen.{AllenOp, allen_func, allen_func_overlap}
use nfql.Comps.Assign.{
  rule_of, s1_of, s2_of, delta_of, allen_of, filter_cases, groupfilter_cases, grouper_cases,
  merger_cases,
}
use nfql.Comps.Dispatch.{filter_and_groupfilter_cases, grouper_cases_lem, merger_cases_lem}
use nfql.Comps.Aggregate.{aggr_func, sum, min, max, prod, and_bits}
use nfql.Comps.Aggregate.Contract.{
  total, fields, aggr_sum_lem, aggr_min_max_first, aggr_prod_and_zero,
}
use nfql.Libc.{IsOrder}
use nfql.Grouper.Sort.Order.{HasGtype, gtypes, compare_keys, qsort_comp-IsOrder}
use nfql.Grouper.Sort.{qsort_comp}
use nfql.Comps.AssignAggr.{get_gtype}
use nfql.Ipfix.Types.{unsigned8, ipfix_ie_type_sizeof}
use nfql.Ipfix.{
  IpfixTempl, FbInfoElementSpec, get_ipfix_type, ipfix_templ_get_ie, ipfix_templ_ie_register,
  ipfix_templ_get_rec_size, ipfix_get_fb_info_elem_spec,
}
use nfql.Ipfix.Layout.{IsLaidOut, with_ie, register-IsLaidOut, rec_size_lem}
use nfql.Ipfix.Specs.{spec_lengths, fb_info_elem_spec_lem}
use nfql.Tests.Sorting.{sorting_libc}
use nfql.Tests.Samples.{packet, group_of, by_port}

get_enum_lem_example :
    ((r : Rule) × ("RULE_EQ" ≡ rule_name r) × (get_enum "RULE_EQ" ≡ label_of r))
    ⊎ (((r : Rule) → "RULE_EQ" ≢ rule_name r) × (get_enum "RULE_EQ" ≡ no_enum))
get_enum_lem_example = get_enum_lem "RULE_EQ"

filter_func_iff_example :
    (filter_func eq w8 (packet 80 5 9) 0 82 3 ≡ true) ↔ Deviates eq (load w8 (packet 80 5 9) 0) 82 3
filter_func_iff_example = filter_func_iff eq w8 (packet 80 5 9) 0 82 3 (omega arith) (omega arith)

compare_within_wraps_example :
    (compare_within eq 1 2 3 ≡ false)
    × (compare_within ge 1 2 3 ≡ false)
    × (compare_within ne 1 2 3 ≡ true)
compare_within_wraps_example = compare_within_wraps 1 2 3 (omega arith) (omega arith)

allen_func_overlap_example :
    allen_func AllenOp.d (group_of (packet 80 5 9)) 0 (group_of (packet 22 1 2)) 0 0 ≡ false
allen_func_overlap_example =
    allen_func_overlap AllenOp.d (group_of (packet 80 5 9)) 0 (group_of (packet 22 1 2)) 0 0 tt

filter_and_groupfilter_cases_example :
    (filter_cases (bit_or (rule_of lt) (s1_of w16)) ≡ some (filter_func lt w16))
    × (groupfilter_cases (bit_or (rule_of lt) (s1_of w16)) ≡ some (gfilter_func lt w16))
filter_and_groupfilter_cases_example = filter_and_groupfilter_cases lt w16

grouper_cases_lem_example :
    grouper_cases (bit_or (bit_or (bit_or (rule_of lt) (s1_of w16)) (s2_of w8)) (delta_of absolute))
    ≡ some (grouper_func lt w16 w8 absolute)
grouper_cases_lem_example = grouper_cases_lem lt w16 w8 absolute

merger_cases_lem_example :
    (merger_cases (bit_or (bit_or (rule_of lt) (s1_of w16)) (s2_of w8))
      ≡ some (merger_func lt w16 w8))
    × (merger_cases (allen_of AllenOp.bf) ≡ some (allen_func AllenOp.bf))
merger_cases_lem_example = merger_cases_lem lt w16 w8 AllenOp.bf

abbrev later : List Buffer
later = packet 22 1 2 ∷ packet 70 3 4 ∷ []

aggr_sum_lem_example :
    aggr_func sorting_libc sum w8 (packet 80 5 9 ∷ later) (0 ∷ 0 ∷ 0 ∷ 0 ∷ []) 1 true ≡ (
      record { values = total (fields w8 1 (packet 80 5 9 ∷ later)) % 2 ^ 64 ∷ [] },
      store w8 (0 ∷ 0 ∷ 0 ∷ 0 ∷ []) 1 (total (fields w8 1 (packet 80 5 9 ∷ later)) % 2 ^ 64),
    )
aggr_sum_lem_example =
    aggr_sum_lem sorting_libc w8 (packet 80 5 9) later (0 ∷ 0 ∷ 0 ∷ 0 ∷ []) 1 true

aggr_min_max_first_example :
    aggr_func sorting_libc min w8 (packet 80 5 9 ∷ later) (0 ∷ 0 ∷ 0 ∷ 0 ∷ []) 1 true ≡ (
      record { values = load w8 (packet 80 5 9) 1 ∷ [] },
      store w8 (0 ∷ 0 ∷ 0 ∷ 0 ∷ []) 1 (load w8 (packet 80 5 9) 1),
    )
    × aggr_func sorting_libc max w8 (packet 80 5 9 ∷ later) (0 ∷ 0 ∷ 0 ∷ 0 ∷ []) 1 true ≡ (
      record { values = load w8 (packet 80 5 9) 1 ∷ [] },
      store w8 (0 ∷ 0 ∷ 0 ∷ 0 ∷ []) 1 (load w8 (packet 80 5 9) 1),
    )
aggr_min_max_first_example =
    aggr_min_max_first sorting_libc w8 (packet 80 5 9) later (0 ∷ 0 ∷ 0 ∷ 0 ∷ []) 1 true

aggr_prod_and_zero_example :
    aggr_func sorting_libc prod w8 (packet 80 5 9 ∷ later) (0 ∷ 0 ∷ 0 ∷ 0 ∷ []) 1 true
      ≡ (record { values = 0 ∷ [] }, store w8 (0 ∷ 0 ∷ 0 ∷ 0 ∷ []) 1 0)
    × aggr_func sorting_libc and_bits w8 (packet 80 5 9 ∷ later) (0 ∷ 0 ∷ 0 ∷ 0 ∷ []) 1 true
      ≡ (record { values = 0 ∷ [] }, store w8 (0 ∷ 0 ∷ 0 ∷ 0 ∷ []) 1 0)
aggr_prod_and_zero_example =
    aggr_prod_and_zero sorting_libc w8 (packet 80 5 9) later (0 ∷ 0 ∷ 0 ∷ 0 ∷ []) 1 true

by_port_typed : All HasGtype by_port
unfolding get_gtype
by_port_typed = ((w8, refl), tt)

qsort_comp-IsOrder_example :
    ((e1 e2 : Buffer) → qsort_comp by_port (gtypes by_port) e1 e2 ≡ ok (compare_keys by_port e1 e2))
    × IsOrder Buffer (compare_keys by_port)
qsort_comp-IsOrder_example = qsort_comp-IsOrder by_port by_port_typed

-- A template with one element.
abbrev port_templ : IpfixTempl
port_templ = record {
  arr = record { name = "protocolIdentifier"; offset = 0; size = 1; type = unsigned8 } ∷ [];
  next_offset = 1;
}

abbrev start_name : String
start_name = "flowStartMilliseconds"

abbrev port_laid : IsLaidOut port_templ
port_laid = (inl refl, omega arith, omega arith, refl, refl)

register-IsLaidOut_example :
    (ipfix_templ_ie_register port_templ start_name ≡ ok (some (with_ie port_templ start_name)))
    × IsLaidOut (with_ie port_templ start_name)
unfolding get_ipfix_type ipfix_templ_get_ie ipfix_ie_type_sizeof
register-IsLaidOut_example =
    register-IsLaidOut port_templ start_name port_laid (omega arith) refl
      (inr (inr (inr (inr (inl refl)))))

rec_size_lem_example :
    (ipfix_templ_get_rec_size port_templ % 8 ≡ 0)
    × (1 ≤ ipfix_templ_get_rec_size port_templ)
    × (ipfix_templ_get_rec_size port_templ < 9)
rec_size_lem_example = rec_size_lem port_templ (omega arith)

abbrev element_length : String → ℕ
element_length name = if str_eq name "protocolIdentifier" then 1 else 8

fb_info_elem_spec_lem_example :
    (specs : List FbInfoElementSpec) × (ipfix_get_fb_info_elem_spec port_templ ≡ ok specs)
    × (spec_lengths element_length specs ≡ ipfix_templ_get_rec_size port_templ)
fb_info_elem_spec_lem_example =
    fb_info_elem_spec_lem element_length port_templ port_laid (omega arith) (refl, tt)
