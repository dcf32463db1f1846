-- ===== src/Comps/Dispatch.antt =====
-- The labels of the dispatch switches that scripts/generate-functions.py writes.
use Prim.Native.Nat.{bit_or}
use nfql.Prelude.{◌≡◌, refl, some, arith}
use nfql.Word.{Width}
use nfql.Comps.{CompareOp, eq, DeltaType, filter_func, grouper_func, gfilter_func, merger_func}
use nfql.Comps.Allen.{AllenOp, bf, allen_func}
use nfql.Comps.Assign.{
  rule_of, s1_of, s2_of, delta_of, allen_of, filter_cases, grouper_cases, merger_cases,
  groupfilter_cases,
}

-- The filter's switch takes every comparison and field width to its own function: no two cases
-- have the same label.
filter_cases_lem :
    (op : CompareOp) (w : Width)
    → filter_cases (bit_or (rule_of op) (s1_of w)) ≡ some (filter_func op w)
unfolding filter_cases
filter_cases_lem op w = ground arith

-- The group filter's switch takes every comparison and field width to its own function.
groupfilter_cases_lem :
    (op : CompareOp) (w : Width)
    → groupfilter_cases (bit_or (rule_of op) (s1_of w)) ≡ some (gfilter_func op w)
unfolding groupfilter_cases
groupfilter_cases_lem op w = ground arith

-- The switches of the filter and of the group filter take every comparison and field width each to
-- its own function, from the same label: no two cases of a switch have one label.
pub filter_and_groupfilter_cases :
    (op : CompareOp) (w : Width)
    → (filter_cases (bit_or (rule_of op) (s1_of w)) ≡ some (filter_func op w))
      × (groupfilter_cases (bit_or (rule_of op) (s1_of w)) ≡ some (gfilter_func op w))
filter_and_groupfilter_cases op w = (filter_cases_lem op w, groupfilter_cases_lem op w)

-- The merger's switch takes every comparison and pair of field widths to its own function.
merger_cases_compare :
    (op : CompareOp) (w1 w2 : Width)
    → merger_cases (bit_or (bit_or (rule_of op) (s1_of w1)) (s2_of w2))
      ≡ some (merger_func op w1 w2)
unfolding merger_cases
merger_cases_compare eq w1 w2 = ground arith
merger_cases_compare op w1 w2 = ground arith

-- The merger's switch takes every Allen relation to its own function: the label of none is that
-- of a comparison.
merger_cases_allen : (op : AllenOp) → merger_cases (allen_of op) ≡ some (allen_func op)
unfolding merger_cases
merger_cases_allen bf = refl
merger_cases_allen op = refl

-- The merger's switch takes every comparison and pair of field widths, and every Allen relation, to
-- its own function: no label stands for two of them.
pub merger_cases_lem :
    (op : CompareOp) (w1 w2 : Width) (relation : AllenOp)
    → (merger_cases (bit_or (bit_or (rule_of op) (s1_of w1)) (s2_of w2))
        ≡ some (merger_func op w1 w2))
      × (merger_cases (allen_of relation) ≡ some (allen_func relation))
merger_cases_lem op w1 w2 relation = (merger_cases_compare op w1 w2, merger_cases_allen relation)

-- The grouper's switch takes every comparison, pair of field widths and kind of delta to its own
-- function.
pub grouper_cases_lem :
    (op : CompareOp) (w1 w2 : Width) (dtype : DeltaType)
    → grouper_cases (bit_or (bit_or (bit_or (rule_of op) (s1_of w1)) (s2_of w2)) (delta_of dtype))
      ≡ some (grouper_func op w1 w2 dtype)
unfolding grouper_cases
grouper_cases_lem eq w1 w2 dtype = ground arith
grouper_cases_lem op w1 w2 dtype = ground arith
