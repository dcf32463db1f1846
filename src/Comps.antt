-- ===== src/Comps.antt =====
-- scripts/generate-functions.py: the comparison functions that it writes for every operation and
-- field width (the generated auto-comps.c is not in the repository; its generator is).
pub mod Within
pub mod Assign
pub mod Dispatch
pub mod Names
pub mod Allen
pub mod Aggregate
pub mod AssignAggr
use nfql.Prelude.{
  ℕ, ◌-◌, List, [], Bool, true, false, ◌&&◌, ◌||◌, ltb, leb, ◌==◌, if◌then◌else◌, any, length,
  get_or,
}
use nfql.Word.{Buffer, Width, load, add64, sub64}
use nfql.Pipeline.{Aggr, Group}

pub data CompareOp : Type 0 where
  eq ne lt gt le ge : CompareOp

-- RULE_ABS compares with the first member of the group, RULE_REL with the last one, and RULE_NO
-- with the first one and without the delta.
pub data DeltaType : Type 0 where
  absolute relative no_delta : DeltaType

-- The comparison of a field with a value up to a delta, in uint64_t arithmetic.
unfoldable pub compare_within : CompareOp → ℕ → ℕ → ℕ → Bool
compare_within eq rec value delta = leb (sub64 value delta) rec && leb rec (add64 value delta)
compare_within ne rec value delta = ltb rec (sub64 value delta) || ltb (add64 value delta) rec
compare_within lt rec value delta = ltb rec (add64 value delta)
compare_within le rec value delta = leb rec (add64 value delta)
compare_within gt rec value delta = ltb (sub64 value delta) rec
compare_within ge rec value delta = leb (sub64 value delta) rec

-- The operators themselves.
unfoldable pub compare_plain : CompareOp → ℕ → ℕ → Bool
compare_plain eq x y = x == y
compare_plain ne x y = if x == y then false else true
compare_plain lt x y = ltb x y
compare_plain le x y = leb x y
compare_plain gt x y = ltb y x
compare_plain ge x y = leb y x

-- filter_<op>_<type>
unfoldable pub filter_func : CompareOp → Width → Buffer → ℕ → ℕ → ℕ → Bool
filter_func op w rec field_offset value delta =
    compare_within op (load w rec field_offset) value delta

-- `members[0]` and `members[num_members - 1]`; a group is never empty when it is compared.
abbrev pub first_member : Group → Buffer
first_member group = get_or group.members 0 []

abbrev pub last_member : Group → Buffer
last_member group = get_or group.members (length group.members - 1) []

-- grouper_<op>_<type1>_<type2>_<dtype>
unfoldable pub grouper_func :
    CompareOp → Width → Width → DeltaType → Group → ℕ → Buffer → ℕ → ℕ → Bool
grouper_func op w1 w2 no_delta group field_offset1 record2 field_offset2 delta =
    compare_plain op (load w1 (first_member group) field_offset1) (load w2 record2 field_offset2)
grouper_func op w1 w2 relative group field_offset1 record2 field_offset2 delta =
    compare_within op (load w1 (last_member group) field_offset1) (load w2 record2 field_offset2)
      delta
grouper_func op w1 w2 absolute group field_offset1 record2 field_offset2 delta =
    compare_within op (load w1 (first_member group) field_offset1) (load w2 record2 field_offset2)
      delta

abbrev pub cooked : Group → Buffer
cooked group = group.aggr_result.aggr_record.aggr_record

-- gfilter_<op>_<type>
unfoldable pub gfilter_func : CompareOp → Width → Group → ℕ → ℕ → ℕ → Bool
gfilter_func op w group field_offset value delta =
    compare_within op (load w (cooked group) field_offset) value delta

-- merger_<op>_<type1>_<type2>: a field that is zero in one of the cooked records matches nothing.
unfoldable pub merger_func : CompareOp → Width → Width → Group → ℕ → Group → ℕ → ℕ → Bool
merger_func op w1 w2 group1 field1_offset group2 field2_offset delta =
    if load w1 (cooked group1) field1_offset == 0 || load w2 (cooked group2) field2_offset == 0
    then false
    else compare_within op (load w1 (cooked group1) field1_offset)
        (load w2 (cooked group2) field2_offset) delta

-- `aggrset[i]`; past its end C reads what is there, and the model an empty aggregation.
abbrev pub aggr_values : Group → ℕ → List ℕ
aggr_values group i = Aggr.values (get_or group.aggr_result.aggrset i (record { values = [] }))

-- merger_in_<type1>_<type2>: the first value of one aggregation among those of the other.
unfoldable pub merger_in : Width → Width → Group → ℕ → Group → ℕ → ℕ → Bool
merger_in w1 w2 group1 field1_offset group2 field2_offset delta =
    if load w1 (cooked group1) field1_offset == 0 || load w2 (cooked group2) field2_offset == 0
    then false
    else any
        (λ value. compare_within eq (get_or (aggr_values group1 field1_offset) 0 0) value delta)
        (aggr_values group2 field2_offset)
