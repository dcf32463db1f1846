-- ===== src/Comps/Aggregate.antt =====
-- scripts/generate-functions.py, `groupaggr_body`: the aggregation functions that it writes for
-- every operation and field width, and `compar`.
pub mod Contract
use Prim.Native.Nat.{bit_and, bit_or, bit_xor}
use nfql.Prelude.{
  ℕ, ◌+◌, ◌-◌, ◌*◌, ◌/◌, ◌%◌, ◌^◌, List, [], ◌∷◌, ◌++◌, Bool, true, false, ltb, ◌==◌, if◌then◌else◌,
  length, map, get_or,
}
use nfql.Prelude.Ints.{ℤ, sub_ℕ, of_bool}
use nfql.Word.{Buffer, Width, load, store, sub64}
use nfql.Pipeline.{Aggr}
use nfql.Libc.{Libc}

pub data AggregateOp : Type 0 where
  static count union min max median mean stddev xor sum prod and_bits or_bits : AggregateOp

-- The comparison of `qsort`: the elements are uint64_t, and it reads the low half of each.
unfoldable pub compar : ℕ → ℕ → ℤ
compar a b =
    sub_ℕ (of_bool (ltb (b % 2 ^ 32) (a % 2 ^ 32))) (of_bool (ltb (a % 2 ^ 32) (b % 2 ^ 32)))

-- `values[0] op= field` over the records; `values` comes from calloc.
unfoldable pub accumulate : (ℕ → ℕ → ℕ) → ℕ → List ℕ → ℕ
accumulate op value [] = value
accumulate op value (field ∷ fields) = accumulate op (op value field) fields

abbrev pub add_u64 : ℕ → ℕ → ℕ
add_u64 a b = (a + b) % 2 ^ 64

abbrev pub mul_u64 : ℕ → ℕ → ℕ
mul_u64 a b = (a * b) % 2 ^ 64

-- stddev += (field - mean) * (field - mean), in a uint32_t.
unfoldable pub add_deviation : ℕ → ℕ → ℕ → ℕ
add_deviation average deviation field =
    (deviation + mul_u64 (sub64 field average) (sub64 field average)) % 2 ^ 32

-- The loop of the union over the sorted values, behind the first.
unfoldable pub distinct_from : ℕ → List ℕ → List ℕ
distinct_from last [] = []
distinct_from last (value ∷ values) =
    let same = distinct_from last values in
    let other = value ∷ distinct_from value values in if value == last then same else other

unfoldable pub distinct : List ℕ → List ℕ
unfolding distinct_from
distinct [] = []
distinct (value ∷ values) = value ∷ distinct_from value values

-- for (i = 1; i < num_records; i++) if (records[0] < values[0]) values[0] = records[0];
unfoldable pub first_below : ℕ → List ℕ → ℕ → ℕ
first_below first [] value = value
first_below first (field ∷ fields) value =
    first_below first fields (if ltb first value then first else value)

unfoldable pub first_above : ℕ → List ℕ → ℕ → ℕ
first_above first [] value = value
first_above first (field ∷ fields) value =
    first_above first fields (if ltb value first then first else value)

module _ (libc : Libc) where
  unfoldable pub mean_of : List ℕ → ℕ
  unfolding accumulate
  mean_of fields = accumulate add_u64 0 fields / length fields

  unfoldable pub stddev_of : List ℕ → ℕ
  unfolding mean_of accumulate add_deviation
  stddev_of fields =
      Libc.sqrt libc (accumulate (add_deviation (mean_of fields)) 0 fields / length fields) % 2 ^ 32

  -- The values of an aggregation other than `static`, from the records' fields, which are not none.
  unfoldable pub values_of : AggregateOp → ℕ → List ℕ → List ℕ
  unfolding accumulate mean_of stddev_of first_below first_above distinct compar
  values_of static first rest = distinct (Libc.qsort libc compar (first ∷ rest))
  values_of union first rest = distinct (Libc.qsort libc compar (first ∷ rest))
  values_of count first rest = length (first ∷ rest) ∷ []
  values_of min first rest = first_below first rest first ∷ []
  values_of max first rest = first_above first rest first ∷ []
  values_of median first rest =
      get_or (Libc.qsort libc compar (first ∷ rest)) (length (first ∷ rest) / 2) 0 ∷ []
  values_of mean first rest = mean_of (first ∷ rest) ∷ []
  values_of stddev first rest = stddev_of (first ∷ rest) ∷ []
  values_of xor first rest = accumulate bit_xor 0 (first ∷ rest) ∷ []
  values_of sum first rest = accumulate add_u64 0 (first ∷ rest) ∷ []
  values_of prod first rest = accumulate mul_u64 0 (first ∷ rest) ∷ []
  values_of and_bits first rest = accumulate bit_and 0 (first ∷ rest) ∷ []
  values_of or_bits first rest = accumulate bit_or 0 (first ∷ rest) ∷ []

  -- `*(type*)(group_aggregation + field_offset) = (type) values[0];`, in every aggregation that
  -- has one value.
  unfoldable pub write_value : AggregateOp → Width → Buffer → ℕ → List ℕ → Buffer
  write_value union w group_aggregation field_offset values = group_aggregation
  write_value op w group_aggregation field_offset values =
      store w group_aggregation field_offset (get_or values 0 0)

  -- aggr_<op>_<type>. A static aggregation keeps the value that the records have in common; of
  -- another field it is a union and writes a zero.
  unfoldable pub aggr_func : AggregateOp → Width → List Buffer → Buffer → ℕ → Bool → Aggr × Buffer
  unfolding values_of write_value
  aggr_func op w [] group_aggregation field_offset if_aggr_common =
      (record { values = [] }, group_aggregation)
  aggr_func static w (rec ∷ records) group_aggregation field_offset true = (
    record { values = load w rec field_offset ∷ [] },
    store w group_aggregation field_offset (load w rec field_offset),
  )
  aggr_func static w (rec ∷ records) group_aggregation field_offset false = (
    record {
      values = values_of union (load w rec field_offset) (map (λ r. load w r field_offset) records);
    },
    store w group_aggregation field_offset 0,
  )
  aggr_func op w (rec ∷ records) group_aggregation field_offset if_aggr_common =
      let values =
        values_of op (load w rec field_offset) (map (λ r. load w r field_offset) records) in
      (record { values = values }, write_value op w group_aggregation field_offset values)
