-- ===== src/Comps/Within.antt =====
-- What the comparisons of scripts/generate-functions.py decide, and where uint64_t arithmetic
-- departs from it.
use nfql.Prelude.{ℕ, ◌+◌, ◌≤◌, ◌<◌, ◌≡◌, ◌↔◌, ◌⊎◌, true, false, arith}
use nfql.Word.{u64_mod, Width, Buffer, add64, sub64, load}
use nfql.Comps.{CompareOp, eq, ne, lt, gt, le, ge, compare_within, filter_func}

-- The comparison of `x` with `value` that tolerates a deviation of `delta`, in whole numbers.
abbrev pub Deviates : CompareOp → ℕ → ℕ → ℕ → Type 0
Deviates eq x value delta = (value ≤ x + delta) × (x ≤ value + delta)
Deviates ne x value delta = (x + delta < value) ⊎ (value + delta < x)
Deviates lt x value delta = x < value + delta
Deviates le x value delta = x ≤ value + delta
Deviates gt x value delta = value < x + delta
Deviates ge x value delta = value ≤ x + delta

sub64_eq : (value delta : ℕ) → delta ≤ value → value < u64_mod → sub64 value delta + delta ≡ value
unfolding sub64
sub64_eq value delta h lt64 = omega arith

add64_eq : (value delta : ℕ) → value + delta < u64_mod → add64 value delta ≡ value + delta
unfolding add64
add64_eq value delta h = omega arith

-- Where value - delta and value + delta stay in range, the comparison is the one meant.
pub compare_within_iff :
    (op : CompareOp) (x value delta : ℕ)
    → delta ≤ value
    → value + delta < u64_mod
    → (compare_within op x value delta ≡ true) ↔ Deviates op x value delta
unfolding compare_within
compare_within_iff eq x value delta h k =
    ground (arith, sub64_eq value delta h (omega arith), add64_eq value delta k)
compare_within_iff op x value delta h k =
    ground (arith, sub64_eq value delta h (omega arith), add64_eq value delta k)

-- Where value - delta and value + delta stay in the range of uint64_t, a generated filter function
-- holds exactly if the field of the record meets the comparison up to a deviation of delta.
pub filter_func_iff :
    (op : CompareOp) (w : Width) (rec : Buffer) (field_offset value delta : ℕ)
    → delta ≤ value
    → value + delta < u64_mod
    → (filter_func op w rec field_offset value delta ≡ true)
      ↔ Deviates op (load w rec field_offset) value delta
unfolding filter_func
filter_func_iff op w rec field_offset value delta h k =
    compare_within_iff op (load w rec field_offset) value delta h k

-- A delta above the value wraps value - delta round to a large number: then `eq` and `ge` fail for
-- every field value below 2^64 - (delta - value), the value itself included, and `ne` holds.
pub compare_within_wraps :
    (x value delta : ℕ)
    → value < delta
    → x + delta < value + u64_mod
    → (compare_within eq x value delta ≡ false)
      × (compare_within ge x value delta ≡ false)
      × (compare_within ne x value delta ≡ true)
unfolding compare_within sub64
compare_within_wraps x value delta h k = ground arith
