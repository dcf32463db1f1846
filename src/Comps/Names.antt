-- ===== src/Comps/Names.antt =====
-- The names by which a query calls operations, field widths and kinds of delta, and what `get_enum`
-- of src/utils.c and the switches of scripts/generate-functions.py make of them.
use Prim.Native.String.{String}
use nfql.Prelude.{ℕ, ◌≡◌, ◌≢◌, ◌⊎◌, inl, inr, List, [], ◌∷◌, All}
use nfql.Word.{Width, w8, w16, w32, w64}
use nfql.Rule.{rule_in, no_enum, get_enum}
use nfql.Rule.Enum.{find_name-map}
use nfql.Comps.{CompareOp, eq, ne, gt, lt, le, ge, DeltaType, absolute, relative, no_delta}
use nfql.Comps.Allen.{AllenOp}
use nfql.Comps.Aggregate.{
  AggregateOp, static, count, union, min, max, median, mean, stddev, xor, sum, prod, and_bits,
  or_bits,
}
use nfql.Comps.Assign.{rule_of, s1_of, s2_of, delta_of, allen_of}
use nfql.Comps.AssignAggr.{aggregate_rule_of}

abbrev pub compare_name : CompareOp → String
compare_name eq = "RULE_EQ"
compare_name ne = "RULE_NE"
compare_name gt = "RULE_GT"
compare_name lt = "RULE_LT"
compare_name le = "RULE_LE"
compare_name ge = "RULE_GE"

abbrev pub s1_name : Width → String
s1_name w8 = "RULE_S1_8"
s1_name w16 = "RULE_S1_16"
s1_name w32 = "RULE_S1_32"
s1_name w64 = "RULE_S1_64"

abbrev pub s2_name : Width → String
s2_name w8 = "RULE_S2_8"
s2_name w16 = "RULE_S2_16"
s2_name w32 = "RULE_S2_32"
s2_name w64 = "RULE_S2_64"

abbrev pub delta_name : DeltaType → String
delta_name absolute = "RULE_ABS"
delta_name relative = "RULE_REL"
delta_name no_delta = "RULE_NO"

abbrev pub allen_name : AllenOp → String
allen_name AllenOp.bf = "RULE_ALLEN_BF"
allen_name AllenOp.af = "RULE_ALLEN_AF"
allen_name AllenOp.m = "RULE_ALLEN_M"
allen_name AllenOp.mi = "RULE_ALLEN_MI"
allen_name AllenOp.o = "RULE_ALLEN_O"
allen_name AllenOp.oi = "RULE_ALLEN_OI"
allen_name AllenOp.s = "RULE_ALLEN_S"
allen_name AllenOp.si = "RULE_ALLEN_SI"
allen_name AllenOp.d = "RULE_ALLEN_D"
allen_name AllenOp.di = "RULE_ALLEN_DI"
allen_name AllenOp.f = "RULE_ALLEN_F"
allen_name AllenOp.fi = "RULE_ALLEN_FI"
allen_name AllenOp.eq = "RULE_ALLEN_EQ"

abbrev pub aggregate_name : AggregateOp → String
aggregate_name static = "RULE_STATIC"
aggregate_name count = "RULE_COUNT"
aggregate_name union = "RULE_UNION"
aggregate_name min = "RULE_MIN"
aggregate_name max = "RULE_MAX"
aggregate_name median = "RULE_MEDIAN"
aggregate_name mean = "RULE_MEAN"
aggregate_name stddev = "RULE_STDDEV"
aggregate_name xor = "RULE_XOR"
aggregate_name sum = "RULE_SUM"
aggregate_name prod = "RULE_PROD"
aggregate_name and_bits = "RULE_AND"
aggregate_name or_bits = "RULE_OR"

-- A rule of a query, by what the program does with it.
pub data Rule : Type 0 where
  compares : CompareOp → Rule
  left_is : Width → Rule
  right_is : Width → Rule
  delta_is : DeltaType → Rule
  aggregates : AggregateOp → Rule
  is_in : Rule
  relates : AllenOp → Rule

abbrev pub rule_name : Rule → String
rule_name (compares op) = compare_name op
rule_name (left_is w) = s1_name w
rule_name (right_is w) = s2_name w
rule_name (delta_is dtype) = delta_name dtype
rule_name (aggregates op) = aggregate_name op
rule_name is_in = "RULE_IN"
rule_name (relates op) = allen_name op

-- The constant by which the switches know it.
abbrev pub label_of : Rule → ℕ
label_of (compares op) = rule_of op
label_of (left_is w) = s1_of w
label_of (right_is w) = s2_of w
label_of (delta_is dtype) = delta_of dtype
label_of (aggregates op) = aggregate_rule_of op
label_of is_in = rule_in
label_of (relates op) = allen_of op

abbrev rules : List Rule
rules =
    right_is w8
    ∷ right_is w16
    ∷ right_is w32
    ∷ right_is w64
    ∷ left_is w8
    ∷ left_is w16
    ∷ left_is w32
    ∷ left_is w64
    ∷ delta_is absolute
    ∷ delta_is relative
    ∷ delta_is no_delta
    ∷ compares eq
    ∷ compares ne
    ∷ compares gt
    ∷ compares lt
    ∷ compares le
    ∷ compares ge
    ∷ aggregates static
    ∷ aggregates count
    ∷ aggregates union
    ∷ aggregates min
    ∷ aggregates max
    ∷ aggregates median
    ∷ aggregates mean
    ∷ aggregates stddev
    ∷ aggregates xor
    ∷ aggregates sum
    ∷ aggregates prod
    ∷ aggregates and_bits
    ∷ aggregates or_bits
    ∷ is_in
    ∷ relates AllenOp.bf
    ∷ relates AllenOp.af
    ∷ relates AllenOp.m
    ∷ relates AllenOp.mi
    ∷ relates AllenOp.o
    ∷ relates AllenOp.oi
    ∷ relates AllenOp.s
    ∷ relates AllenOp.si
    ∷ relates AllenOp.d
    ∷ relates AllenOp.di
    ∷ relates AllenOp.f
    ∷ relates AllenOp.fi
    ∷ relates AllenOp.eq
    ∷ []

every_rule : (P : Rule → Type 0) → All P rules → (r : Rule) → P r
every_rule P h (compares eq) = search (h)
every_rule P h (compares op) = search (h)
every_rule P h (left_is w8) = search (h)
every_rule P h (left_is w) = search (h)
every_rule P h (right_is w8) = search (h)
every_rule P h (right_is w) = search (h)
every_rule P h (delta_is absolute) = search (h)
every_rule P h (delta_is dtype) = search (h)
every_rule P h (aggregates static) = search (h)
every_rule P h (aggregates op) = search (h)
every_rule P h is_in = search (h)
every_rule P h (relates AllenOp.bf) = search (h)
every_rule P h (relates op) = search (h)

-- The name of a rule gives the constant by which the switches know it, and a name of no rule gives
-- -1.
pub get_enum_lem :
    (name : String)
    → ((r : Rule) × (name ≡ rule_name r) × (get_enum name ≡ label_of r))
      ⊎ (((r : Rule) → name ≢ rule_name r) × (get_enum name ≡ no_enum))
unfolding get_enum
get_enum_lem name = elim (find_name-map rule_name label_of name rules) [
  | inl known ↦ inl known
  | inr (others, answer) ↦ inr (every_rule (λ r. name ≢ rule_name r) others, answer)
]
