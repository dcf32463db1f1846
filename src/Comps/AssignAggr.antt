-- ===== src/Comps/AssignAggr.antt =====
-- scripts/generate-functions.py: the switches over the aggregation functions and over the
-- comparisons of `qsort_r`, written to auto-assign.c.
use Prim.Native.Nat.{bit_or}
use nfql.Prelude.{ℕ, List, [], ◌∷◌, Option, find_case, for_each}
use nfql.Word.{Width}
use nfql.Rule.{
  rule_static, rule_count, rule_union, rule_min, rule_max, rule_median, rule_mean, rule_stddev,
  rule_xor, rule_sum, rule_prod, rule_and, rule_or,
}
use nfql.Pipeline.{AggrFunc, AggrTerm}
use nfql.Libc.{Libc}
use nfql.Comps.Aggregate.{
  AggregateOp, static, count, union, min, max, median, mean, stddev, xor, sum, prod, and_bits,
  or_bits, aggr_func,
}
use nfql.Comps.Assign.{widths, s1_of, s2_of, reassign}

abbrev pub aggregate_rule_of : AggregateOp → ℕ
aggregate_rule_of static = rule_static
aggregate_rule_of count = rule_count
aggregate_rule_of union = rule_union
aggregate_rule_of min = rule_min
aggregate_rule_of max = rule_max
aggregate_rule_of median = rule_median
aggregate_rule_of mean = rule_mean
aggregate_rule_of stddev = rule_stddev
aggregate_rule_of xor = rule_xor
aggregate_rule_of sum = rule_sum
aggregate_rule_of prod = rule_prod
aggregate_rule_of and_bits = rule_and
aggregate_rule_of or_bits = rule_or

abbrev aggregate_ops : List AggregateOp
aggregate_ops =
    static ∷ count ∷ union ∷ min ∷ max ∷ median ∷ mean ∷ stddev ∷ xor ∷ sum ∷ prod ∷ and_bits
    ∷ or_bits ∷ []

module _ (libc : Libc) where
  unfoldable pub aggr_cases : ℕ → Option AggrFunc
  unfolding aggr_func
  aggr_cases label = find_case label (
      for_each aggregate_ops λ op.
        for_each widths λ w. (bit_or (aggregate_rule_of op) (s1_of w), aggr_func libc op w) ∷ [])

  unfoldable pub assign_aggr_func : AggrTerm → AggrTerm
  unfolding aggr_cases
  assign_aggr_func term = record term {
    func = reassign (aggr_cases (bit_or term.op.op term.op.field_type)) term.func;
  }

  -- The static aggregation of a field's type; its two switches, for the filter's terms and for the
  -- grouper's, are the same.
  unfoldable pub get_aggr_fptr : ℕ → Option AggrFunc
  unfolding aggr_func
  get_aggr_fptr op = find_case op (for_each widths λ w. (s1_of w, aggr_func libc static w) ∷ [])

-- The width that `gtype->qsort_comp` compares at; the pointer stays NULL for another type.
unfoldable pub get_gtype : ℕ → Option Width
get_gtype op = find_case op (for_each widths λ w. (s2_of w, w) ∷ [])
