-- ===== src/Comps/Assign.antt =====
-- scripts/generate-functions.py: the dispatch switches that it writes to auto-assign.c. Each case
-- label is the bitwise or of a query term's rule constants; no case leaves the pointer as it was.
use Prim.Native.Nat.{bit_or}
use nfql.Prelude.{ℕ, List, [], ◌∷◌, ◌++◌, Option, none, some, map, find_case, for_each}
use nfql.Word.{Width, w8, w16, w32, w64}
use nfql.Rule.{
  rule_s1_8, rule_s1_16, rule_s1_32, rule_s1_64, rule_s2_8, rule_s2_16, rule_s2_32, rule_s2_64,
  rule_abs, rule_rel, rule_no, rule_eq, rule_ne, rule_gt, rule_lt, rule_le, rule_ge, rule_in,
  rule_allen_bf, rule_allen_af, rule_allen_m, rule_allen_mi, rule_allen_o, rule_allen_oi,
  rule_allen_s, rule_allen_si, rule_allen_d, rule_allen_di, rule_allen_f, rule_allen_fi,
  rule_allen_eq,
}
use nfql.Pipeline.{
  FilterFunc, GrouperFunc, GroupfilterFunc, MergerFunc, FilterTerm, GrouperTerm, GroupfilterTerm,
  MergerTerm,
}
use nfql.Comps.{
  CompareOp, eq, ne, lt, gt, le, ge, DeltaType, absolute, relative, no_delta, filter_func,
  grouper_func, gfilter_func, merger_func, merger_in,
}
use nfql.Comps.Allen.{AllenOp, allen_func}

abbrev pub rule_of : CompareOp → ℕ
rule_of eq = rule_eq
rule_of ne = rule_ne
rule_of gt = rule_gt
rule_of lt = rule_lt
rule_of le = rule_le
rule_of ge = rule_ge

abbrev pub s1_of : Width → ℕ
s1_of w8 = rule_s1_8
s1_of w16 = rule_s1_16
s1_of w32 = rule_s1_32
s1_of w64 = rule_s1_64

abbrev pub s2_of : Width → ℕ
s2_of w8 = rule_s2_8
s2_of w16 = rule_s2_16
s2_of w32 = rule_s2_32
s2_of w64 = rule_s2_64

abbrev pub delta_of : DeltaType → ℕ
delta_of absolute = rule_abs
delta_of relative = rule_rel
delta_of no_delta = rule_no

abbrev pub allen_of : AllenOp → ℕ
allen_of AllenOp.bf = rule_allen_bf
allen_of AllenOp.af = rule_allen_af
allen_of AllenOp.m = rule_allen_m
allen_of AllenOp.mi = rule_allen_mi
allen_of AllenOp.o = rule_allen_o
allen_of AllenOp.oi = rule_allen_oi
allen_of AllenOp.s = rule_allen_s
allen_of AllenOp.si = rule_allen_si
allen_of AllenOp.d = rule_allen_d
allen_of AllenOp.di = rule_allen_di
allen_of AllenOp.f = rule_allen_f
allen_of AllenOp.fi = rule_allen_fi
allen_of AllenOp.eq = rule_allen_eq

abbrev compare_ops : List CompareOp
compare_ops = eq ∷ ne ∷ gt ∷ lt ∷ le ∷ ge ∷ []

abbrev pub widths : List Width
widths = w8 ∷ w16 ∷ w32 ∷ w64 ∷ []

abbrev delta_types : List DeltaType
delta_types = absolute ∷ relative ∷ no_delta ∷ []

abbrev allen_ops : List AllenOp
allen_ops =
    AllenOp.bf ∷ AllenOp.af ∷ AllenOp.m ∷ AllenOp.mi ∷ AllenOp.o ∷ AllenOp.oi ∷ AllenOp.s
    ∷ AllenOp.si ∷ AllenOp.d ∷ AllenOp.di ∷ AllenOp.f ∷ AllenOp.fi ∷ AllenOp.eq ∷ []

-- The cases of the switch over `op | field_type`.
abbrev unary_cases {ℓ} : {F : Type ℓ} → (CompareOp → Width → F) → List (ℕ × F)
unary_cases func =
    for_each compare_ops λ op. for_each widths λ w. (bit_or (rule_of op) (s1_of w), func op w) ∷ []

unfoldable pub filter_cases : ℕ → Option FilterFunc
filter_cases label = find_case label (unary_cases filter_func)

unfoldable pub groupfilter_cases : ℕ → Option GroupfilterFunc
groupfilter_cases label = find_case label (unary_cases gfilter_func)

unfoldable pub grouper_cases : ℕ → Option GrouperFunc
grouper_cases label = find_case label (
    for_each compare_ops λ op. for_each widths λ w1. for_each widths λ w2.
      for_each delta_types λ dtype.
        (
          bit_or (bit_or (bit_or (rule_of op) (s1_of w1)) (s2_of w2)) (delta_of dtype),
          grouper_func op w1 w2 dtype,
        )
        ∷ [])

abbrev compare_cases : List (ℕ × MergerFunc)
compare_cases = for_each compare_ops λ op. for_each widths λ w1.
    for_each widths
      λ w2. (bit_or (bit_or (rule_of op) (s1_of w1)) (s2_of w2), merger_func op w1 w2) ∷ []

abbrev in_cases : List (ℕ × MergerFunc)
in_cases = for_each widths λ w1.
    for_each widths λ w2. (bit_or (bit_or rule_in (s1_of w1)) (s2_of w2), merger_in w1 w2) ∷ []

unfoldable pub merger_cases : ℕ → Option MergerFunc
merger_cases label =
    find_case label
      (compare_cases ++ in_cases ++ map (λ op. (allen_of op, allen_func op)) allen_ops)

-- `func = ...; break;` in the case that matches.
abbrev pub reassign {ℓ} : {F : Type ℓ} → Option F → Option F → Option F
reassign none old = old
reassign (some f) old = some f

unfoldable pub assign_filter_func : FilterTerm → FilterTerm
unfolding filter_cases
assign_filter_func term = record term {
  func = reassign (filter_cases (bit_or term.op.op term.op.field_type)) term.func;
}

unfoldable pub assign_groupfilter_func : GroupfilterTerm → GroupfilterTerm
unfolding groupfilter_cases
assign_groupfilter_func term = record term {
  func = reassign (groupfilter_cases (bit_or term.op.op term.op.field_type)) term.func;
}

unfoldable pub assign_grouper_func : GrouperTerm → GrouperTerm
unfolding grouper_cases
assign_grouper_func term = record term {
  func =
      reassign
        (grouper_cases (
          bit_or (bit_or (bit_or term.op.op term.op.field1_type) term.op.field2_type)
            term.op.optype))
        term.func;
}

unfoldable pub assign_merger_func : MergerTerm → MergerTerm
unfolding merger_cases
assign_merger_func term = record term {
  func =
      reassign (merger_cases (bit_or (bit_or term.op.op term.op.field1_type) term.op.field2_type))
        term.func;
}
