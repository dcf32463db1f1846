-- ===== src/Grouper/Assigned.antt =====
-- The functions that `grouper` of src/grouper.c assigns to a branch's terms before it groups.
use Prim.Native.Nat.{bit_or}
use nfql.Prelude.{
  ◌≡◌, refl, List, [], ◌∷◌, map, All, map-All, if◌then◌else◌, Outcome, ok, map_outcome,
}
use nfql.Libc.{Libc}
use nfql.Output.{Options}
use nfql.Pipeline.{AggrTerm, Branch, FilterTerm, GrouperTerm}
use nfql.Comps.Assign.{assign_grouper_func, grouper_cases}
use nfql.Comps.AssignAggr.{assign_aggr_func, aggr_cases, get_aggr_fptr}
use nfql.Grouper.{assign_filter_aggr, assign_grouper_aggr, assign_functions}
use nfql.Grouper.Finish.{IsPresent, IsAggregable}
use nfql.Grouper.Growth.{HasFunc}
use nfql.Grouper.Sort.Order.{HasGtype}

map_outcome-ok {ℓ κ μ} :
    {A : Type ℓ} {B : Type κ} {P : A → Type μ} (f : A → Outcome B) (g : A → B)
    → ((x : A) → P x → f x ≡ ok (g x))
    → (xs : List A) → All P xs
    → map_outcome f xs ≡ ok (map g xs)
map_outcome-ok f g h [] a = refl
map_outcome-ok f g h (x ∷ xs) a = rw (h x a.0, map_outcome-ok f g h xs a.1) refl

module _ (libc : Libc) (options : Options) where
  -- The types and operations of the branch's terms are among the cases of the switches.
  abbrev pub FilterTyped : FilterTerm → Type 0
  FilterTyped term = IsPresent (get_aggr_fptr libc term.op.field_type)

  abbrev pub GrouperTyped : GrouperTerm → Type 0
  GrouperTyped term =
      IsPresent (get_aggr_fptr libc term.op.field1_type)
      × IsPresent (
          grouper_cases (
            bit_or (bit_or (bit_or term.op.op term.op.field1_type) term.op.field2_type)
              term.op.optype))
      × HasGtype term

  abbrev pub AggrTyped : AggrTerm → Type 0
  AggrTyped term = IsPresent (aggr_cases libc (bit_or term.op.op term.op.field_type))

  pub record IsTyped (branch : Branch) : Type 0 where
    pub filter_typed : All (All FilterTyped) branch.filter_clauseset
    pub grouper_typed : All (All GrouperTyped) branch.grouper_clauseset
    pub aggr_typed : All AggrTyped branch.aggr_clause_termset

  abbrev pub with_filter_aggr : FilterTerm → FilterTerm
  with_filter_aggr term = record term { aggr_function = get_aggr_fptr libc term.op.field_type }

  abbrev pub with_grouper_aggr : GrouperTerm → GrouperTerm
  with_grouper_aggr term = record term { aggr_function = get_aggr_fptr libc term.op.field1_type }

  abbrev pub with_grouper_funcs : GrouperTerm → GrouperTerm
  with_grouper_funcs term = assign_grouper_func (with_grouper_aggr term)

  abbrev pub with_functions : Branch → Branch
  with_functions branch = record branch {
    filter_clauseset = map (map with_filter_aggr) branch.filter_clauseset;
    grouper_clauseset =
        map (map assign_grouper_func) (map (map with_grouper_aggr) branch.grouper_clauseset);
    aggr_clause_termset =
        if options.groupaggregations_enabled
        then map (assign_aggr_func libc) branch.aggr_clause_termset
        else branch.aggr_clause_termset;
  }

  filter_aggr_lem :
      (term : FilterTerm)
      → FilterTyped term
      → assign_filter_aggr libc options term ≡ ok (with_filter_aggr term)
  unfolding assign_filter_aggr
  filter_aggr_lem term (f, e) = rw (assign_filter_aggr, e) refl

  grouper_aggr_lem :
      (term : GrouperTerm)
      → GrouperTyped term
      → assign_grouper_aggr libc options term ≡ ok (with_grouper_aggr term)
  unfolding assign_grouper_aggr
  grouper_aggr_lem term ((f, e), cases, gtype) = rw (assign_grouper_aggr, e) refl

  pub assign_functions_lem :
      (branch : Branch)
      → IsTyped branch
      → assign_functions libc options branch ≡ ok (with_functions branch)
  unfolding assign_functions
  assign_functions_lem branch h =
      rw
        (
          map_outcome-ok (map_outcome (assign_filter_aggr libc options)) (map with_filter_aggr)
              (map_outcome-ok (assign_filter_aggr libc options) with_filter_aggr filter_aggr_lem)
              branch.filter_clauseset h.filter_typed,
          map_outcome-ok (map_outcome (assign_grouper_aggr libc options)) (map with_grouper_aggr)
              (map_outcome-ok (assign_grouper_aggr libc options) with_grouper_aggr grouper_aggr_lem)
              branch.grouper_clauseset h.grouper_typed,
        )
        refl

  pub with_functions-HasFunc :
      (term : GrouperTerm) → GrouperTyped term → HasFunc (with_grouper_funcs term)
  unfolding assign_grouper_func
  with_functions-HasFunc term h = record { func = h.1.0; assigned = rw h.1.1 refl }

  pub with_functions-HasGtype :
      (term : GrouperTerm) → GrouperTyped term → HasGtype (with_grouper_funcs term)
  unfolding assign_grouper_func
  with_functions-HasGtype term h = h.2

  -- After the assignment every pointer that the grouping follows is set.
  pub with_functions-IsAggregable :
      (branch : Branch) → IsTyped branch → IsAggregable options (with_functions branch)
  unfolding assign_grouper_func assign_aggr_func
  with_functions-IsAggregable branch h = record {
    filter_set =
        map-All _ (map with_filter_aggr)
          (map-All (λ (t : FilterTerm). IsPresent t.aggr_function) with_filter_aggr (λ term p. p))
          branch.filter_clauseset h.filter_typed;
    grouper_set =
        map-All _ (map assign_grouper_func)
          (map-All (λ (t : GrouperTerm). IsPresent t.aggr_function) assign_grouper_func
            (λ term p. p))
          (map (map with_grouper_aggr) branch.grouper_clauseset)
          (map-All _ (map with_grouper_aggr)
            (map-All (λ (t : GrouperTerm). IsPresent t.aggr_function) with_grouper_aggr
              (λ term p. p.0))
            branch.grouper_clauseset h.grouper_typed);
    aggr_set = λ on. rw on (
        map-All (λ (t : AggrTerm). IsPresent t.func) (assign_aggr_func libc)
          (λ term p. (p.0, rw p.1 refl)) branch.aggr_clause_termset h.aggr_typed);
  }
