-- ===== src/Grouper/Termination.antt =====
-- `grouper` of src/grouper.c comes to its end on every branch.
use nfql.Prelude.{
  ℕ, zero, suc, ◌≤◌, ◌<◌, inl, inr, List, [], ◌∷◌, ◌++◌, Option, none, some, Outcome, length, arith,
  Bool-cases, Option-cases, map, deref, ◌>>=◌,
}
use nfql.Prelude.Ints.{ℤ}
use nfql.Prelude.Ends.{Ends, EndsIn-cases, Ends-map_outcome}
use nfql.Word.{Buffer, Width}
use nfql.Io.{IoHandler}
use nfql.Libc.{Libc}
use nfql.Pipeline.{Branch, Group, FilterTerm, FilterResult, GrouperTerm, GrouperClause}
use nfql.Output.{Options}
use nfql.Comps.AssignAggr.{get_aggr_fptr, get_gtype}
use nfql.Grouper.{
  new_group, add_members, Grouping, group_records, group_clauses, group_all, make_groups,
  assign_filter_aggr, assign_grouper_aggr, assign_functions, group_filtered, grouper,
}
use nfql.Grouper.Sort.{comp, is_zero, qsort_comp, get_grouper_intermediates}
use nfql.Grouper.Cook.{finish_group, cook_filter_term, cook_grouper_term}
use nfql.Grouper.Ends.{
  grow_group-EndsIn, cook_clauses-Ends, cook_filter_term-Ends, cook_grouper_term-Ends,
  grouper_aggregations-Ends,
}

finish_group-Ends :
    (options : Options) (branch : Branch) (group : Group) → Ends (finish_group options branch group)
unfolding finish_group
finish_group-Ends options branch group =
    let span = group.aggr_result.aggr_record in
    elim (EndsIn-cases (λ _. Unit) _
      (cook_clauses-Ends (cook_filter_term group.members) (cook_filter_term-Ends group.members)
        branch.filter_clauseset span.aggr_record)) [
          | inr (f, e, n) ↦ rw e n
          | inl (b, e, _) ↦
              elim (EndsIn-cases (λ _. Unit) _
                (cook_clauses-Ends (cook_grouper_term group.members)
                  (cook_grouper_term-Ends group.members) branch.grouper_clauseset b)) [
                    | inr (f, e', n) ↦ rw (e, e') n
                    | inl (b', e', _) ↦ elim (Bool-cases options.groupaggregations_enabled) [
                      | inr off ↦ rw (e, e', off) tt
                      | inl on ↦
                          elim (EndsIn-cases (λ _. Unit) _
                            (grouper_aggregations-Ends branch group.members (record {
                              aggr_record = record span { aggr_record = b' };
                              aggrset = group.aggr_result.aggrset;
                            }))) [
                              | inr (f, e'', n) ↦ rw (e, e', on, e'') n
                              | inl (r, e'', _) ↦ rw (e, e', on, e'') tt
                            ]
                    ]
                  ]
        ]

-- One more round than there are records is enough: each takes one at least.
group_records-Ends :
    (io : IoHandler) (options : Options) (branch : Branch) (fuel : ℕ) (gclause : GrouperClause)
    (items : List Buffer) (grouping : Grouping)
    → length items < fuel
    → Ends (group_records io options branch fuel gclause items grouping)
unfolding group_records
group_records-Ends io options branch zero gclause items grouping few = absurd (omega (arith, few))
group_records-Ends io options branch (suc fuel) gclause [] grouping few = tt
group_records-Ends io options branch (suc fuel) gclause (item ∷ items) grouping few =
    elim (EndsIn-cases (λ grown. length grown.2 ≤ length items) _
      (grow_group-EndsIn io gclause (new_group io io.io_read_get_record_size item) [] items)) [
        | inr (f, e, n) ↦ rw e n
        | inl (grown, e, le) ↦
            elim (EndsIn-cases (λ _. Unit) _ (finish_group-Ends options branch (grown.0))) [
              | inr (f, e', n) ↦ rw (e, e') n
              | inl (group, e', _) ↦
                  rw (e, e')
                    (group_records-Ends io options branch fuel gclause (grown.2) _
                      (omega (arith, few, le)))
            ]
      ]

qsort_comp-Ends :
    (termset : List GrouperTerm) (gtypeset : List (Option Width)) (e1 e2 : Buffer)
    → Ends (qsort_comp termset gtypeset e1 e2)
unfolding qsort_comp
qsort_comp-Ends [] gtypeset e1 e2 = tt
qsort_comp-Ends (term ∷ termset) [] e1 e2 = λ e. cc
qsort_comp-Ends (term ∷ termset) (none ∷ gtypeset) e1 e2 = λ e. cc
qsort_comp-Ends (term ∷ termset) (some w ∷ gtypeset) e1 e2 =
    elim (Bool-cases (is_zero (comp w term.field_offset2 e1 e2))) [
      | inl same ↦ rw same (qsort_comp-Ends termset gtypeset e1 e2)
      | inr differs ↦ rw differs tt
    ]

-- `qsort_r` comes to its end if its comparison does.
abbrev pub SortEnds : Libc → Type 0
SortEnds libc =
    (compare : Buffer → Buffer → Outcome ℤ) (xs : List Buffer)
    → ((x y : Buffer) → Ends (compare x y))
    → Ends (libc.qsort_r compare xs)

get_grouper_intermediates-Ends :
    (libc : Libc) (options : Options) (termset : List GrouperTerm) (gtypeset : List (Option Width))
    (records sorted : List Buffer) (branch_id : ℕ)
    → SortEnds libc
    → Ends (get_grouper_intermediates libc options termset gtypeset records sorted branch_id)
unfolding get_grouper_intermediates
get_grouper_intermediates-Ends libc options termset gtypeset records sorted branch_id sorts =
    elim (EndsIn-cases (λ _. Unit) _
      (sorts (qsort_comp termset gtypeset) records (qsort_comp-Ends termset gtypeset))) [
        | inr (f, e, n) ↦ rw e n
        | inl (ys, e, _) ↦ rw e tt
      ]

module _ (io : IoHandler) (options : Options) (branch : Branch) where
  group_clauses-Ends :
      (libc : Libc)
      → SortEnds libc
      → (gclauses : List GrouperClause) (records sorted : List Buffer) (grouping : Grouping)
      → Ends (group_clauses io options branch libc gclauses records sorted grouping)
  unfolding group_clauses
  group_clauses-Ends libc sorts [] records sorted grouping = tt
  group_clauses-Ends libc sorts (gclause ∷ gclauses) records sorted grouping =
      let gtypeset = map (λ (term : GrouperTerm). get_gtype term.op.field2_type) gclause in
      elim (EndsIn-cases (λ _. Unit) _
        (get_grouper_intermediates-Ends libc options gclause gtypeset records sorted
          branch.branch_id sorts)) [
            | inr (f, e, n) ↦ rw e n
            | inl (made, e, _) ↦
                elim (EndsIn-cases (λ _. Unit) _
                  (group_records-Ends io options branch (suc (length made.0)) gclause (made.0)
                    (record { groupset = grouping.groupset; files = grouping.files ++ made.2 })
                    (omega arith))) [
                      | inr (f, e', n) ↦ rw (e, e') n
                      | inl (done, e', _) ↦
                          rw (e, e') (group_clauses-Ends libc sorts gclauses (made.0) (made.1) done)
                    ]
          ]

  group_all-Ends : (records : List Buffer) → Ends (group_all io options branch records)
  unfolding group_all
  group_all-Ends [] = λ e. cc
  group_all-Ends (item ∷ items) =
      elim (EndsIn-cases (λ _. Unit) _
        (finish_group-Ends options branch
          (add_members io (new_group io io.io_read_get_record_size item) items))) [
            | inr (f, e, n) ↦ rw e n
            | inl (group, e, _) ↦ rw e tt
          ]

make_groups-Ends :
    (libc : Libc) (io : IoHandler) (options : Options) (branch : Branch)
    (gclauses : List GrouperClause) (records : List Buffer)
    → SortEnds libc
    → Ends (make_groups libc io options branch gclauses records)
unfolding make_groups
make_groups-Ends libc io options branch [] records sorts =
    elim (EndsIn-cases (λ _. Unit) _ (group_all-Ends io options branch records)) [
      | inr (f, e, n) ↦ rw e n
      | inl (grouping, e, _) ↦ rw e tt
    ]
make_groups-Ends libc io options branch (gclause ∷ gclauses) records sorts =
    group_clauses-Ends io options branch libc sorts (gclause ∷ gclauses) records []
      (record { groupset = []; files = [] })

module _ (libc : Libc) (options : Options) where
  assign_filter_aggr-Ends : (term : FilterTerm) → Ends (assign_filter_aggr libc options term)
  unfolding assign_filter_aggr
  assign_filter_aggr-Ends term = elim (Option-cases (get_aggr_fptr libc term.op.field_type)) [
    | inl e ↦ rw (assign_filter_aggr, e) (λ k. cc)
    | inr (f, e) ↦ rw (assign_filter_aggr, e) tt
  ]

  assign_grouper_aggr-Ends : (term : GrouperTerm) → Ends (assign_grouper_aggr libc options term)
  unfolding assign_grouper_aggr
  assign_grouper_aggr-Ends term = elim (Option-cases (get_aggr_fptr libc term.op.field1_type)) [
    | inl e ↦ rw (assign_grouper_aggr, e) (λ k. cc)
    | inr (f, e) ↦ rw (assign_grouper_aggr, e) tt
  ]

  assign_functions-Ends : (branch : Branch) → Ends (assign_functions libc options branch)
  unfolding assign_functions
  assign_functions-Ends branch =
      elim (EndsIn-cases (λ _. Unit) _
        (Ends-map_outcome _ (Ends-map_outcome _ assign_filter_aggr-Ends) branch.filter_clauseset)) [
          | inr (f, e, n) ↦ rw e n
          | inl (filters, e, _) ↦
              elim (EndsIn-cases (λ _. Unit) _
                (Ends-map_outcome _ (Ends-map_outcome _ assign_grouper_aggr-Ends)
                  branch.grouper_clauseset)) [
                    | inr (f, e', n) ↦ rw (e, e') n
                    | inl (groupers, e', _) ↦ rw (e, e') tt
                  ]
        ]

  group_filtered-Ends :
      (io : IoHandler) (branch : Branch) (records : List Buffer)
      → SortEnds libc
      → Ends (group_filtered libc options io branch records)
  unfolding group_filtered
  group_filtered-Ends io branch [] sorts = tt
  group_filtered-Ends io branch (item ∷ items) sorts =
      elim (EndsIn-cases (λ _. Unit) _ (assign_functions-Ends branch)) [
        | inr (f, e, n) ↦ rw e n
        | inl (assigned, e, _) ↦
            elim (EndsIn-cases (λ _. Unit) _
              (make_groups-Ends libc io options assigned assigned.grouper_clauseset (item ∷ items)
                sorts)) [ inr (f, e', n) ↦ rw (e, e') n | inl (done, e', _) ↦ rw (e, e') tt ]
      ]

  -- The grouper comes to its end on every branch.
  pub grouper-Ends :
      (io : IoHandler) (branch : Branch) → SortEnds libc → Ends (grouper libc options io branch)
  unfolding grouper
  grouper-Ends io branch sorts = from branch.filter_result
    where
      from :
          (result : Option FilterResult)
          → Ends (
              deref result >>= λ (fresult : FilterResult).
              group_filtered libc options io branch fresult.filtered_recordset)
      from none = λ k. cc
      from (some fresult) = group_filtered-Ends io branch fresult.filtered_recordset sorts
