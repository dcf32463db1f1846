-- ===== src/Grouper/Finish.antt =====
-- Filling in the cooked record of a group: `grouper` and `grouper_aggregations` of src/grouper.c.
use nfql.Prelude.{
  ◌≡◌, refl, true, List, [], ◌∷◌, Option, some, ◌==◌, All, Outcome, ok, Bool-cases, inl, inr,
}
use nfql.Word.{Buffer}
use nfql.Pipeline.{AggrFunc, AggrTerm, Branch, FilterTerm, Group, GrouperTerm}
use nfql.Output.{Options}
use nfql.Grouper.Cook.{
  cook_filter_term, cook_grouper_term, cook_terms, cook_clauses, aggregate_terms,
  grouper_aggregations, finish_group, keep_common, if_ignore_aggr_term,
}

-- The pointer is not NULL.
abbrev pub IsPresent {ℓ} : {A : Type ℓ} → Option A → Type ℓ
IsPresent {A = A} o = (a : A) × (o ≡ some a)

abbrev pub Succeeds {ℓ} : {A : Type ℓ} → Outcome A → Type ℓ
Succeeds {A = A} o = (a : A) × (o ≡ ok a)

-- The aggregation functions of a branch's terms are assigned.
pub record IsAggregable (options : Options) (branch : Branch) : Type 0 where
  pub filter_set :
      All (All λ term. IsPresent (FilterTerm.aggr_function term)) branch.filter_clauseset
  pub grouper_set :
      All (All λ term. IsPresent (GrouperTerm.aggr_function term)) branch.grouper_clauseset
  pub aggr_set :
      options.groupaggregations_enabled ≡ true
      → All (λ term. IsPresent (AggrTerm.func term)) branch.aggr_clause_termset

keep_common-Succeeds :
    (function : Option AggrFunc) (members : List Buffer) (field_offset : _) (rec : Buffer)
    → IsPresent function
    → Succeeds (keep_common function members field_offset rec)
unfolding keep_common
keep_common-Succeeds function members field_offset rec (f, e) =
    ((f members rec field_offset true).1, rw e refl)

cook_filter_term-Succeeds :
    (members : List Buffer) (term : FilterTerm) (rec : Buffer)
    → IsPresent term.aggr_function
    → Succeeds (cook_filter_term members term rec)
unfolding cook_filter_term
cook_filter_term-Succeeds members term rec h =
    keep_common-Succeeds term.aggr_function members term.field_offset rec h

cook_grouper_term-Succeeds :
    (members : List Buffer) (term : GrouperTerm) (rec : Buffer)
    → IsPresent term.aggr_function
    → Succeeds (cook_grouper_term members term rec)
unfolding cook_grouper_term
cook_grouper_term-Succeeds members term rec h =
    elim (Bool-cases (term.field_offset1 == term.field_offset2)) [
      | inl same ↦
          rw same (keep_common-Succeeds term.aggr_function members term.field_offset2 rec h)
      | inr other ↦
          let (left, e) =
            keep_common-Succeeds term.aggr_function members term.field_offset1 rec h in
          rw (other, e) (keep_common-Succeeds term.aggr_function members term.field_offset2 left h)
    ]

module _ {T : Type 0} (cook : T → Buffer → Outcome Buffer) (P : T → Type 0)
    (total : (term : T) (rec : Buffer) → P term → Succeeds (cook term rec)) where
  cook_terms-Succeeds :
      (terms : List T) (rec : Buffer) → All P terms → Succeeds (cook_terms cook terms rec)
  unfolding cook_terms
  cook_terms-Succeeds [] rec h = (rec, refl)
  cook_terms-Succeeds (term ∷ terms) rec h =
      let (written, e) = total term rec h.0 in rw e (cook_terms-Succeeds terms written h.1)

  cook_clauses-Succeeds :
      (clauses : List (List T)) (rec : Buffer)
      → All (All P) clauses
      → Succeeds (cook_clauses cook clauses rec)
  unfolding cook_clauses
  cook_clauses-Succeeds [] rec h = (rec, refl)
  cook_clauses-Succeeds (clause ∷ clauses) rec h =
      let (written, e) = cook_terms-Succeeds clause rec h.0 in
      rw e (cook_clauses-Succeeds clauses written h.1)

aggregate_terms-Succeeds :
    (branch : Branch) (members : List Buffer) (terms : List AggrTerm) (rec : Buffer)
    → All (λ term. IsPresent (AggrTerm.func term)) terms
    → Succeeds (aggregate_terms branch members terms rec)
unfolding aggregate_terms
aggregate_terms-Succeeds branch members [] rec h = (([], rec), refl)
aggregate_terms-Succeeds branch members (term ∷ terms) rec h =
    let (func, assigned) = h.0 in
    let one =
      func members rec term.field_offset
        (if_ignore_aggr_term branch.filter_clauseset branch.grouper_clauseset term.field_offset) in
    let (rest, run) = aggregate_terms-Succeeds branch members terms one.1 h.1 in
    ((one.0 ∷ rest.0, rest.1), rw (assigned, run) refl)

-- The finished group has the members and the time span of the group that it is made of.
pub record Finished (options : Options) (branch : Branch) (group : Group) : Type 0 where
  pub result : Group
  pub run : finish_group options branch group ≡ ok result
  pub members : result.members ≡ group.members
  pub start_ts :
      result.aggr_result.aggr_record.start_ts_msec ≡ group.aggr_result.aggr_record.start_ts_msec
  pub end_ts :
      result.aggr_result.aggr_record.end_ts_msec ≡ group.aggr_result.aggr_record.end_ts_msec

pub finish_group_lem :
    (options : Options) (branch : Branch) (group : Group)
    → IsAggregable options branch
    → Finished options branch group
unfolding finish_group
finish_group_lem options branch group h =
    let (filtered, filtered_run) =
      cook_clauses-Succeeds (cook_filter_term group.members) _
        (cook_filter_term-Succeeds group.members) branch.filter_clauseset
        (group.aggr_result.aggr_record.aggr_record) h.filter_set in
    let (grouped, grouped_run) =
      cook_clauses-Succeeds (cook_grouper_term group.members) _
        (cook_grouper_term-Succeeds group.members) branch.grouper_clauseset filtered
        h.grouper_set in
    elim (Bool-cases options.groupaggregations_enabled) [
      | inl on ↦
          let (done, done_run) =
            aggregate_terms-Succeeds branch group.members branch.aggr_clause_termset grouped
              (h.aggr_set on) in
          record {
            result = record {
              members = group.members;
              aggr_result = record {
                aggr_record = record group.aggr_result.aggr_record { aggr_record = done.1 };
                aggrset = done.0;
              };
            };
            run = rw (filtered_run, grouped_run, on, grouper_aggregations, done_run) refl;
            members = refl;
            start_ts = refl;
            end_ts = refl;
          }
      | inr off ↦ record {
        result = record {
          members = group.members;
          aggr_result = record {
            aggr_record = record group.aggr_result.aggr_record { aggr_record = grouped };
            aggrset = group.aggr_result.aggrset;
          };
        };
        run = rw (filtered_run, grouped_run, off) refl;
        members = refl;
        start_ts = refl;
        end_ts = refl;
      }
    ]
