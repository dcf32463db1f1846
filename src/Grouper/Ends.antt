-- ===== src/Grouper/Ends.antt =====
-- The loops of src/grouper.c come to their ends: the fuel of `group_records` is enough, whatever the
-- clauses, and whether their functions are found or not.
use nfql.Prelude.{
  ℕ, suc, ◌+◌, ◌≤◌, inl, inr, Bool, List, [], ◌∷◌, ◌++◌, Option, none, some, Outcome, length, arith,
  Bool-cases, Option-cases, ltb,
}
use nfql.Prelude.Ends.{EndsIn, Ends, EndsIn-cases, EndsIn-weaken}
use nfql.Word.{Buffer}
use nfql.Io.{IoHandler}
use nfql.Dnf.{call, scan_terms}
use nfql.Pipeline.{Branch, Group, FilterTerm, AggrTerm, AggrResult, GrouperTerm, GrouperClause}
use nfql.Grouper.{grouper_test, add_member, grow_group}
use nfql.Grouper.Cook.{
  cook_terms, cook_clauses, cook_filter_term, cook_grouper_term, keep_common, aggregate_terms,
  if_ignore_aggr_term, grouper_aggregations,
}

pub scan_terms-Ends :
    {T : Type 0} (test : T → Outcome Bool)
    → ((t : T) → Ends (test t))
    → (j : ℕ) (terms : List T) → Ends (scan_terms test j terms)
unfolding scan_terms
scan_terms-Ends test h j [] = tt
scan_terms-Ends test h j (term ∷ terms) =
    let one = h term in let rest = scan_terms-Ends test h (j + 1) terms in ground arith

pub call-Ends : {F A : Type 0} (func : Option F) (body : F → A) → Ends (call func body)
call-Ends none body = λ e. cc
call-Ends (some f) body = tt

grouper_test-Ends :
    (group : Group) (item : Buffer) (term : GrouperTerm) → Ends (grouper_test group item term)
unfolding grouper_test
grouper_test-Ends group item term = call-Ends term.func _

-- The loop over a group's members leaves no more records than there were.
module _ (io : IoHandler) (gclause : GrouperClause) where
  pub grow_group-EndsIn :
      (group : Group) (written items : List Buffer)
      → EndsIn (λ grown. length grown.2 ≤ length items) (grow_group io gclause group written items)
  unfolding grow_group
  grow_group-EndsIn group written [] = omega arith
  grow_group-EndsIn group written (item ∷ items) =
      let scanned =
        scan_terms-Ends (grouper_test group item) (grouper_test-Ends group item) 0 gclause in
      let more = grow_group-EndsIn (add_member io group item) (written ++ item ∷ []) items in
      elim (EndsIn-cases (λ _. Unit) (scan_terms (grouper_test group item) 0 gclause) scanned) [
        | inr (f, e, n) ↦ rw e n
        | inl (k, e, _) ↦ elim (Bool-cases (ltb k (length gclause))) [
          | inl stop ↦ rw (e, stop) (omega arith)
          | inr go_on ↦
              rw (e, go_on)
                (EndsIn-weaken (λ grown. length grown.2 ≤ length items)
                  (λ grown. length grown.2 ≤ suc (length items))
                  (grow_group io gclause (add_member io group item) (written ++ item ∷ []) items)
                  (λ grown le. omega (arith, le)) more)
        ]
      ]

cook_terms-Ends :
    {T : Type 0} (cook : T → Buffer → Outcome Buffer)
    → ((t : T) (b : Buffer) → Ends (cook t b))
    → (terms : List T) (aggr_record : Buffer) → Ends (cook_terms cook terms aggr_record)
unfolding cook_terms
cook_terms-Ends cook h [] aggr_record = tt
cook_terms-Ends cook h (term ∷ terms) aggr_record =
    elim (EndsIn-cases (λ _. Unit) (cook term aggr_record) (h term aggr_record)) [
      | inr (f, e, n) ↦ rw e n
      | inl (b, e, _) ↦ rw e (cook_terms-Ends cook h terms b)
    ]

pub cook_clauses-Ends :
    {T : Type 0} (cook : T → Buffer → Outcome Buffer)
    → ((t : T) (b : Buffer) → Ends (cook t b))
    → (clauses : List (List T)) (aggr_record : Buffer)
    → Ends (cook_clauses cook clauses aggr_record)
unfolding cook_clauses
cook_clauses-Ends cook h [] aggr_record = tt
cook_clauses-Ends cook h (clause ∷ clauses) aggr_record =
    elim (EndsIn-cases (λ _. Unit) (cook_terms cook clause aggr_record)
      (cook_terms-Ends cook h clause aggr_record)) [
        | inr (f, e, n) ↦ rw e n
        | inl (b, e, _) ↦ rw e (cook_clauses-Ends cook h clauses b)
      ]

pub cook_filter_term-Ends :
    (members : List Buffer) (term : FilterTerm) (b : Buffer)
    → Ends (cook_filter_term members term b)
unfolding cook_filter_term keep_common
cook_filter_term-Ends members term b = call-Ends term.aggr_function _

pub cook_grouper_term-Ends :
    (members : List Buffer) (term : GrouperTerm) (b : Buffer)
    → Ends (cook_grouper_term members term b)
unfolding cook_grouper_term keep_common
cook_grouper_term-Ends members term b = elim (Option-cases term.aggr_function) [
  | inl e ↦ rw e (ground arith)
  | inr (f, e) ↦ rw e (ground arith)
]

aggregate_terms-Ends :
    (branch : Branch) (members : List Buffer) (terms : List AggrTerm) (aggr_record : Buffer)
    → Ends (aggregate_terms branch members terms aggr_record)
unfolding aggregate_terms
aggregate_terms-Ends branch members [] aggr_record = tt
aggregate_terms-Ends branch members (term ∷ terms) aggr_record = elim (Option-cases term.func) [
  | inl e ↦ rw e (λ k. cc)
  | inr (f, e) ↦
      let ignored =
        if_ignore_aggr_term branch.filter_clauseset branch.grouper_clauseset term.field_offset in
      let one = f members aggr_record term.field_offset ignored in
      elim (EndsIn-cases (λ _. Unit) (aggregate_terms branch members terms (one.1))
        (aggregate_terms-Ends branch members terms (one.1))) [
          | inr (fault, e', n) ↦ rw (e, e') n
          | inl (rest, e', _) ↦ rw (e, e') tt
        ]
]

pub grouper_aggregations-Ends :
    (branch : Branch) (members : List Buffer) (aresult : AggrResult)
    → Ends (grouper_aggregations branch members aresult)
unfolding grouper_aggregations
grouper_aggregations-Ends branch members aresult =
    let start = aresult.aggr_record.aggr_record in
    elim (EndsIn-cases (λ _. Unit) (aggregate_terms branch members branch.aggr_clause_termset start)
      (aggregate_terms-Ends branch members branch.aggr_clause_termset start)) [
        | inr (f, e, n) ↦ rw e n
        | inl (r, e, _) ↦ rw e tt
      ]
