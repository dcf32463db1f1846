-- ===== src/Grouper/Cook.antt =====
-- src/grouper.c: how a group's cooked record is filled in: the fields that the filter and the
-- grouper have in common, and `grouper_aggregations`.
use nfql.Prelude.{
  ℕ, Bool, true, ◌||◌, List, [], ◌∷◌, Option, ◌==◌, if◌then◌else◌, any, Outcome, ok, ◌>>=◌,
}
use nfql.Word.{Buffer}
use nfql.Dnf.{call}
use nfql.Pipeline.{
  Aggr, AggrFunc, AggrResult, AggrTerm, Branch, FilterClause, FilterTerm, Group, GrouperClause,
  GrouperTerm,
}
use nfql.Output.{Options}

-- A call of `term->aggr_function` with `if_aggr_common`, of which only the write to the cooked
-- record remains.
unfoldable pub keep_common : Option AggrFunc → List Buffer → ℕ → Buffer → Outcome Buffer
keep_common aggr_function members field_offset aggr_record =
    call aggr_function (λ function. (function members aggr_record field_offset true).1)

unfoldable pub cook_filter_term : List Buffer → FilterTerm → Buffer → Outcome Buffer
unfolding keep_common
cook_filter_term members term aggr_record =
    keep_common term.aggr_function members term.field_offset aggr_record

-- The left field, if it is another one, and the right field.
unfoldable pub cook_grouper_term : List Buffer → GrouperTerm → Buffer → Outcome Buffer
unfolding keep_common
cook_grouper_term members term aggr_record = do
  left ←
      (if term.field_offset1 == term.field_offset2
        then ok aggr_record
        else keep_common term.aggr_function members term.field_offset1 aggr_record)
  keep_common term.aggr_function members term.field_offset2 left

module _ {T : Type 0} (cook : T → Buffer → Outcome Buffer) where
  unfoldable pub cook_terms : List T → Buffer → Outcome Buffer
  cook_terms [] aggr_record = ok aggr_record
  cook_terms (term ∷ terms) aggr_record = do
    written ← cook term aggr_record
    cook_terms terms written

  unfoldable pub cook_clauses : List (List T) → Buffer → Outcome Buffer
  unfolding cook_terms
  cook_clauses [] aggr_record = ok aggr_record
  cook_clauses (clause ∷ clauses) aggr_record = do
    written ← cook_terms clause aggr_record
    cook_clauses clauses written

-- A field that some filter term or some grouper term reads.
unfoldable pub if_ignore_aggr_term : List FilterClause → List GrouperClause → ℕ → Bool
if_ignore_aggr_term filter_clauseset grouper_clauseset aggr_offset =
    any (any λ (term : FilterTerm). aggr_offset == term.field_offset) filter_clauseset
    || any
        (any λ (term : GrouperTerm).
          aggr_offset == term.field_offset1 || aggr_offset == term.field_offset2)
        grouper_clauseset

module _ (branch : Branch) (members : List Buffer) where
  -- The loop over the aggregation terms, with the cooked record that they write to.
  unfoldable pub aggregate_terms : List AggrTerm → Buffer → Outcome (List Aggr × Buffer)
  unfolding if_ignore_aggr_term
  aggregate_terms [] aggr_record = ok ([], aggr_record)
  aggregate_terms (term ∷ terms) aggr_record = do
    one ← call term.func (λ func.
        func members aggr_record term.field_offset
          (if_ignore_aggr_term branch.filter_clauseset branch.grouper_clauseset term.field_offset))
    rest ← aggregate_terms terms one.1
    ok (one.0 ∷ rest.0, rest.1)

  unfoldable pub grouper_aggregations : AggrResult → Outcome AggrResult
  unfolding aggregate_terms
  grouper_aggregations aresult = do
    aggregated ← aggregate_terms branch.aggr_clause_termset aresult.aggr_record.aggr_record
    ok (record {
      aggr_record = record aresult.aggr_record { aggr_record = aggregated.1 };
      aggrset = aggregated.0;
    })

-- What follows the loop over a group's members.
unfoldable pub finish_group : Options → Branch → Group → Outcome Group
unfolding cook_filter_term cook_grouper_term cook_clauses grouper_aggregations
finish_group options branch group = do
  let span = group.aggr_result.aggr_record
  filtered ← cook_clauses (cook_filter_term group.members) branch.filter_clauseset span.aggr_record
  grouped ← cook_clauses (cook_grouper_term group.members) branch.grouper_clauseset filtered
  let aresult : AggrResult = record {
    aggr_record = record span { aggr_record = grouped };
    aggrset = group.aggr_result.aggrset;
  }
  aggregated ←
      (if options.groupaggregations_enabled
        then grouper_aggregations branch group.members aresult
        else ok aresult)
  ok (record { members = group.members; aggr_result = aggregated })
