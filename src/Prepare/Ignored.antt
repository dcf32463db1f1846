-- ===== src/Prepare/Ignored.antt =====
-- What `prepare_flowquery` of src/f.c does not look at in a query.
use nfql.Prelude.{
  ℕ, ◌≡◌, refl, inl, inr, List, [], ◌∷◌, map, none, Outcome, ok, map_outcome, length, arith,
}
use nfql.Rule.{rule_names, no_enum, get_enum}
use nfql.Rule.Enum.{IsListed, get_enum_bound}
use nfql.Io.{IoHandler}
use nfql.Output.{Options}
use nfql.Query.{JsonGrouperTerm, JsonMergerTerm, Json}
use nfql.Comps.AssignAggr.{get_gtype}
use nfql.Prepare.{prepare_grouper_term, prepare_merger_term, prepare_merger, prepare_flowquery}
use nfql.Prepare.Known.{GrouperKnown, grouper_term, prepare_grouper_term-Decides}

map_outcome-map {ℓ κ} :
    {A : Type ℓ} {B : Type κ} (f g : A → Outcome B) (h : A → A)
    → ((x : A) → f (h x) ≡ g x)
    → (xs : List A) → map_outcome f (map h xs) ≡ map_outcome g xs
map_outcome-map f g h e [] = refl
map_outcome-map f g h e (x ∷ xs) = rw (e x, map_outcome-map f g h e xs) refl

-- A merger term with another delta.
abbrev pub with_delta : ℕ → JsonMergerTerm → JsonMergerTerm
with_delta delta term = record term { delta = delta }

module _ (io : IoHandler) where
  -- A grouper term whose other names are known is accepted with a second data type that is no rule
  -- constant; its type is then -1, for which the grouper's table of types has no entry.
  pub prepare_grouper_term_unlisted :
      (term : JsonGrouperTerm)
      → GrouperKnown io term
      → ¬ IsListed term.off.f2_datatype rule_names
      → (prepare_grouper_term io term ≡ ok (grouper_term io term))
        × ((grouper_term io term).op.field2_type ≡ no_enum)
        × (get_gtype (grouper_term io term).op.field2_type ≡ none)
  unfolding get_gtype
  prepare_grouper_term_unlisted term known other =
      let accepted = prepare_grouper_term-Decides io term in
      let e = unlisted in (ground arith, e, rw e refl)
    where
      unlisted : get_enum term.off.f2_datatype ≡ no_enum
      unlisted = elim (get_enum_bound term.off.f2_datatype) [
        | inl (listed, _) ↦ absurd (other listed)
        | inr (_, e) ↦ e
      ]

  -- The deltas that the query gives its merger terms have no effect: whatever they are replaced by,
  -- the flow query is the same.
  pub prepare_flowquery-with_delta :
      (options : Options) (q : Json) (delta : ℕ)
      → prepare_flowquery io options
          (record q { merger_clauseset = map (map (with_delta delta)) q.merger_clauseset })
        ≡ prepare_flowquery io options q
  unfolding prepare_flowquery prepare_merger prepare_merger_term
  prepare_flowquery-with_delta options q delta = rw clauses refl
    where
      clauses :
          map_outcome
            (map_outcome (prepare_merger_term io (length q.branchset)))
            (map (map (with_delta delta)) q.merger_clauseset)
          ≡ map_outcome
              (map_outcome (prepare_merger_term io (length q.branchset)))
              q.merger_clauseset
      clauses = map_outcome-map _ _ _ (map_outcome-map _ _ _ (λ t. refl)) q.merger_clauseset
