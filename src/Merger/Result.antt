-- ===== src/Merger/Result.antt =====
-- What `merger` of src/merger.c returns: the choices of one filtered group of each branch that the
-- clauses match, in the order of the branches' groups.
use mathlib.Core.List.{append-nil, append_assoc}
use nfql.Prelude.{
  ℕ, zero, suc, ◌+◌, ◌%◌, ◌^◌, ◌<◌, ◌≡◌, refl, sym, ap, Bool, true, false, ◌&&◌, List, [], ◌∷◌,
  ◌++◌, map, arith, length, keep, if◌then◌else◌, ok, Bool-cases, inl, inr,
}
use nfql.Word.{Buffer}
use nfql.Pipeline.{Branch, Group, MergerClause}
use nfql.Output.{Options}
use nfql.Comps.{cooked}
use nfql.Permut.{PermutIter, iter_next}
use nfql.Permut.Walk.{IsIter, to_come, iter_next_lem}
use nfql.Merger.{
  MergerState, write_tuple, add_tuple, visit_tuple, merger_loop, cooked_records, merger_test,
}
use nfql.Merger.Terms.{first_clause_holds, match_clauses_lem}
use nfql.Merger.Holds.{merger_holds, AllReady, merger_test-All}
use nfql.Merger.Product.{Names, Pairs}

module _ (options : Options) (branches : List Branch) (clauses : List MergerClause)
    (ready : AllReady (length branches) clauses) where
  abbrev pub matches : List Group → Bool
  matches groups = first_clause_holds (merger_holds groups) clauses

  -- The state behind a tuple that names `groups`.
  abbrev pub after_tuple : List Group → MergerState → MergerState
  after_tuple groups state = record {
    index = (state.index + 1) % 2 ^ 32;
    group_tuples = state.group_tuples ++ (if matches groups then groups ∷ [] else []);
    to_be_merged =
        state.to_be_merged
        ++ (if options.verbose_vv && options.file then map cooked groups else []);
  }

  write_tuple_lem :
      (ids : List ℕ) (groups : List Group) (written : List Buffer)
      → Names branches ids groups
      → write_tuple options branches clauses ids written
        ≡ ok (written ++ (if options.verbose_vv && options.file then map cooked groups else []))
  unfolding write_tuple
  write_tuple_lem ids groups written e = elim (Bool-cases (options.verbose_vv && options.file)) [
    | inl on ↦ rw (on, e) refl
    | inr off ↦ rw off (ap ok (sym (append-nil written)))
  ]

  add_tuple_lem :
      (clause : Bool) (ids : List ℕ) (groups : List Group) (tuples : List (List Group))
      → Names branches ids groups
      → add_tuple options branches clauses clause ids tuples
        ≡ ok (tuples ++ (if clause then groups ∷ [] else []))
  unfolding add_tuple
  add_tuple_lem true ids groups tuples e = rw e refl
  add_tuple_lem false ids groups tuples e = ap ok (sym (append-nil tuples))

  visit_tuple_lem :
      (ids : List ℕ) (groups : List Group) (state : MergerState)
      → Names branches ids groups
      → visit_tuple options branches clauses ids state ≡ ok (after_tuple groups state)
  unfolding visit_tuple
  visit_tuple_lem ids groups state e =
      rw
        (
          match_clauses_lem (merger_test branches ids) (merger_holds groups) clauses
              (merger_test-All branches ids groups e clauses ready),
          write_tuple_lem ids groups state.to_be_merged e,
          add_tuple_lem (matches groups) ids groups state.group_tuples e,
        )
        refl

  abbrev pub after_all : List (List Group) → MergerState → MergerState
  after_all [] state = state
  after_all (groups ∷ rows) state = after_all rows (after_tuple groups state)

  -- The loop goes through the tuples to come, and enough fuel is one more than they are.
  pub merger_loop_lem :
      (fuel : ℕ) (iter : PermutIter) (tuples : List (List ℕ)) (rows : List (List Group))
      (state : MergerState)
      → IsIter iter
      → to_come iter ≡ tuples
      → Pairs (Names branches) tuples rows
      → length tuples < fuel
      → merger_loop options branches clauses fuel iter state ≡ ok (after_all rows state)
  unfolding merger_loop
  merger_loop_lem zero iter tuples rows state inv e pairs h = absurd (omega arith)
  merger_loop_lem (suc fuel) iter [] (row ∷ rows) state inv e pairs h = absurd pairs
  merger_loop_lem (suc fuel) iter (ids ∷ tuples) [] state inv e pairs h = absurd pairs
  merger_loop_lem (suc fuel) iter [] [] state inv e pairs h = elim (iter_next_lem iter inv).1 [
    | inl (more, next) ↦ absurd (cc)
    | inr (done, _) ↦ rw done refl
  ]
  merger_loop_lem (suc fuel) iter (ids ∷ tuples) (row ∷ rows) state inv e pairs h =
      elim (iter_next_lem iter inv).1 [
        | inl (more, next) ↦
            let iter' = (iter_next iter).1 in
            let here : iter'.filtered_group_tuple ≡ ids = cc in
            let there : to_come iter' ≡ tuples = cc in
            let named : Names branches iter'.filtered_group_tuple row = rw here pairs.0 in
            rw (more, visit_tuple_lem iter'.filtered_group_tuple row state named)
              (merger_loop_lem fuel iter' tuples rows (after_tuple row state)
                (iter_next_lem iter inv).0 there pairs.1 (omega arith))
        | inr (done, none_left) ↦ absurd (cc)
      ]

  pub after_all_lem :
      (rows : List (List Group)) (state : MergerState)
      → state.index < 2 ^ 32
      → after_all rows state ≡ record {
        index = (state.index + length rows) % 2 ^ 32;
        group_tuples = state.group_tuples ++ keep matches rows;
        to_be_merged =
            state.to_be_merged
            ++ (if options.verbose_vv && options.file then cooked_records rows else []);
      }
  after_all_lem [] state h =
      ground (arith, append-nil state.group_tuples, append-nil state.to_be_merged)
  after_all_lem (groups ∷ rows) state h =
      rw (after_all_lem rows (after_tuple groups state) (omega arith)) (
        ground (
          arith,
          append_assoc state.group_tuples (groups ∷ []) (keep matches rows),
          append_assoc state.group_tuples [] (keep matches rows),
          append_assoc state.to_be_merged (map cooked groups) (cooked_records rows),
          append_assoc state.to_be_merged [] [],
        ))
