-- ===== src/Merger/Terms.antt =====
-- The loops of src/merger.c over clauses and terms: what their flag comes to.
use nfql.Prelude.{
  ◌≡◌, refl, Bool, true, false, ◌&&◌, List, [], ◌∷◌, Outcome, ok, all, All, arith, Bool-cases, inl,
  inr,
}
use nfql.Dnf.{Answers}
use nfql.Merger.{match_terms, match_clauses}

-- The first clause alone; with no clause at all, everything matches.
abbrev pub first_clause_holds {ℓ} : {T : Type ℓ} → (T → Bool) → List (List T) → Bool
first_clause_holds p [] = true
first_clause_holds p (clause ∷ clauses) = all p clause

module _ {ℓ} {T : Type ℓ} (test : T → Outcome Bool) (p : T → Bool) where
  match_terms_lem :
      (clause : Bool) (terms : List T)
      → Answers test p terms
      → match_terms test clause terms ≡ ok (all p terms && clause)
  unfolding match_terms
  match_terms_lem clause [] h = refl
  match_terms_lem clause (term ∷ terms) h = elim (Bool-cases (p term)) [
    | inl e ↦ rw (h.0, e) (match_terms_lem clause terms h.1)
    | inr e ↦ rw (h.0, e) refl
  ]

  match_clauses-false :
      (clauses : List (List T))
      → All (Answers test p) clauses
      → match_clauses test false clauses ≡ ok false
  unfolding match_clauses
  match_clauses-false [] h = refl
  match_clauses-false (clause ∷ clauses) h =
      let still : all p clause && false ≡ false = ground arith in
      rw (match_terms_lem false clause h.0, still) (match_clauses-false clauses h.1)

  -- The flag is never set back to true between two clauses, so only the first one counts.
  pub match_clauses_lem :
      (clauses : List (List T))
      → All (Answers test p) clauses
      → match_clauses test true clauses ≡ ok (first_clause_holds p clauses)
  unfolding match_clauses
  match_clauses_lem [] h = refl
  match_clauses_lem (clause ∷ clauses) h =
      rw (match_terms_lem true clause h.0) (ground (arith, match_clauses-false clauses h.1))
