-- ===== src/Dnf.antt =====
-- The two nested loops by which src/f.c (`read_trace`) and src/groupfilter.c (`groupfilter`) test
-- a query's clauses on a record or on a group, and the inner one by which src/grouper.c tests the
-- terms of a clause: clauses are OR'd, the terms of a clause are AND'd.
use nfql.Prelude.{
  ℕ, ◌+◌, ◌≡◌, refl, Bool, true, false, List, [], ◌∷◌, Option, none, some, arith, ltb,
  if◌then◌else◌, length, all, any, All, Outcome, ok, abort, null_pointer, ◌>>=◌, Bool-cases, inl,
  inr,
}

-- A call through a function pointer.
abbrev pub call {ℓ κ} : {F : Type ℓ} {A : Type κ} → Option F → (F → A) → Outcome A
call none body = abort null_pointer
call (some f) body = ok (body f)

module _ {ℓ} {T : Type ℓ} (test : T → Outcome Bool) where
  -- `for (j = 0; j < num_terms; j++) if (!func(...)) break;`: the value of `j` behind the loop.
  unfoldable pub scan_terms : ℕ → List T → Outcome ℕ
  scan_terms j [] = ok j
  scan_terms j (term ∷ terms) = do
    holds ← test term
    if holds then scan_terms (j + 1) terms else ok j

  -- `if (j < num_terms) continue; else { satisfied = true; break; }`
  unfoldable pub scan_clauses : List (List T) → Outcome Bool
  unfolding scan_terms
  scan_clauses [] = ok false
  scan_clauses (clause ∷ clauses) = do
    j ← scan_terms 0 clause
    if ltb j (length clause) then scan_clauses clauses else ok true

-- What the loops decide: some clause has only terms that hold.
abbrev pub holds_dnf {ℓ} : {T : Type ℓ} → (T → Bool) → List (List T) → Bool
holds_dnf p clauses = any (all p) clauses

-- The test of every term of every clause comes to an answer, which is `p`'s.
abbrev pub Answers {ℓ} : {T : Type ℓ} → (T → Outcome Bool) → (T → Bool) → List T → Type 0
Answers test p terms = All (λ term. test term ≡ ok (p term)) terms

module _ {ℓ} {T : Type ℓ} (test : T → Outcome Bool) (p : T → Bool) where
  -- The index behind the loop reaches the end exactly if all terms hold.
  pub scan_terms_lem :
      (terms : List T) (j : ℕ)
      → Answers test p terms
      → (k : ℕ) × (scan_terms test j terms ≡ ok k)
        × (ltb k (j + length terms) ≡ (if all p terms then false else true))
  unfolding scan_terms
  scan_terms_lem [] j h = (j, refl, ground arith)
  scan_terms_lem (term ∷ terms) j h = elim (Bool-cases (p term)) [
    | inl e ↦
        let (k, run, test_k) = scan_terms_lem terms (j + 1) h.1 in
        (k, rw (h.0, e) run, rw e (ground arith))
    | inr e ↦ (j, rw (h.0, e) refl, rw e (ground arith))
  ]

  -- A clause from its first term: what follows the test on the index, either way.
  pub scan_terms_branch {κ} :
      {A : Type κ} (terms : List T) (fails holds : Outcome A)
      → Answers test p terms
      → (scan_terms test 0 terms >>= λ j. if ltb j (length terms) then fails else holds)
        ≡ (if all p terms then holds else fails)
  scan_terms_branch terms fails holds h =
      let (k, run, test_k) = scan_terms_lem terms 0 h in rw run (ground (arith, test_k))

  pub scan_clauses_lem :
      (clauses : List (List T))
      → All (Answers test p) clauses
      → scan_clauses test clauses ≡ ok (holds_dnf p clauses)
  unfolding scan_clauses
  scan_clauses_lem [] h = refl
  scan_clauses_lem (clause ∷ clauses) h =
      let (k, run, test_k) = scan_terms_lem clause 0 h.0 in
      rw run (ground (arith, test_k, scan_clauses_lem clauses h.1))
