-- ===== src/Permut/Odometer.antt =====
-- `next_tuple` of src/utils.c as a recursion on the tuple from the left.
use nfql.Prelude.{
  ℕ, zero, suc, ◌+◌, ◌≡◌, refl, Bool, true, false, List, [], ◌∷◌, arith, ltb, if◌then◌else◌, length,
  get_or, set, Bool-cases, inl, inr,
}
use nfql.Permut.{next_tuple}

-- Whether the tail has moved on, and the tail: where it has wrapped round, the head steps.
unfoldable pub step_head : ℕ → ℕ → Bool × List ℕ → Bool × List ℕ
step_head c t (true, ts) = (true, t ∷ ts)
step_head c t (false, ts) = if ltb t c then (true, (t + 1) ∷ ts) else (false, 1 ∷ ts)

unfoldable pub odometer : List ℕ → List ℕ → Bool × List ℕ
odometer (c ∷ cs) (t ∷ ts) = step_head c t (odometer cs ts)
odometer _ ts = (false, ts)

next_tuple-cons :
    (i : ℕ) (c t : ℕ) (cs ts : List ℕ)
    → next_tuple (suc i) (c ∷ cs) (t ∷ ts) ≡ step_head c t (next_tuple i cs ts)
unfolding next_tuple step_head
next_tuple-cons zero c t cs ts = refl
next_tuple-cons (suc i) c t cs ts = elim (Bool-cases (ltb (get_or ts i 0) (get_or cs i 0))) [
  | inl e ↦ rw e refl
  | inr e ↦ rw e (next_tuple-cons i c t cs (set ts i 1))
]

-- On a tuple as long as the counts, the two agree.
pub next_tuple-odometer :
    (cs ts : List ℕ) → length ts ≡ length cs → next_tuple (length cs) cs ts ≡ odometer cs ts
unfolding odometer next_tuple
next_tuple-odometer [] ts h = refl
next_tuple-odometer (c ∷ cs) [] h = absurd (omega arith)
next_tuple-odometer (c ∷ cs) (t ∷ ts) h =
    rw (next_tuple-cons (length cs) c t cs ts, next_tuple-odometer cs ts (omega arith)) refl
