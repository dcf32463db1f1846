-- ===== src/Threads/Progress.antt =====
-- How many steps the threads of src/f.c and `main` have left at most.
use nfql.Prelude.{
  ℕ, ◌+◌, ◌*◌, ◌<◌, List, [], ◌∷◌, ◌++◌, ◌≡◌, subst, inl, inr, length, Option, some, Outcome, ok,
  Outcome-cases, arith, Bool-cases,
}
use nfql.Io.{IoHandler}
use nfql.Libc.{Libc}
use nfql.Output.{Options, OutFile}
use nfql.Pipeline.{Branch}
use nfql.BranchThread.{run_grouper, run_groupfilter}
use nfql.Threads.{
  Phase, starting, grouping, freeing, filtering, exited, Thread, System, new_thread, advance,
  fails_early, Moves, Step, create, move, join,
}

-- The stages that a thread has still to take.
abbrev pub stages_left : Phase → ℕ
stages_left starting = 4
stages_left grouping = 3
stages_left freeing = 2
stages_left filtering = 1
stages_left (exited status) = 0

abbrev pub steps_of : List Thread → ℕ
steps_of [] = 0
steps_of (t ∷ ts) = 1 + stages_left t.phase + steps_of ts

-- The steps that are left at most: a thread is created, takes four stages, and is joined.
abbrev pub steps_left : System → ℕ
steps_left s = 6 * length s.pending + steps_of s.live

steps_of-append : (xs ys : List Thread) → steps_of (xs ++ ys) ≡ steps_of xs + steps_of ys
steps_of-append [] ys = omega arith
steps_of-append (x ∷ xs) ys = omega (arith, steps_of-append xs ys)

module _ (libc : Libc) (options : Options) (io : IoHandler) where
  abbrev Fewer : ℕ → Option (Outcome (Thread × List OutFile)) → Type 0
  Fewer n (some (ok step)) = stages_left step.0.phase < n
  Fewer n _ = Unit

  advance-Fewer :
      (phase : Phase) (branch : Branch) (written : List OutFile)
      → Fewer (stages_left phase) (advance libc options io phase branch written)
  unfolding advance
  advance-Fewer starting branch written =
      elim (Bool-cases (fails_early libc options io branch.filter_result)) [
        | inl early ↦ rw early (omega arith)
        | inr late ↦ rw late (omega arith)
      ]
  advance-Fewer grouping branch written =
      elim (Outcome-cases (run_grouper libc options io branch)) [
        | inl (r, e) ↦ rw e (omega arith)
        | inr (f, e) ↦ rw e tt
      ]
  advance-Fewer freeing branch written = omega arith
  advance-Fewer filtering branch written =
      elim (Outcome-cases (run_groupfilter libc options branch)) [
        | inl (r, e) ↦ rw e (omega arith)
        | inr (f, e) ↦ rw e tt
      ]
  advance-Fewer (exited status) branch written = tt

  Moves-steps_of :
      {ts ts' : List Thread} {files : List OutFile}
      → Moves libc options io ts ts' files
      → steps_of ts' < steps_of ts
  Moves-steps_of (Moves.here {t} {t'} {files} ts e) =
      omega
        (arith, subst (Fewer (stages_left t.phase)) e (advance-Fewer t.phase t.branch t.written))
  Moves-steps_of (Moves.there t m) = omega (arith, Moves-steps_of m)

  pub Step-steps_left : {s s' : System} → Step libc options io s s' → steps_left s' < steps_left s
  Step-steps_left (create b bs live joined log) =
      omega (arith, steps_of-append live (new_thread b ∷ []))
  Step-steps_left (move pending joined log m) = omega (arith, Moves-steps_of m)
  Step-steps_left (join b written live joined log) = omega arith
