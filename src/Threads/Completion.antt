-- ===== src/Threads/Completion.antt =====
-- If every branch succeeds alone, the threads of src/f.c come to their ends under any schedule.
use mathlib.Core.List.{map-append}
use nfql.Prelude.{
  ◌⊎◌, ◌>>=◌, ℕ, zero, suc, ◌≤◌, List, [], ◌∷◌, ◌++◌, ◌≡◌, refl, sym, ap, subst, ◌∙◌, inl, inr, map,
  All, some, Outcome, ok, abort, Outcome-cases, arith,
}
use nfql.Prelude.Fault.{Fault}
use nfql.Io.{IoHandler}
use nfql.Libc.{Libc}
use nfql.Output.{Options, OutFile}
use nfql.Pipeline.{Branch}
use nfql.BranchThread.{ExitStatus, exit_success, exit_failure, run_grouper, run_groupfilter}
use nfql.Threads.{
  Phase, starting, grouping, freeing, filtering, exited, Thread, System, advance, wrote, Moves,
  Step, create, move, join, Reach, later,
}
use nfql.Threads.Rest.{rest, rest_of}
use nfql.Threads.Schedules.{IsFinished, alone, Reach-Inv}
use nfql.Threads.Progress.{steps_left, Step-steps_left}

-- The thread exits with success.
abbrev pub Succeeds : Outcome (ExitStatus × Branch × List OutFile) → Type 0
Succeeds m = (b : Branch) × (files : List OutFile) × (m ≡ ok (exit_success, b, files))

All-left {ℓ κ} : {A : Type ℓ} (P : A → Type κ) (xs ys : List A) → All P (xs ++ ys) → All P xs
All-left P [] ys h = tt
All-left P (x ∷ xs) ys h = (h.0, All-left P xs ys h.1)

All-right {ℓ κ} : {A : Type ℓ} (P : A → Type κ) (xs ys : List A) → All P (xs ++ ys) → All P ys
All-right P [] ys h = h
All-right P (x ∷ xs) ys h = All-right P xs ys h.1

module _ (libc : Libc) (options : Options) (io : IoHandler) where
  abbrev CanStep : System → Type 0
  CanStep s = (s' : System) × Step libc options io s s'

  abbrev headed : Phase → Branch → List OutFile → List Thread → List Thread → List OutFile → System
  headed phase b written live joined log = record {
    pending = [];
    live = record { phase = phase; branch = b; written = written } ∷ live;
    joined = joined;
    log = log;
  }

  advance-grouping :
      (b : Branch) (written : List OutFile) (r : Branch × List OutFile)
      → run_grouper libc options io b ≡ ok r
      → advance libc options io grouping b written
        ≡ some (ok (wrote libc options io freeing written r))
  unfolding advance
  advance-grouping b written r run = rw run refl

  advance-filtering :
      (b : Branch) (written : List OutFile) (r : Branch × List OutFile)
      → run_groupfilter libc options b ≡ ok r
      → advance libc options io filtering b written
        ≡ some (ok (wrote libc options io (exited exit_success) written r))
  unfolding advance
  advance-filtering b written r run = rw run refl

  abort-Succeeds :
      {A : Type 0} (m : Outcome A) (f : Fault)
      (k : A → Outcome (ExitStatus × Branch × List OutFile))
      → m ≡ abort f
      → ¬ Succeeds (m >>= k)
  abort-Succeeds m f k e (b, files, run) = let faulted = sym (ap (λ o. o >>= k) e) ∙ run in cc

  -- The thread that `main` waits for can take a step, or be joined.
  head_step :
      (phase : Phase) (b : Branch) (written : List OutFile) (live joined : List Thread)
      (log : List OutFile)
      → Succeeds (rest libc options io phase b written)
      → CanStep (headed phase b written live joined log)
  unfolding advance
  head_step starting b written live joined log h = (_, move [] joined log (Moves.here live refl))
  head_step grouping b written live joined log h =
      elim (Outcome-cases (run_grouper libc options io b)) [
        | inl (r, run) ↦
            (_, move [] joined log (Moves.here live (advance-grouping b written r run)))
        | inr (f, run) ↦ absurd (abort-Succeeds _ f _ run h)
      ]
  head_step freeing b written live joined log h = (_, move [] joined log (Moves.here live refl))
  head_step filtering b written live joined log h =
      elim (Outcome-cases (run_groupfilter libc options b)) [
        | inl (r, run) ↦
            (_, move [] joined log (Moves.here live (advance-filtering b written r run)))
        | inr (f, run) ↦ absurd (abort-Succeeds _ f _ run h)
      ]
  head_step (exited exit_success) b written live joined log h = (_, join b written live joined log)
  head_step (exited exit_failure) b written live joined log (b', files, e) = cc

  step_of :
      (pending : List Branch) (live joined : List Thread) (log : List OutFile)
      → All Succeeds (map (rest_of libc options io) live)
      → IsFinished libc options io
          (record { pending = pending; live = live; joined = joined; log = log })
        ⊎ CanStep (record { pending = pending; live = live; joined = joined; log = log })
  step_of (b ∷ bs) live joined log h = inr (_, create b bs live joined log)
  step_of [] [] joined log h = inl (record { no_pending = refl; no_live = refl })
  step_of [] (t ∷ ts) joined log h = inr (head_step t.phase t.branch t.written ts joined log h.0)

  live_succeed :
      (branches : List Branch) (s : System)
      → All Succeeds (alone libc options io branches)
      → Reach libc options io branches s
      → All Succeeds (map (rest_of libc options io) s.live)
  live_succeed branches s good r =
      let h = Reach-Inv libc options io r in
      All-right Succeeds (map (rest_of libc options io) s.joined) _ (
        subst (All Succeeds) (map-append (rest_of libc options io) s.joined s.live) (
          All-left Succeeds (map (rest_of libc options io) (s.joined ++ s.live)) _
            (subst (All Succeeds) (sym h.ends_stand) good)))

  -- In every state that is reached, `main` has joined all the threads, or a thread or `main` can take
  -- a step, if each branch succeeds alone.
  schedule_progress :
      (branches : List Branch) (s : System)
      → All Succeeds (alone libc options io branches)
      → Reach libc options io branches s
      → IsFinished libc options io s ⊎ ((s' : System) × Step libc options io s s')
  schedule_progress branches s good r =
      step_of s.pending s.live s.joined s.log (live_succeed branches s good r)

  finish :
      (fuel : ℕ) (branches : List Branch) (s : System)
      → steps_left s ≤ fuel
      → All Succeeds (alone libc options io branches)
      → Reach libc options io branches s
      → (s' : System) × Reach libc options io branches s' × IsFinished libc options io s'
  finish zero branches s few good r = elim (schedule_progress branches s good r) [
    | inl done ↦ (s, r, done)
    | inr (s', st) ↦ absurd (omega (arith, Step-steps_left libc options io st))
  ]
  finish (suc fuel) branches s few good r = elim (schedule_progress branches s good r) [
    | inl done ↦ (s, r, done)
    | inr (s', st) ↦
        finish fuel branches s' (omega (arith, Step-steps_left libc options io st)) good
          (later r st)
  ]

  -- If each branch succeeds alone, every schedule can be continued until `main` has joined all the
  -- threads.
  pub schedule_completes :
      (branches : List Branch) (s : System)
      → All Succeeds (alone libc options io branches)
      → Reach libc options io branches s
      → (s' : System) × Reach libc options io branches s' × IsFinished libc options io s'
  schedule_completes branches s = finish (steps_left s) branches s (omega arith)
