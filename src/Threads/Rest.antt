-- ===== src/Threads/Rest.antt =====
-- What is left of a thread of src/f.c: the remaining stages of its `branch_start`.
use mathlib.Core.List.{append-nil}
use nfql.Prelude.{
  Outcome-cases, List, [], ◌++◌, ◌≡◌, refl, sym, subst, ap, inl, inr, Option, none, some, Outcome,
  ok, ◌>>=◌, if◌then◌else◌, Bool-cases,
}
use nfql.Io.{IoHandler}
use nfql.Libc.{Libc}
use nfql.Output.{Options, OutFile}
use nfql.Pipeline.{Branch, FilterResult}
use nfql.BranchThread.{
  ExitStatus, exit_success, exit_failure, run_grouper, free_filter_rules, run_groupfilter,
  run_stages, branch_start,
}
use nfql.Threads.{
  Phase, starting, grouping, freeing, filtering, exited, Thread, fails_early, advance,
  advance_thread, new_thread,
}

module _ (libc : Libc) (options : Options) (io : IoHandler) where
  -- The thread's exit status, branch and files, if it runs to its end.
  abbrev pub rest_filtering : Branch → List OutFile → Outcome (ExitStatus × Branch × List OutFile)
  rest_filtering branch written =
      run_groupfilter libc options branch >>= λ r. ok (exit_success, r.0, written ++ r.1)

  abbrev pub rest_freeing : Branch → List OutFile → Outcome (ExitStatus × Branch × List OutFile)
  rest_freeing branch written = rest_filtering (free_filter_rules libc options branch) written

  abbrev pub rest_grouping : Branch → List OutFile → Outcome (ExitStatus × Branch × List OutFile)
  rest_grouping branch written =
      run_grouper libc options io branch >>= λ r. rest_freeing (r.0) (written ++ r.1)

  abbrev pub rest : Phase → Branch → List OutFile → Outcome (ExitStatus × Branch × List OutFile)
  rest (exited status) branch written = ok (status, branch, written)
  rest filtering branch written = rest_filtering branch written
  rest freeing branch written = rest_freeing branch written
  rest grouping branch written = rest_grouping branch written
  rest starting branch written =
      if fails_early libc options io branch.filter_result
      then ok (exit_failure, branch, written)
      else rest_grouping branch written

  abbrev pub rest_of : Thread → Outcome (ExitStatus × Branch × List OutFile)
  rest_of t = rest t.phase t.branch t.written

  -- The step leaves the thread's end as it was, and adds what it writes.
  abbrev Kept :
      Outcome (ExitStatus × Branch × List OutFile)
      → List OutFile
      → Option (Outcome (Thread × List OutFile))
      → Type 0
  Kept end written (some (ok step)) =
      (rest_of (step.0) ≡ end) × (step.0.written ≡ written ++ step.1)
  Kept end written _ = Unit

  advance-Kept :
      (phase : Phase) (branch : Branch) (written : List OutFile)
      → Kept (rest phase branch written) written (advance libc options io phase branch written)
  unfolding advance
  advance-Kept starting branch written =
      elim (Bool-cases (fails_early libc options io branch.filter_result)) [
        | inl early ↦ rw early (refl, sym (append-nil written))
        | inr late ↦ rw late (refl, sym (append-nil written))
      ]
  advance-Kept grouping branch written = elim (Outcome-cases (run_grouper libc options io branch)) [
    | inl (r, e) ↦ rw e (refl, refl)
    | inr (f, e) ↦ rw e tt
  ]
  advance-Kept freeing branch written =
      (ap (rest_filtering (free_filter_rules libc options branch)) (append-nil written), refl)
  advance-Kept filtering branch written =
      elim (Outcome-cases (run_groupfilter libc options branch)) [
        | inl (r, e) ↦ rw e (refl, refl)
        | inr (f, e) ↦ rw e tt
      ]
  advance-Kept (exited status) branch written = tt

  pub advance_thread-rest :
      (t t' : Thread) (files : List OutFile)
      → advance_thread libc options io t ≡ some (ok (t', files))
      → (rest_of t' ≡ rest_of t) × (t'.written ≡ t.written ++ files)
  advance_thread-rest t t' files e =
      subst (Kept (rest_of t) t.written) e (advance-Kept t.phase t.branch t.written)

  -- A new thread has the whole of `branch_start` left.
  pub rest-branch_start :
      (branch : Branch) → rest_of (new_thread branch) ≡ branch_start libc options io branch
  unfolding branch_start run_stages
  rest-branch_start branch = by_result branch.filter_result
    where
      by_result :
          (result : Option FilterResult)
          → (if fails_early libc options io result
              then ok (exit_failure, branch, [])
              else rest_grouping branch [])
            ≡ elim result [
              | none ↦
                  if options.filter_enabled
                  then ok (exit_failure, branch, [])
                  else run_stages libc options io branch
              | some _ ↦ run_stages libc options io branch
            ]
      by_result none = refl
      by_result (some result) = refl
