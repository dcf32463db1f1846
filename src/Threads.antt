-- ===== src/Threads.antt =====
-- src/f.c: `run_branch_async`, which creates a thread for each branch, and the loop of `main` that
-- joins them in order. The threads run `branch_start` of src/branch.c, a stage at a time, between
-- any steps of the others: each writes to its own branch and files, and they share the log of what
-- was written.

pub mod Rest
pub mod Schedules
pub mod Progress
pub mod Completion
use nfql.Prelude.{
  Bool, false, List, [], ◌∷◌, ◌++◌, ◌≡◌, Option, none, some, Outcome, ok, abort, ◌>>=◌,
  if◌then◌else◌,
}
use nfql.Prelude.Fault.{Fault}
use nfql.Io.{IoHandler}
use nfql.Libc.{Libc}
use nfql.Output.{Options, OutFile}
use nfql.Pipeline.{Branch, FilterResult}
use nfql.BranchThread.{
  ExitStatus, exit_success, exit_failure, run_grouper, free_filter_rules, run_groupfilter,
}

-- Where a thread stands in `branch_start`.
pub data Phase : Type 0 where
  starting grouping freeing filtering : Phase
  exited : ExitStatus → Phase

pub record Thread : Type 0 where
  pub phase : Phase
  pub branch : Branch
  -- The files that the thread has written.
  pub written : List OutFile

-- The branches that have no thread yet, the threads that `main` has still to join, those that it
-- has joined, and the files that have been written, in order.
pub record System : Type 0 where
  pub pending : List Branch
  pub live : List Thread
  pub joined : List Thread
  pub log : List OutFile

-- A thread as pthread_create starts it.
abbrev pub new_thread : Branch → Thread
new_thread branch = record { phase = starting; branch = branch; written = [] }

abbrev pub initial : List Branch → System
initial branches = record { pending = branches; live = []; joined = []; log = [] }

module _ (libc : Libc) (options : Options) (io : IoHandler) where
  abbrev pub wrote : Phase → List OutFile → Branch × List OutFile → Thread × List OutFile
  wrote phase written result =
      (record { phase = phase; branch = result.0; written = written ++ result.1 }, result.1)

  -- `if (filter_enabled && branch->filter_result == NULL)`
  abbrev pub fails_early : Option FilterResult → Bool
  fails_early none = options.filter_enabled
  fails_early (some result) = false

  -- The next stage of a thread, and the files that it writes; `none` once it has exited.
  unfoldable pub advance : Phase → Branch → List OutFile → Option (Outcome (Thread × List OutFile))
  advance starting branch written = some (
      ok (
        record {
          phase = if fails_early branch.filter_result then exited exit_failure else grouping;
          branch = branch;
          written = written;
        },
        [],
      ))
  advance grouping branch written =
      some (run_grouper libc options io branch >>= λ result. ok (wrote freeing written result))
  advance freeing branch written =
      some (ok (wrote filtering written (free_filter_rules libc options branch, [])))
  advance filtering branch written = some (
      run_groupfilter libc options branch >>= λ result.
      ok (wrote (exited exit_success) written result))
  advance (exited status) branch written = none

  abbrev pub advance_thread : Thread → Option (Outcome (Thread × List OutFile))
  advance_thread t = advance t.phase t.branch t.written

  -- A step of one of the threads, and the files that it writes.
  pub data Moves : List Thread → List Thread → List OutFile → Type 0 where
    here :
        {t t' : Thread} {files : List OutFile} (ts : List Thread)
        → advance_thread t ≡ some (ok (t', files))
        → Moves (t ∷ ts) (t' ∷ ts) files
    there :
        {ts ts' : List Thread} {files : List OutFile} (t : Thread)
        → Moves ts ts' files
        → Moves (t ∷ ts) (t ∷ ts') files

  -- A step of the process: `main` creates the next thread, a thread takes a step, or `main`, which
  -- has created all of them, joins the next one, which has exited with success.
  pub data Step : System → System → Type 0 where
    create :
        (b : Branch) (bs : List Branch) (live joined : List Thread) (log : List OutFile)
        → Step
            (record { pending = b ∷ bs; live = live; joined = joined; log = log })
            (record { pending = bs; live = live ++ new_thread b ∷ []; joined = joined; log = log })
    move :
        (pending : List Branch) {live live' : List Thread} (joined : List Thread)
        (log : List OutFile) {files : List OutFile}
        → Moves live live' files
        → Step
            (record { pending = pending; live = live; joined = joined; log = log })
            (record { pending = pending; live = live'; joined = joined; log = log ++ files })
    join :
        (b : Branch) (written : List OutFile) (live joined : List Thread) (log : List OutFile)
        → Step
            (record {
              pending = [];
              live = record { phase = exited exit_success; branch = b; written = written } ∷ live;
              joined = joined;
              log = log;
            })
            (record {
              pending = [];
              live = live;
              joined =
                  joined
                  ++ record { phase = exited exit_success; branch = b; written = written } ∷ [];
              log = log;
            })

  pub data Reach (branches : List Branch) : System → Type 0 where
    start : Reach branches (initial branches)
    later : {s s' : System} → Reach branches s → Step s s' → Reach branches s'

  -- A thread whose next stage faults.
  pub data Faults : List Thread → Fault → Type 0 where
    here :
        (t : Thread) (ts : List Thread) (f : Fault)
        → advance_thread t ≡ some (abort f)
        → Faults (t ∷ ts) f
    there : (t : Thread) (ts : List Thread) (f : Fault) → Faults ts f → Faults (t ∷ ts) f

  -- The process is aborted: by a fault of a thread, or since `main` joins one that has failed.
  pub data Fails (s : System) : Type 0 where
    fault : (f : Fault) → Faults s.live f → Fails s
    failure :
        (t : Thread) (ts : List Thread)
        → s.pending ≡ []
        → s.live ≡ t ∷ ts
        → t.phase ≡ exited exit_failure
        → Fails s
