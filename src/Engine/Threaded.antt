-- ===== src/Engine/Threaded.antt =====
-- `main` of src/f.c under any schedule of its threads.
use mathlib.Core.List.{Perm}
use nfql.Prelude.{Bool, List, [], ◌∷◌, ◌++◌, ◌≡◌, refl, map, Option, ok, ◌>>=◌}
use nfql.Word.{Buffer}
use nfql.Io.{IoHandler}
use nfql.Libc.{Libc}
use nfql.JsonC.{JsonC}
use nfql.Ipfix.{IpfixTempl}
use nfql.Output.{Options, OutFile}
use nfql.Pipeline.{Branch, Flowquery}
use nfql.BranchThread.{exit_success, branch_start}
use nfql.Threads.{Thread, System, Reach}
use nfql.Threads.Schedules.{IsFinished, files_of, success_of, schedule_lem}
use nfql.Engine.{join_branches, finish_query, start_query, run_query}

-- The branches that the threads have come to.
abbrev pub branches_of : List Thread → List Branch
branches_of threads = map (λ (t : Thread). t.branch) threads

module _ (libc : Libc) where
  join_branches_lem :
      (options : Options) (io : IoHandler) (branches : List Branch) (threads : List Thread)
      → map (branch_start libc options io) branches ≡ map (success_of libc options io) threads
      → join_branches libc options io branches ≡ ok (branches_of threads, files_of threads)
  unfolding join_branches
  join_branches_lem options io [] [] e = refl
  join_branches_lem options io [] (t ∷ ts) e = cc
  join_branches_lem options io (b ∷ bs) [] e = cc
  join_branches_lem options io (b ∷ bs) (t ∷ ts) e =
      let first : branch_start libc options io b ≡ ok (exit_success, t.branch, t.written) = cc in
      let others : map (branch_start libc options io) bs ≡ map (success_of libc options io) ts =
        cc in
      rw (first, join_branches_lem options io bs ts others) refl

  module _ {J : Type 0} (c : JsonC J) (make_io : Bool → IpfixTempl → IoHandler) where
    -- Whatever the schedule of the threads, once they are joined the run goes on as if the branches
    -- had run one after the other: the result is that of `run_query`, made from the branches of the
    -- joined threads, and the files are those of the stages before the threads, of the threads in
    -- the order of their branches, and of the stages behind; the threads wrote theirs in some order.
    pub run_query-threaded :
        (ipfix_enabled : Bool) (options options' : Options) (query : Option J) (trace : List Buffer)
        (io : IoHandler) (fquery : Flowquery) (files : List OutFile) (s : System)
        → start_query libc c make_io ipfix_enabled options query trace
          ≡ ok (options', io, fquery, files)
        → Reach libc options' io fquery.branchset s
        → IsFinished libc options' io s
        → (run_query libc c make_io ipfix_enabled options query trace ≡ (
            finish_query options' (record fquery { branchset = branches_of s.joined }) >>= λ done.
            ok (done.0, files ++ files_of s.joined ++ done.1)))
          × Perm s.log (files_of s.joined)
    unfolding run_query
    run_query-threaded ipfix_enabled options options' query trace io fquery files s e r done =
        let (ends, perm) = schedule_lem libc options' io fquery.branchset s r done in
        (rw (e, join_branches_lem options' io fquery.branchset s.joined ends) refl, perm)
