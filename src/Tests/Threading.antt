-- ===== src/Tests/Threading.antt =====
-- The theorems on the threads and on the whole run, at two branches that only filter their groups.
use mathlib.Core.List.{Perm}
use nfql.Prelude.{◌≡◌, refl, Bool, true, false, List, [], ◌∷◌, ◌++◌, some, map, ok, All}
use nfql.Output.{Options, OutFile, groupfilter_branch_filtered_groups}
use nfql.Pipeline.{Branch, Group}
use nfql.BranchThread.{branch_start, exit_success, run_grouper, free_filter_rules, run_groupfilter}
use nfql.Comps.Assign.{assign_groupfilter_func, groupfilter_cases}
use nfql.Threads.{
  Phase, freeing, exited, Thread, System, initial, new_thread, advance, Moves, create, move, join,
  Reach, start, later,
}
use nfql.Threads.Schedules.{IsFinished, alone, schedule_lem}
use nfql.Threads.Completion.{Succeeds, schedule_completes}
use nfql.Tests.Sorting.{sorting_libc}
use nfql.Tests.Samples.{byte_io, all_options, sample_branch, group_of, packet}

abbrev only_groupfilter : Options
only_groupfilter = record all_options {
  filter_enabled = false;
  grouper_enabled = false;
  groupaggregations_enabled = false;
}

-- A branch with its groups, all of which its group filter keeps.
abbrev grouped_sample : Bool → List Group → Branch
grouped_sample second groups = record (sample_branch (elim second [ true ↦ 1 | false ↦ 0 ])) {
  groupfilter_clauseset = [] ∷ [];
  grouper_result = some (record { sorted_recordset = []; groupset = groups });
}

abbrev first_groups : List Group
first_groups = group_of (packet 80 5 9) ∷ group_of (packet 22 1 2) ∷ []

abbrev second_groups : List Group
second_groups = group_of (packet 80 3 4) ∷ []

abbrev first_branch : Branch
first_branch = grouped_sample false first_groups

abbrev second_branch : Branch
second_branch = grouped_sample true second_groups

abbrev two_branches : List Branch
two_branches = first_branch ∷ second_branch ∷ []

abbrev done_branch : Branch → List Group → Branch
done_branch branch groups = record branch {
  groupfilter_clauseset = [];
  gfilter_result = some (record { filtered_groupset = groups });
}

abbrev first_files : List OutFile
first_files =
    record {
      name = groupfilter_branch_filtered_groups 0;
      records = packet 80 5 9 ∷ packet 22 1 2 ∷ [];
    }
    ∷ []

abbrev second_files : List OutFile
second_files =
    record { name = groupfilter_branch_filtered_groups 1; records = packet 80 3 4 ∷ [] } ∷ []

abbrev at : Phase → Branch → List OutFile → Thread
at phase branch written = record { phase = phase; branch = branch; written = written }

abbrev first_done : Thread
first_done = at (exited exit_success) (done_branch first_branch first_groups) first_files

abbrev second_done : Thread
second_done = at (exited exit_success) (done_branch second_branch second_groups) second_files

abbrev finished : System
finished = record {
  pending = [];
  live = [];
  joined = first_done ∷ second_done ∷ [];
  log = second_files ++ first_files;
}

two_good :
    (branch_start sorting_libc only_groupfilter byte_io first_branch
      ≡ ok (exit_success, done_branch first_branch first_groups, first_files))
    × (branch_start sorting_libc only_groupfilter byte_io second_branch
        ≡ ok (exit_success, done_branch second_branch second_groups, second_files))
unfolding branch_start assign_groupfilter_func groupfilter_cases
two_good = (refl, refl)

abbrev system : List Branch → List Thread → List Thread → List OutFile → System
system pending live joined log = record {
  pending = pending;
  live = live;
  joined = joined;
  log = log;
}

-- The second thread runs to its end between two stages of the first one.
finished-Reach : Reach sorting_libc only_groupfilter byte_io two_branches finished
unfolding advance run_grouper free_filter_rules run_groupfilter assign_groupfilter_func
    groupfilter_cases
finished-Reach =
    let fresh = new_thread second_branch in
    let r1 = later start (create first_branch (second_branch ∷ []) [] [] []) in
    let r2 = later r1 (create second_branch [] (new_thread first_branch ∷ []) [] []) in
    let r3 = later r2 (move [] [] [] (Moves.here (fresh ∷ []) refl)) in
    let r4 = later r3 (move [] [] [] (Moves.here (fresh ∷ []) refl)) in
    let waiting = at freeing first_branch [] in
    let r5 = later r4 (move [] [] [] (Moves.there waiting (Moves.here [] refl))) in
    let r6 = later r5 (move [] [] [] (Moves.there waiting (Moves.here [] refl))) in
    let r7 = later r6 (move [] [] [] (Moves.there waiting (Moves.here [] refl))) in
    let r8 = later r7 (move [] [] [] (Moves.there waiting (Moves.here [] refl))) in
    let r9 = later r8 (move [] [] second_files (Moves.here (second_done ∷ []) refl)) in
    let r10 = later r9 (move [] [] second_files (Moves.here (second_done ∷ []) refl)) in
    let r11 = later r10 (join first_done.branch first_files (second_done ∷ []) [] finished.log) in
    later r11 (join second_done.branch second_files [] (first_done ∷ []) finished.log)

finished-IsFinished : IsFinished sorting_libc only_groupfilter byte_io finished
finished-IsFinished = record { no_pending = refl; no_live = refl }

two_succeed : All Succeeds (alone sorting_libc only_groupfilter byte_io two_branches)
two_succeed = ((_, _, two_good.0), ((_, _, two_good.1), tt))

schedule_lem_example :
    (map (branch_start sorting_libc only_groupfilter byte_io) two_branches
      ≡ ok (exit_success, first_done.branch, first_files)
        ∷ ok (exit_success, second_done.branch, second_files)
        ∷ [])
    × Perm (second_files ++ first_files) (first_files ++ second_files)
schedule_lem_example =
    schedule_lem sorting_libc only_groupfilter byte_io two_branches finished finished-Reach
      finished-IsFinished

schedule_completes_example :
    (s : System) × Reach sorting_libc only_groupfilter byte_io two_branches s
    × IsFinished sorting_libc only_groupfilter byte_io s
schedule_completes_example =
    schedule_completes sorting_libc only_groupfilter byte_io two_branches (initial two_branches)
      two_succeed start
