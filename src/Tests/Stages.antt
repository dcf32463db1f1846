-- ===== src/Tests/Stages.antt =====
-- The stages' theorems at the sample query.
use nfql.Prelude.{
  ◌≢◌, abort, ◌≡◌, refl, List, [], ◌∷◌, none, some, map, keep, All, ok, ◌⊎◌, get_or, arith, ◌>>=◌,
  true, false, ◌++◌,
}
use nfql.Word.{w8}
use nfql.Comps.{filter_func, gfilter_func, merger_func, eq}
use nfql.Comps.Assign.{
  filter_cases, grouper_cases, groupfilter_cases, merger_cases, assign_filter_func,
  assign_grouper_func, assign_groupfilter_func, assign_merger_func,
}
use nfql.Comps.AssignAggr.{aggr_cases, get_aggr_fptr, get_gtype}
use nfql.Filter.{read_trace}
use nfql.Filter.Contract.{AllAssigned, wanted, copy, branch_after, read_trace_lem}
use nfql.Filter.{branch_files}
use nfql.Grouper.Assigned.{IsTyped}
use nfql.Prelude.Fault.{out_of_fuel}
use nfql.BranchThread.{branch_start}
use nfql.BranchThread.Termination.{branch_start-fuel}
use nfql.BranchThread.Contract.{Threaded, branch_start_lem}
use nfql.Grouper.Contract.{
  Grouped, GroupedAll, assigned_clause, grouper_lem, grouper_distinct, grouper_all_lem,
}
use nfql.Grouper.Keys.{IsExact, Agree, AreDistinct}
use nfql.Pipeline.{Branch, Group, GrouperResult, MergerResult}
use nfql.Output.{
  written_if, groupfilter_branch_filtered_groups, merger_merged_groups, merger_to_be_merged_groups,
}
use nfql.Comps.{cooked}
use nfql.Groupfilter.{groupfilter}
use nfql.Groupfilter.Contract.{IsAssigned, kept_groups, groupfilter_lem}
use nfql.Ungrouper.{ungrouper}
use nfql.Ungrouper.Merged.{merger-ungrouper}
use nfql.Ungrouper.Contract.{streams_of, stream_files, ungrouper_lem}
use nfql.Permut.{PermutIter, iter_init, iter_next}
use nfql.Permut.Tuples.{all_tuples}
use nfql.Permut.Walk.{IsIter, NonEmpty, to_come, iter_next_lem, iter_init_lem}
use nfql.Merger.{merger, cooked_records}
use nfql.Merger.Holds.{AllReady}
use nfql.Merger.Product.{cartesian}
use nfql.Merger.Contract.{merged, merger_lem, merger_first_clause}
use nfql.Tests.Sorting.{sorting_libc, sorting_libc-IsLibc, sorting_libc-SortEnds}
use nfql.Tests.Samples.{
  trace, packet, byte_io, all_options, sample_branch, filtered_sample, by_port, equal_ports,
  sample_branches, sample_groups, web_groups, group_of,
}

ports_assigned : AllAssigned (sample_branch 0)
unfolding assign_filter_func filter_cases
ports_assigned = (
  (record { func = filter_func eq w8; assigned = refl }, tt),
  ((record { func = filter_func eq w8; assigned = refl }, tt), tt),
)

read_trace_lem_example :
    read_trace all_options 3 trace (sample_branch 0 ∷ [])
    ≡ ok (
      map (copy all_options 3) (keep (wanted all_options 3 (sample_branch 0 ∷ [])) trace),
      map (branch_after all_options 3 trace) (sample_branch 0 ∷ []),
      branch_files all_options (map (branch_after all_options 3 trace) (sample_branch 0 ∷ [])),
    )
read_trace_lem_example =
    read_trace_lem all_options 3 trace (sample_branch 0 ∷ []) refl (ports_assigned, tt)

sample-IsTyped : IsTyped sorting_libc all_options filtered_sample
unfolding get_aggr_fptr grouper_cases get_gtype aggr_cases
sample-IsTyped = record {
  filter_typed = (((_, refl), tt), (((_, refl), tt), tt));
  grouper_typed = ((((_, refl), (_, refl), (_, refl)), tt), tt);
  aggr_typed = ((_, refl), tt);
}

grouper_lem_example : Grouped sorting_libc byte_io all_options filtered_sample by_port trace
grouper_lem_example =
    grouper_lem sorting_libc byte_io all_options filtered_sample (packet 80 5 9)
      (packet 22 1 2 ∷ packet 80 3 4 ∷ packet 22 6 8 ∷ []) by_port sorting_libc-IsLibc refl refl
      sample-IsTyped

sample_grouped : Grouped sorting_libc byte_io all_options filtered_sample by_port trace
sample_grouped =
    grouper_lem sorting_libc byte_io all_options filtered_sample (packet 80 5 9)
      (packet 22 1 2 ∷ packet 80 3 4 ∷ packet 22 6 8 ∷ []) by_port sorting_libc-IsLibc refl refl
      sample-IsTyped

by_port-IsExact : All IsExact (assigned_clause sorting_libc byte_io all_options by_port)
unfolding assign_grouper_func grouper_cases get_gtype
by_port-IsExact = (record { width = w8; func_is = refl; same_field = refl; gtype_is = refl }, tt)

grouper_distinct_example :
    All
      (Agree (assigned_clause sorting_libc byte_io all_options by_port))
      sample_grouped.clustered.parts
    × AreDistinct
        (assigned_clause sorting_libc byte_io all_options by_port)
        sample_grouped.clustered.parts
grouper_distinct_example =
    grouper_distinct sorting_libc byte_io all_options filtered_sample by_port trace sample_grouped
      by_port-IsExact

abbrev ungrouped_sample : Branch
ungrouped_sample = record filtered_sample { grouper_clauseset = [] }

ungrouped-IsTyped : IsTyped sorting_libc all_options ungrouped_sample
unfolding get_aggr_fptr aggr_cases
ungrouped-IsTyped = record {
  filter_typed = (((_, refl), tt), (((_, refl), tt), tt));
  grouper_typed = tt;
  aggr_typed = ((_, refl), tt);
}

grouper_all_lem_example : GroupedAll sorting_libc byte_io all_options ungrouped_sample trace
grouper_all_lem_example =
    grouper_all_lem sorting_libc byte_io all_options ungrouped_sample (packet 80 5 9)
      (packet 22 1 2 ∷ packet 80 3 4 ∷ packet 22 6 8 ∷ []) refl refl ungrouped-IsTyped

web-IsAssigned : All (All IsAssigned) (map (map assign_groupfilter_func) web_groups)
unfolding assign_groupfilter_func groupfilter_cases
web-IsAssigned = ((record { func = gfilter_func eq w8; assigned = refl }, tt), tt)

abbrev sample_result : GrouperResult
sample_result = record { sorted_recordset = []; groupset = get_or sample_groups 0 [] }

groupfilter_lem_example :
    groupfilter all_options web_groups (some sample_result) 0
    ≡ ok (
      record {
        filtered_groupset =
            kept_groups (map (map assign_groupfilter_func) web_groups) sample_result.groupset;
      },
      written_if true (groupfilter_branch_filtered_groups 0) (
          map cooked
            (kept_groups (map (map assign_groupfilter_func) web_groups) sample_result.groupset)),
    )
groupfilter_lem_example = groupfilter_lem all_options web_groups sample_result 0 web-IsAssigned

abbrev sample_tuples : MergerResult
sample_tuples = record {
  total_num_group_tuples = 2;
  group_tuples =
      (group_of (packet 80 5 9) ∷ group_of (packet 22 6 8) ∷ [])
      ∷ (group_of (packet 22 1 2) ∷ group_of (packet 22 6 8) ∷ [])
      ∷ [];
}

ungrouper_lem_example :
    ungrouper all_options 2 (some sample_tuples)
    ≡ ok (
      record {
        streamset =
            record { recordset = packet 80 5 9 ∷ packet 22 6 8 ∷ [] }
            ∷ record { recordset = packet 22 1 2 ∷ packet 22 6 8 ∷ [] }
            ∷ [];
      },
      stream_files all_options 0 sample_tuples.group_tuples,
    )
ungrouper_lem_example = ungrouper_lem all_options 2 sample_tuples (refl, (refl, tt))

merger_ready : AllReady 2 (map (map assign_merger_func) (equal_ports ∷ []))
unfolding assign_merger_func merger_cases
merger_ready = (
  (
    record {
      branch1_lt = omega arith;
      branch2_lt = omega arith;
      func = merger_func eq w8 w8;
      assigned = refl;
    },
    tt,
  ),
  tt,
)

abbrev sample_merged : List (List Group)
sample_merged =
    merged all_options (equal_ports ∷ []) sample_branches sample_groups (omega arith)
      (refl, (refl, tt)) merger_ready

abbrev sample_iter : PermutIter
sample_iter = record { num_filtered_groups = 2 ∷ 1 ∷ []; filtered_group_tuple = 1 ∷ 0 ∷ [] }

merger_lem_example :
    NonEmpty sample_groups
      × (merger all_options (equal_ports ∷ []) sample_branches
          ≡ ok (
            record { total_num_group_tuples = 2; group_tuples = sample_merged },
            written_if true merger_merged_groups (cooked_records sample_merged)
                ++ written_if true merger_to_be_merged_groups
                    (cooked_records (cartesian sample_groups)),
          ))
    ⊎ (¬ NonEmpty sample_groups)
      × (sample_merged ≡ [])
      × (merger all_options (equal_ports ∷ []) sample_branches
          ≡ ok (record { total_num_group_tuples = 0; group_tuples = [] }, []))
merger_lem_example =
    merger_lem all_options (equal_ports ∷ []) sample_branches sample_groups (omega arith)
      (refl, (refl, tt)) merger_ready

merger_first_clause_example :
    merger all_options (equal_ports ∷ equal_ports ∷ []) sample_branches
    ≡ merger all_options (equal_ports ∷ []) sample_branches
merger_first_clause_example =
    merger_first_clause all_options equal_ports (equal_ports ∷ []) sample_branches sample_groups
      (omega arith) (refl, (refl, tt)) (merger_ready.0, merger_ready)

iter_next_lem_example :
    IsIter (iter_next sample_iter).1
    × (((iter_next sample_iter).0 ≡ true)
          × (to_come sample_iter
              ≡ (iter_next sample_iter).1.filtered_group_tuple ∷ to_come (iter_next sample_iter).1)
        ⊎ ((iter_next sample_iter).0 ≡ false) × (to_come sample_iter ≡ []))
iter_next_lem_example = iter_next_lem sample_iter ((omega arith, (omega arith, tt)), refl)

iter_init_lem_example :
    NonEmpty sample_groups
      × ((iter : PermutIter) × (iter_init sample_branches ≡ ok (some iter))
          × (iter.num_filtered_groups ≡ 2 ∷ 1 ∷ [])
          × IsIter iter
          × (to_come iter ≡ all_tuples (2 ∷ 1 ∷ [])))
    ⊎ (¬ NonEmpty sample_groups) × (iter_init sample_branches ≡ ok none)
iter_init_lem_example = iter_init_lem sample_branches sample_groups (omega arith) (refl, (refl, tt))

branch_start_lem_example : Threaded sorting_libc byte_io all_options filtered_sample by_port trace
branch_start_lem_example =
    branch_start_lem sorting_libc byte_io all_options filtered_sample (packet 80 5 9)
      (packet 22 1 2 ∷ packet 80 3 4 ∷ packet 22 6 8 ∷ []) by_port sorting_libc-IsLibc refl refl
      refl refl sample-IsTyped web-IsAssigned

branch_start-fuel_example :
    branch_start sorting_libc all_options byte_io filtered_sample ≢ abort out_of_fuel
branch_start-fuel_example =
    branch_start-fuel sorting_libc all_options byte_io filtered_sample sorting_libc-SortEnds

merger-ungrouper_example :
    (merger all_options (equal_ports ∷ []) sample_branches >>= λ result.
    ungrouper all_options 2 (some result.0))
    ≡ ok (record { streamset = streams_of sample_merged }, stream_files all_options 0 sample_merged)
merger-ungrouper_example =
    merger-ungrouper all_options (equal_ports ∷ []) sample_branches sample_groups (omega arith)
      (refl, (refl, tt)) merger_ready
