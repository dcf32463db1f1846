-- ===== src/BranchThread/Contract.antt =====
-- The contract of `branch_start` of src/branch.c with the grouper and the group filter on.
use nfql.Prelude.{
  ◌≡◌, refl, ap, ◌∙◌, true, Bool-cases, inl, inr, ◌∷◌, ◌&&◌, List, [], ◌++◌, none, some, map, All,
  ok, if◌then◌else◌,
}
use nfql.Io.{IoHandler}
use nfql.Word.{Buffer}
use nfql.Libc.{Libc, IsLibc}
use nfql.Output.{
  Options, OutFile, written_if, groupfilter_branch_filtered_groups, grouper_branch_sorted_records,
  grouper_branch_groups,
}
use nfql.Pipeline.{Branch, FilterResult, Group, GrouperClause, GrouperResult}
use nfql.Comps.{cooked}
use nfql.Comps.Assign.{assign_groupfilter_func}
use nfql.Grouper.{grouper}
use nfql.Grouper.Assigned.{IsTyped, with_functions}
use nfql.Grouper.Partition.{member_files}
use nfql.Grouper.Contract.{Grouped, grouped_branch, grouper_lem}
use nfql.Groupfilter.{groupfilter}
use nfql.Groupfilter.Contract.{IsAssigned, kept_groups, groupfilter_lem}
use nfql.BranchThread.{
  exit_success, exit_failure, run_grouper, free_filter_rules, run_groupfilter, run_stages,
  branch_start,
}

module _ (libc : Libc) (io : IoHandler) (options : Options) where
  -- The groups of the branch that pass its group filter.
  abbrev pub passing_groups : Branch → List Group → List Group
  passing_groups branch groups =
      kept_groups (map (map assign_groupfilter_func) branch.groupfilter_clauseset) groups

  -- The file of the groups that pass.
  abbrev pub passing_file : Branch → List Group → List OutFile
  passing_file branch groups =
      written_if (options.verbose_v && options.file)
        (groupfilter_branch_filtered_groups branch.branch_id) (map cooked groups)

  -- The branch at the thread's end: its rules are freed, and its results stand.
  abbrev pub finished_branch : Branch → GrouperResult → List Group → Branch
  finished_branch grouped gresult groups = record grouped {
    filter_clauseset = if options.filter_enabled then [] else grouped.filter_clauseset;
    grouper_clauseset = [];
    aggr_clause_termset =
        if options.groupaggregations_enabled then [] else grouped.aggr_clause_termset;
    groupfilter_clauseset = [];
    gfilter_result = some (record { filtered_groupset = groups });
  }

  free_filter_rules_lem :
      (branch : Branch)
      → free_filter_rules libc options branch ≡ record branch {
        filter_clauseset = if options.filter_enabled then [] else branch.filter_clauseset;
      }
  unfolding free_filter_rules
  free_filter_rules_lem branch = elim (Bool-cases options.filter_enabled) [
    | inl on ↦ rw on refl
    | inr off ↦ rw off refl
  ]

  -- The group filter behind a grouper that ends with a result.
  stages_behind_grouper :
      (branch grouped : Branch) (fresult : FilterResult) (gresult : GrouperResult)
      (files : List OutFile)
      → options.grouper_enabled ≡ true
      → options.groupfilter_enabled ≡ true
      → branch.filter_result ≡ some fresult
      → grouper libc options io branch ≡ ok (grouped, files)
      → grouped.grouper_result ≡ some gresult
      → All (All IsAssigned) (map (map assign_groupfilter_func) grouped.groupfilter_clauseset)
      → branch_start libc options io branch
        ≡ ok (
          exit_success,
          finished_branch grouped gresult (passing_groups grouped gresult.groupset),
          files ++ passing_file grouped (passing_groups grouped gresult.groupset),
        )
  unfolding branch_start run_stages run_grouper run_groupfilter
  stages_behind_grouper branch grouped fresult gresult files g h filtered run result assigned =
      ap
        (λ r. elim r [
          | none ↦
              if options.filter_enabled
              then ok (exit_failure, branch, [])
              else run_stages libc options io branch
          | some _ ↦ run_stages libc options io branch
        ])
        filtered
      ∙ rw (g, run, free_filter_rules_lem, h, group_filter) refl
    where
      group_filter :
          groupfilter options grouped.groupfilter_clauseset grouped.grouper_result grouped.branch_id
          ≡ ok (
            record { filtered_groupset = passing_groups grouped gresult.groupset },
            passing_file grouped (passing_groups grouped gresult.groupset),
          )
      group_filter =
          ap (λ r. groupfilter options grouped.groupfilter_clauseset r grouped.branch_id) result
          ∙ groupfilter_lem options grouped.groupfilter_clauseset gresult grouped.branch_id assigned

  -- The files of the grouper: of the sorted records, of the members of each group, of the groups.
  abbrev pub grouping_files :
      {gclause : GrouperClause} {records : List Buffer} (branch : Branch)
      → Grouped libc io options branch gclause records
      → List OutFile
  grouping_files branch grouped =
      (written_if (options.verbose_vv && options.file)
          (grouper_branch_sorted_records branch.branch_id) grouped.clustered.sorted
        ++ member_files io options (with_functions libc options branch) 0 grouped.clustered.parts)
      ++ written_if (options.verbose_v && options.file) (grouper_branch_groups branch.branch_id)
          (map cooked grouped.clustered.groups)

  -- What the thread of a branch comes to.
  pub record Threaded (branch : Branch) (gclause : GrouperClause) (records : List Buffer)
      : Type 0 where
    pub grouped : Grouped libc io options branch gclause records
    pub run :
        let groups = grouped.clustered.groups in
        let sorted = grouped.clustered.sorted in
        let after =
          grouped_branch libc io options branch sorted
            (if options.verbose_vv then sorted else [])
            groups in
        branch_start libc options io branch
        ≡ ok (
          exit_success,
          finished_branch after
              (record {
                sorted_recordset = if options.verbose_vv then sorted else [];
                groupset = groups;
              })
              (passing_groups branch groups),
          grouping_files branch grouped ++ passing_file branch (passing_groups branch groups),
        )

  -- With the grouper and the group filter on, on a branch that has filtered records, one grouper
  -- clause, known types and operations, and functions for its group filter's terms, the thread exits
  -- with success. Its groups are the runs of the sorted records that join, and its filtered groups
  -- are those of them that pass the group filter, in their order. The rules of the stages that are on
  -- are freed, and the files are those of the two stages.
  pub branch_start_lem :
      (branch : Branch) (item : Buffer) (items : List Buffer) (gclause : GrouperClause)
      → IsLibc libc
      → options.grouper_enabled ≡ true
      → options.groupfilter_enabled ≡ true
      → branch.filter_result ≡ some (record { filtered_recordset = item ∷ items })
      → branch.grouper_clauseset ≡ gclause ∷ []
      → IsTyped libc options branch
      → All (All IsAssigned) (map (map assign_groupfilter_func) branch.groupfilter_clauseset)
      → Threaded branch gclause (item ∷ items)
  branch_start_lem branch item items gclause is_libc g h filtered one typed assigned =
      let grouped =
        grouper_lem libc io options branch item items gclause is_libc filtered one typed in
      record {
        grouped = grouped;
        run = stages_behind_grouper branch _ _ _ _ g h filtered grouped.run refl assigned;
      }
