-- ===== src/Grouper/Contract.antt =====
-- The contract of `grouper` of src/grouper.c on a branch with one grouper clause, and on one with
-- none.
use mathlib.Core.List.{Perm}
use nfql.Prelude.{
  suc, ◌≡◌, refl, sym, ap, subst, ◌∙◌, ◌&&◌, List, [], ◌∷◌, ◌++◌, some, arith, map, All, length,
  deref, if◌then◌else◌, Outcome, ok, ◌>>=◌,
}
use nfql.Word.{Buffer}
use nfql.Io.{IoHandler}
use nfql.Libc.{Libc, IsLibc, IsSorted}
use nfql.Output.{
  Options, OutFile, written_if, grouper_branch_groups, grouper_branch_sorted_records,
  grouper_branch_group_records,
}
use nfql.Pipeline.{Branch, FilterResult, Group, GrouperClause}
use nfql.Comps.{cooked}
use nfql.Comps.Assign.{assign_grouper_func}
use nfql.Grouper.{
  Grouping, make_groups, group_all, group_clauses, grouper, group_filtered, new_group, add_members,
}
use nfql.Grouper.Sort.{get_grouper_intermediates, qsort_comp}
use nfql.Grouper.Sort.Order.{HasGtype, gtypes, compare_keys, compare_keys-IsOrder, qsort_comp_lem}
use nfql.Grouper.Growth.{HasFunc}
use nfql.Grouper.Finish.{IsAggregable, finish_group_lem}
use nfql.Grouper.Span.{IsGroupOf, new_group-IsGroupOf}
use nfql.Grouper.Partition.{
  Part, flatten, AreRuns, AreGroupsOf, member_files, group_records_lem, Finished-IsGroupOf,
}
use nfql.Grouper.Assigned.{
  IsTyped, GrouperTyped, with_grouper_aggr, with_functions, assign_functions_lem,
  with_functions-HasFunc, with_functions-HasGtype, with_functions-IsAggregable,
}
use nfql.Grouper.Keys.{IsExact, Agree, AreDistinct, runs-Agree, runs_distinct}

module _ (libc : Libc) (io : IoHandler) (options : Options) where
  -- What the grouping of a list of records by one clause comes to.
  pub record Clustered (branch : Branch) (gclause : GrouperClause) (records : List Buffer)
      : Type 0 where
    pub sorted : List Buffer
    pub parts : List Part
    pub groups : List Group
    pub run :
        make_groups libc io options branch (gclause ∷ []) records
        ≡ ok (
          sorted,
          (if options.verbose_vv then sorted else []),
          record {
            groupset = groups;
            files =
                written_if
                  (options.verbose_vv && options.file)
                  (grouper_branch_sorted_records branch.branch_id)
                  sorted
                ++ member_files io options branch 0 parts;
          },
        )
    pub same_records : Perm sorted records
    pub in_order : IsSorted (compare_keys gclause) sorted
    pub split : flatten parts ≡ sorted
    pub runs : AreRuns io gclause parts
    pub groups_are : AreGroupsOf io parts groups

  sort_comparison :
      (gclause : GrouperClause)
      → All HasGtype gclause
      → qsort_comp gclause (gtypes gclause) ≡ (λ x y. ok (compare_keys gclause x y))
  sort_comparison gclause h = λ i x y. qsort_comp_lem gclause x y h i

  pub make_groups_lem :
      (branch : Branch) (gclause : GrouperClause) (records : List Buffer)
      → IsLibc libc
      → All HasFunc gclause
      → All HasGtype gclause
      → IsAggregable options branch
      → Clustered branch gclause records
  unfolding make_groups group_clauses get_grouper_intermediates
  make_groups_lem branch gclause records is_libc funcs typed aggregable =
      let sort =
        is_libc.qsort_r_lem (compare_keys gclause) records (compare_keys-IsOrder gclause) in
      let parted =
        group_records_lem io options branch (suc (length sort.0)) gclause sort.0
          (record {
            groupset = [];
            files =
                written_if (options.verbose_vv && options.file)
                  (grouper_branch_sorted_records branch.branch_id) sort.0;
          })
          (omega arith) aggregable funcs in
      record {
        sorted = sort.0;
        parts = parted.parts;
        groups = parted.groups;
        run = rw (sort_comparison gclause typed, sort.1, parted.run) refl;
        same_records = sort.2;
        in_order = sort.3;
        split = parted.split;
        runs = parted.runs;
        groups_are = parted.groups_are;
      }

  -- The branch and the files behind the stage.
  abbrev pub grouped_branch : Branch → List Buffer → List Buffer → List Group → Branch
  grouped_branch branch records sorted groups = record (with_functions libc options branch) {
    filter_result = some (record { filtered_recordset = records });
    grouper_result = some (record { sorted_recordset = sorted; groupset = groups });
  }

  abbrev conclude : Branch → List Buffer × List Buffer × Grouping → Outcome (Branch × List OutFile)
  conclude branch (records, sorted, grouping) = ok (
    grouped_branch branch records sorted grouping.groupset,
    grouping.files
        ++ written_if (options.verbose_v && options.file) (grouper_branch_groups branch.branch_id)
            (map cooked grouping.groupset),
  )

  -- The terms of the clauses with their functions.
  abbrev pub assigned_clauses : List GrouperClause → List GrouperClause
  assigned_clauses gclauses =
      map (map assign_grouper_func) (map (map (with_grouper_aggr libc options)) gclauses)

  grouper_run :
      (branch : Branch) (item : Buffer) (items : List Buffer)
      → branch.filter_result ≡ some (record { filtered_recordset = item ∷ items })
      → IsTyped libc options branch
      → grouper libc options io branch ≡ (
          make_groups libc io options
            (with_functions libc options branch)
            (Branch.grouper_clauseset (with_functions libc options branch))
            (item ∷ items)
          >>= conclude branch)
  unfolding grouper group_filtered
  grouper_run branch item items filtered typed =
      ap
        (λ r. deref r >>= λ (fresult : FilterResult).
          group_filtered libc options io branch fresult.filtered_recordset)
        filtered
      ∙ ap (λ o. o >>= λ assigned. group_assigned assigned)
          (assign_functions_lem libc options branch typed)
    where
      group_assigned : Branch → Outcome (Branch × List OutFile)
      group_assigned assigned =
          make_groups libc io options assigned assigned.grouper_clauseset (item ∷ items) >>= λ done.
          ok (
            record assigned {
              filter_result = some (record { filtered_recordset = done.0 });
              grouper_result =
                  some (record { sorted_recordset = done.1; groupset = Grouping.groupset done.2 });
            },
            Grouping.files done.2
                ++ written_if (options.verbose_v && options.file)
                    (grouper_branch_groups branch.branch_id)
                    (map cooked (Grouping.groupset done.2)),
          )

  -- The terms of a clause with their functions.
  abbrev pub assigned_clause : GrouperClause → GrouperClause
  assigned_clause gclause = map assign_grouper_func (map (with_grouper_aggr libc options) gclause)

  -- The stage on a branch that has filtered records and one grouper clause.
  pub record Grouped (branch : Branch) (gclause : GrouperClause) (records : List Buffer)
      : Type 0 where
    pub clustered : Clustered (with_functions libc options branch) (assigned_clause gclause) records
    pub run :
        grouper libc options io branch
        ≡ ok (
          grouped_branch branch clustered.sorted
              (if options.verbose_vv then clustered.sorted else [])
              clustered.groups,
          (written_if
                  (options.verbose_vv && options.file)
                  (grouper_branch_sorted_records branch.branch_id)
                  clustered.sorted
                ++ member_files io options (with_functions libc options branch) 0 clustered.parts)
              ++ written_if
                  (options.verbose_v && options.file)
                  (grouper_branch_groups branch.branch_id)
                  (map cooked clustered.groups),
        )

  clause_HasFunc :
      (gclause : GrouperClause)
      → All (GrouperTyped libc options) gclause
      → All HasFunc (assigned_clause gclause)
  clause_HasFunc [] h = tt
  clause_HasFunc (term ∷ gclause) h =
      (with_functions-HasFunc libc options term h.0, clause_HasFunc gclause h.1)

  clause_HasGtype :
      (gclause : GrouperClause)
      → All (GrouperTyped libc options) gclause
      → All HasGtype (assigned_clause gclause)
  clause_HasGtype [] h = tt
  clause_HasGtype (term ∷ gclause) h =
      (with_functions-HasGtype libc options term h.0, clause_HasGtype gclause h.1)

  -- With one grouper clause, whose terms' types and operations the program knows, the stage comes
  -- to its end. It sorts the filtered records by the right fields of the clause's terms, cuts the
  -- sorted records into runs, each as long as the next record joins the group so far, and makes of
  -- each run a group, with the least start and the greatest end of its members.
  pub grouper_lem :
      (branch : Branch) (item : Buffer) (items : List Buffer) (gclause : GrouperClause)
      → IsLibc libc
      → branch.filter_result ≡ some (record { filtered_recordset = item ∷ items })
      → branch.grouper_clauseset ≡ gclause ∷ []
      → IsTyped libc options branch
      → Grouped branch gclause (item ∷ items)
  grouper_lem branch item items gclause is_libc filtered one typed =
      let terms = subst (All (All (GrouperTyped libc options))) one typed.grouper_typed in
      let made =
        make_groups_lem (with_functions libc options branch) (assigned_clause gclause)
          (item ∷ items) is_libc (clause_HasFunc gclause terms.0) (clause_HasGtype gclause terms.0)
          (with_functions-IsAggregable libc options branch typed) in
      record {
        clustered = made;
        run =
            grouper_run branch item items filtered typed
            ∙ ap
                (λ clauses.
                  make_groups libc io options (with_functions libc options branch)
                    (assigned_clauses clauses) (item ∷ items)
                  >>= conclude branch)
                one
            ∙ ap (λ o. o >>= conclude branch) made.run;
      }

  -- When each term of the clause compares a field with itself, exactly, all members of a group have
  -- the same keys, and no two groups do.
  pub grouper_distinct :
      (branch : Branch) (gclause : GrouperClause) (records : List Buffer)
      → (grouped : Grouped branch gclause records) → All IsExact (assigned_clause gclause)
      → All (Agree (assigned_clause gclause)) grouped.clustered.parts
        × AreDistinct (assigned_clause gclause) grouped.clustered.parts
  grouper_distinct branch gclause records grouped exact =
      let made = grouped.clustered in
      (
        runs-Agree io (assigned_clause gclause) exact made.parts made.runs,
        runs_distinct io (assigned_clause gclause) exact made.parts made.runs (
            subst (IsSorted (compare_keys (assigned_clause gclause))) (sym made.split)
              made.in_order),
      )

  -- The stage on a branch that has filtered records and no grouper clause.
  pub record GroupedAll (branch : Branch) (records : List Buffer) : Type 0 where
    pub group : Group
    pub run :
        grouper libc options io branch
        ≡ ok (
          grouped_branch branch records [] (group ∷ []),
          written_if
                (options.verbose_vv && options.file)
                (grouper_branch_group_records branch.branch_id 0)
                []
              ++ written_if
                  (options.verbose_v && options.file)
                  (grouper_branch_groups branch.branch_id)
                  (cooked group ∷ []),
        )
    pub group_is : IsGroupOf io group records

  -- Without a grouper clause, the stage makes one group of all filtered records, in their order,
  -- with the least start and the greatest end of them.
  pub grouper_all_lem :
      (branch : Branch) (item : Buffer) (items : List Buffer)
      → branch.filter_result ≡ some (record { filtered_recordset = item ∷ items })
      → branch.grouper_clauseset ≡ []
      → IsTyped libc options branch
      → GroupedAll branch (item ∷ items)
  unfolding make_groups group_all
  grouper_all_lem branch item items filtered none_given typed =
      let group = add_members io (new_group io io.io_read_get_record_size item) items in
      let finished =
        finish_group_lem options (with_functions libc options branch) group
          (with_functions-IsAggregable libc options branch typed) in
      record {
        group = finished.result;
        run =
            grouper_run branch item items filtered typed
            ∙ ap
                (λ clauses.
                  make_groups libc io options (with_functions libc options branch)
                    (assigned_clauses clauses) (item ∷ items)
                  >>= conclude branch)
                none_given
            ∙ rw finished.run refl;
        group_is =
            Finished-IsGroupOf io options (with_functions libc options branch) group (item ∷ items)
              (new_group-IsGroupOf io io.io_read_get_record_size item items) finished;
      }
