-- ===== src/BranchThread/Termination.antt =====
-- `branch_start` of src/branch.c comes to its end on every branch: the fuel of the grouper's loop is
-- enough.
use nfql.Prelude.{
  ℕ, refl, if◌then◌else◌, ◌≢◌, subst, inl, inr, Bool, List, [], ◌∷◌, Option, none, some, Outcome,
  ok, abort, Bool-cases, map, length, ltb,
}
use nfql.Prelude.Fault.{out_of_fuel}
use nfql.Prelude.Ends.{EndsIn, Ends, EndsIn-cases, Ends-if}
use nfql.Io.{IoHandler}
use nfql.Libc.{Libc}
use nfql.Dnf.{scan_clauses}
use nfql.Output.{Options}
use nfql.Pipeline.{Branch, Group, GroupfilterTerm, GroupfilterClause, GrouperResult, FilterResult}
use nfql.Comps.Assign.{assign_groupfilter_func}
use nfql.Grouper.Ends.{call-Ends, scan_terms-Ends}
use nfql.Grouper.Termination.{SortEnds, grouper-Ends}
use nfql.Groupfilter.{groupfilter_test, filter_groups, groupfilter}
use nfql.BranchThread.{
  run_grouper, free_filter_rules, run_groupfilter, run_stages, branch_start, exit_failure,
}

scan_clauses-Ends :
    {T : Type 0} (test : T → Outcome Bool)
    → ((t : T) → Ends (test t))
    → (clauses : List (List T)) → Ends (scan_clauses test clauses)
unfolding scan_clauses
scan_clauses-Ends test h [] = tt
scan_clauses-Ends test h (clause ∷ clauses) =
    elim (EndsIn-cases (λ _. Unit) _ (scan_terms-Ends test h 0 clause)) [
      | inr (f, e, n) ↦ rw e n
      | inl (j, e, _) ↦ elim (Bool-cases (ltb j (length clause))) [
        | inl on ↦ rw (e, on) (scan_clauses-Ends test h clauses)
        | inr off ↦ rw (e, off) tt
      ]
    ]

groupfilter_test-Ends :
    (group : Group) (term : GroupfilterTerm) → Ends (groupfilter_test group term)
unfolding groupfilter_test
groupfilter_test-Ends group term = call-Ends term.func _

filter_groups-Ends :
    (clauseset : List GroupfilterClause) (groups filtered : List Group)
    → Ends (filter_groups clauseset groups filtered)
unfolding filter_groups
filter_groups-Ends clauseset [] filtered = tt
filter_groups-Ends clauseset (group ∷ groups) filtered =
    elim (EndsIn-cases (λ _. Unit) _
      (scan_clauses-Ends (groupfilter_test group) (groupfilter_test-Ends group) clauseset)) [
        | inr (f, e, n) ↦ rw e n
        | inl (satisfied, e, _) ↦ rw e (filter_groups-Ends clauseset groups _)
      ]

groupfilter-Ends :
    (options : Options) (clauseset : List GroupfilterClause) (gresult : Option GrouperResult)
    (branch_id : ℕ)
    → Ends (groupfilter options clauseset gresult branch_id)
unfolding groupfilter
groupfilter-Ends options clauseset none branch_id = λ e. cc
groupfilter-Ends options clauseset (some gresult) branch_id =
    elim (EndsIn-cases (λ _. Unit) _
      (filter_groups-Ends (map (map assign_groupfilter_func) clauseset) gresult.groupset [])) [
        | inr (f, e, n) ↦ rw e n
        | inl (groups, e, _) ↦ rw e tt
      ]

module _ (libc : Libc) (options : Options) where
  run_groupfilter-Ends : (branch : Branch) → Ends (run_groupfilter libc options branch)
  unfolding run_groupfilter
  run_groupfilter-Ends branch = elim (Bool-cases options.groupfilter_enabled) [
    | inr off ↦ rw off tt
    | inl on ↦
        elim (EndsIn-cases (λ _. Unit) _
          (groupfilter-Ends options branch.groupfilter_clauseset branch.grouper_result
            branch.branch_id)) [ inr (f, e, n) ↦ rw (on, e) n | inl (r, e, _) ↦ rw (on, e) tt ]
  ]

  run_grouper-Ends :
      (io : IoHandler) (branch : Branch) → SortEnds libc → Ends (run_grouper libc options io branch)
  unfolding run_grouper
  run_grouper-Ends io branch sorts = elim (Bool-cases options.grouper_enabled) [
    | inr off ↦ rw off tt
    | inl on ↦ elim (EndsIn-cases (λ _. Unit) _ (grouper-Ends libc options io branch sorts)) [
      | inr (f, e, n) ↦ rw (on, e) n
      | inl (r, e, _) ↦ rw (on, e) tt
    ]
  ]

  run_stages-Ends :
      (io : IoHandler) (branch : Branch) → SortEnds libc → Ends (run_stages libc options io branch)
  unfolding run_stages
  run_stages-Ends io branch sorts =
      elim (EndsIn-cases (λ _. Unit) _ (run_grouper-Ends io branch sorts)) [
        | inr (f, e, n) ↦ rw e n
        | inl (grouped, e, _) ↦
            elim (EndsIn-cases (λ _. Unit) _
              (run_groupfilter-Ends (free_filter_rules libc options (grouped.0)))) [
                | inr (f, e', n) ↦ rw (e, e') n
                | inl (filtered, e', _) ↦ rw (e, e') tt
              ]
      ]

  branch_start-Ends :
      (io : IoHandler) (branch : Branch)
      → SortEnds libc
      → Ends (branch_start libc options io branch)
  unfolding branch_start
  branch_start-Ends io branch sorts = from branch.filter_result
    where
      stages : Ends (run_stages libc options io branch)
      stages = run_stages-Ends io branch sorts

      from :
          (result : Option FilterResult)
          → Ends (elim result [
            | none ↦
                if options.filter_enabled
                then ok (exit_failure, branch, [])
                else run_stages libc options io branch
            | some _ ↦ run_stages libc options io branch
          ])
      from none = Ends-if options.filter_enabled _ (run_stages libc options io branch) tt stages
      from (some fresult) = stages

  -- The thread of a branch comes to its end, whatever the branch, its clauses and the options, found
  -- functions or not: the loop of the grouper never runs out of fuel, if `qsort_r` comes to its end
  -- whenever its comparison does.
  pub branch_start-fuel :
      (io : IoHandler) (branch : Branch)
      → SortEnds libc
      → branch_start libc options io branch ≢ abort out_of_fuel
  branch_start-fuel io branch sorts e =
      subst (EndsIn (λ _. Unit)) e (branch_start-Ends io branch sorts) refl
