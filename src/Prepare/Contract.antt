-- ===== src/Prepare/Contract.antt =====
-- The contract of `prepare_flowquery` of src/f.c.
use nfql.Prelude.{
  ℕ, suc, ◌≡◌, refl, inl, List, [], ◌∷◌, none, map, true, All, Outcome, map_outcome, if◌then◌else◌,
  length, arith,
}
use nfql.Prelude.Decides.{Decides, Decides-if, Decides-map_outcome, Decides-always}
use nfql.Io.{IoHandler}
use nfql.Output.{Options}
use nfql.Query.{JsonBranch, Json}
use nfql.Pipeline.{Branch, Flowquery}
use nfql.Prepare.{
  prepare_filter, prepare_grouper, prepare_aggr, prepare_groupfilter, prepare_branch,
  prepare_branches, prepare_merger, prepare_flowquery,
}
use nfql.Prepare.Known.{
  FilterKnown, GrouperKnown, AggrKnown, GroupfilterKnown, NamesBranches, MergerKnown, filter_term,
  grouper_term, aggr_term, groupfilter_term, merger_term, prepare_filter_term-Decides,
  prepare_grouper_term-Decides, prepare_aggr_term-Decides, prepare_groupfilter_term-Decides,
  prepare_merger_term-Decides,
}

clauses-Decides {ℓ κ} :
    {A : Type ℓ} {B : Type κ} {P : A → Type 0} (f : A → Outcome B) (g : A → B)
    → ((x : A) → Decides (P x) (f x) (g x))
    → (xs : List (List A))
    → Decides (All (All P) xs) (map_outcome (map_outcome f) xs) (map (map g) xs)
clauses-Decides f g h = Decides-always _ _ (Decides-always f g h)

module _ (io : IoHandler) (options : Options) where
  -- The names that the enabled stages of a branch ask for are known.
  abbrev pub BranchKnown : JsonBranch → Type 0
  BranchKnown b =
      (options.filter_enabled ≡ true → All (All (FilterKnown io)) b.filter_clauseset)
      × (options.grouper_enabled ≡ true → All (All (GrouperKnown io)) b.grouper_clauseset)
      × (options.groupaggregations_enabled ≡ true → All (AggrKnown io) b.aggr_clause_termset)
      × (options.groupfilter_enabled ≡ true
          → All (All (GroupfilterKnown io)) b.groupfilter_clauseset)

  -- The branch of an index, whose terms have no functions yet, and which has no results.
  abbrev pub prepared_branch : ℕ → JsonBranch → Branch
  prepared_branch i b = record {
    branch_id = i;
    filter_clauseset =
        if options.filter_enabled then map (map (filter_term io)) b.filter_clauseset else [];
    grouper_clauseset =
        if options.grouper_enabled then map (map (grouper_term io)) b.grouper_clauseset else [];
    aggr_clause_termset =
        if options.groupaggregations_enabled then map (aggr_term io) b.aggr_clause_termset else [];
    groupfilter_clauseset =
        if options.groupfilter_enabled
        then map (map (groupfilter_term io)) b.groupfilter_clauseset
        else [];
    write_ctxt = [];
    filter_result = none;
    grouper_result = none;
    gfilter_result = none;
  }

  abbrev pub prepared_branches : ℕ → List JsonBranch → List Branch
  prepared_branches i [] = []
  prepared_branches i (b ∷ bs) = prepared_branch i b ∷ prepared_branches (suc i) bs

  prepare_branch-Decides :
      (i : ℕ) (b : JsonBranch)
      → Decides (BranchKnown b) (prepare_branch io options i b) (prepared_branch i b)
  unfolding prepare_branch prepare_filter prepare_grouper prepare_aggr prepare_groupfilter
  prepare_branch-Decides i b =
      let filter =
        Decides-if options.filter_enabled []
          (λ on. clauses-Decides _ _ (prepare_filter_term-Decides io) b.filter_clauseset) in
      let grouper =
        Decides-if options.grouper_enabled []
          (λ on. clauses-Decides _ _ (prepare_grouper_term-Decides io) b.grouper_clauseset) in
      let aggr =
        Decides-if options.groupaggregations_enabled []
          (λ on. Decides-always _ _ (prepare_aggr_term-Decides io) b.aggr_clause_termset) in
      let groupfilter =
        Decides-if options.groupfilter_enabled [] (λ on.
          clauses-Decides _ _ (prepare_groupfilter_term-Decides io) b.groupfilter_clauseset) in
      ground arith

  prepare_branches-Decides :
      (i : ℕ) (bs : List JsonBranch)
      → Decides (All BranchKnown bs) (prepare_branches io options i bs) (prepared_branches i bs)
  unfolding prepare_branches
  prepare_branches-Decides i [] = inl (tt, refl)
  prepare_branches-Decides i (b ∷ bs) =
      let one = prepare_branch-Decides i b in
      let rest = prepare_branches-Decides (suc i) bs in ground arith

  -- All names that the enabled stages of a query ask for are known.
  abbrev pub QueryKnown : Json → Type 0
  QueryKnown q =
      All BranchKnown q.branchset
      × (options.merger_enabled ≡ true → All (All (MergerKnown io)) q.merger_clauseset)

  -- If the merger is on, the ids of its terms are those of branches of the query.
  abbrev pub IdsInBounds : Json → Type 0
  IdsInBounds q =
      options.merger_enabled ≡ true
      → All (All (NamesBranches (length q.branchset))) q.merger_clauseset

  abbrev pub prepared : Json → Flowquery
  prepared q = record {
    branchset = prepared_branches 0 q.branchset;
    merger_clauseset =
        if options.merger_enabled then map (map (merger_term io)) q.merger_clauseset else [];
    merger_result = none;
    ungrouper_result = none;
  }

  -- For a query whose merger terms, if the merger is on, name branches of the query, which the code
  -- does not test: if all names that its enabled stages ask for are known, the flow query has them
  -- resolved, stage by stage, and numbers its branches from 0; otherwise the program exits with an
  -- error.
  pub prepare_flowquery_lem :
      (q : Json)
      → IdsInBounds q
      → Decides (QueryKnown q) (prepare_flowquery io options q) (prepared q)
  unfolding prepare_flowquery prepare_merger
  prepare_flowquery_lem q ids =
      let branches = prepare_branches-Decides 0 q.branchset in
      let merger = Decides-if options.merger_enabled [] (λ on.
        Decides-map_outcome _ _ _
          (Decides-map_outcome _ _ _ (prepare_merger_term-Decides io (length q.branchset)))
          q.merger_clauseset (ids on)) in
      ground arith
