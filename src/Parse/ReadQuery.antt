-- ===== src/Parse/ReadQuery.antt =====
-- What `parse_json_query` of src/f.c reads of the members of an encoded query beside its branches,
-- and the stages that its branches switch on.
use nfql.Prelude.{
  Outcome-cases, ◌≡◌, ◌≢◌, refl, ap, subst, inl, inr, Bool, true, false, List, [], ◌∷◌, ◌++◌, some,
  none, Outcome, ok, abort, ◌>>=◌, if◌then◌else◌, Bool-cases, All,
}
use nfql.JsonC.{JsonC, IsJsonC, find_member}
use nfql.Ipfix.{IpfixTempl}
use nfql.Output.{Options}
use nfql.Query.{JsonBranch, Json}
use nfql.Query.Terms.{parse_merger_term}
use nfql.Parse.{parse_merger, enable_merger, enable_ungrouper}
use nfql.Parse.Encode.{encode_dnf, encode_merger_term, member_if}
use nfql.Parse.Read.{run_all}
use nfql.Parse.ReadTerms.{MergerSmall, register_merger_term, parse_merger_term_lem}
use nfql.Parse.ReadStages.{IsWithin, AreWithin, IsReadable, with_stages, register_branch, stage_lem}
use nfql.Parse.ReadAggr.{IsWithin-off}

pub find_rest :
    {J : Type 0} (f g : Bool) (x y z : J)
    → let members = ("branchset", x) ∷ member_if f "merger" y ++ member_if g "ungrouper" z in
      (find_member "branchset" members ≡ some x)
      × (find_member "merger" members ≡ (if f then some y else none))
      × (find_member "ungrouper" members ≡ (if g then some z else none))
find_rest true true x y z = (refl, refl, refl)
find_rest true false x y z = (refl, refl, refl)
find_rest false true x y z = (refl, refl, refl)
find_rest false false x y z = (refl, refl, refl)

module _ (stages : Options) where
  -- The options with the stages of the query on.
  abbrev pub with_query : Options → Options
  with_query options = record (with_stages stages options) {
    merger_enabled = stages.merger_enabled;
    ungrouper_enabled = stages.ungrouper_enabled;
  }

  -- The query has rules for its stages only, and its numbers are those of an int.
  pub record IsQuery (q : Json) : Type 0 where
    pub grouped : IsWithin stages.groupaggregations_enabled stages.grouper_enabled
    pub branches : All (IsReadable stages) q.branchset
    pub merger_off : stages.merger_enabled ≡ false → q.merger_clauseset ≡ []
    pub merger_small : All (All MergerSmall) q.merger_clauseset

module _ (stages : Options) (ipfix_enabled : Bool) where
  -- The fields of the query's rules, in the order in which they are read.
  abbrev pub register_query : IpfixTempl → Json → Outcome IpfixTempl
  register_query templ q =
      run_all (register_branch stages ipfix_enabled) templ q.branchset >>= λ templ'.
      run_all (run_all (register_merger_term ipfix_enabled)) templ' q.merger_clauseset

  abbrev pub run_branch : Options × IpfixTempl → JsonBranch → Outcome (Options × IpfixTempl)
  run_branch (options, templ) b = register_branch stages ipfix_enabled templ b >>= λ templ'.
      ok (with_stages stages options, templ')

  abbrev WithinAfter : Outcome (Options × IpfixTempl) → Type 0
  WithinAfter (ok state) = AreWithin stages state.0
  WithinAfter (abort f) = Unit

  with_stages-AreWithin :
      (options : Options) → AreWithin stages options → AreWithin stages (with_stages stages options)
  with_stages-AreWithin options h = record {
    filter_within = λ e. e;
    grouper_within = λ e. e;
    aggr_within = λ e. e;
    groupfilter_within = λ e. e;
    merger_within = h.merger_within;
    ungrouper_within = h.ungrouper_within;
  }

  pub run_branch-AreWithin :
      (state : Options × IpfixTempl) (b : JsonBranch) (state' : Options × IpfixTempl)
      → AreWithin stages state.0
      → run_branch state b ≡ ok state'
      → AreWithin stages state'.0
  run_branch-AreWithin (options, templ) b state' h e =
      subst WithinAfter e (after (register_branch stages ipfix_enabled templ b))
    where
      after :
          (m : Outcome IpfixTempl)
          → WithinAfter (m >>= λ templ'. ok (with_stages stages options, templ'))
      after (ok templ') = with_stages-AreWithin options h
      after (abort f) = tt

  run_branches_lem :
      (options : Options) (templ : IpfixTempl) (b : JsonBranch) (bs : List JsonBranch)
      → run_all run_branch (options, templ) (b ∷ bs) ≡ (
          run_all (register_branch stages ipfix_enabled) templ (b ∷ bs) >>= λ templ'.
          ok (with_stages stages options, templ'))
  run_branches_lem options templ b [] =
      elim (Outcome-cases (register_branch stages ipfix_enabled templ b)) [
        | inl (templ', e) ↦ rw e refl
        | inr (f, e) ↦ rw e refl
      ]
  run_branches_lem options templ b (b' ∷ bs) =
      elim (Outcome-cases (register_branch stages ipfix_enabled templ b)) [
        | inl (templ', e) ↦ rw e (run_branches_lem (with_stages stages options) templ' b' bs)
        | inr (f, e) ↦ rw e refl
      ]

  pub run_branches-nonempty :
      (options : Options) (templ : IpfixTempl) (branches : List JsonBranch)
      → branches ≢ []
      → run_all run_branch (options, templ) branches ≡ (
          run_all (register_branch stages ipfix_enabled) templ branches >>= λ templ'.
          ok (with_stages stages options, templ'))
  run_branches-nonempty options templ [] h = absurd (h refl)
  run_branches-nonempty options templ (b ∷ bs) h = run_branches_lem options templ b bs

  pub enable_merger_lem :
      {J : Type 0} (options : Options) (x : J)
      → IsWithin options.merger_enabled stages.merger_enabled
      → enable_merger (if stages.merger_enabled then some x else none) options
        ≡ record options { merger_enabled = stages.merger_enabled }
  enable_merger_lem options x h = elim (Bool-cases stages.merger_enabled) [
    | inl on ↦ rw on refl
    | inr off ↦
        rw off (ap (λ flag. record options { merger_enabled = flag }) (IsWithin-off _ _ h off))
  ]

  pub enable_ungrouper_lem :
      {J : Type 0} (options : Options) (x : J)
      → IsWithin options.ungrouper_enabled stages.ungrouper_enabled
      → enable_ungrouper (if stages.ungrouper_enabled then some x else none) options
        ≡ record options { ungrouper_enabled = stages.ungrouper_enabled }
  enable_ungrouper_lem options x h = elim (Bool-cases stages.ungrouper_enabled) [
    | inl on ↦ rw on refl
    | inr off ↦
        rw off (ap (λ flag. record options { ungrouper_enabled = flag }) (IsWithin-off _ _ h off))
  ]

  module _ {J : Type 0} (c : JsonC J) (laws : IsJsonC J c) where
    abbrev pub merger_json : Json → J
    merger_json q = c.object (encode_dnf c (encode_merger_term c) q.merger_clauseset)

    pub merger_lem :
        (options : Options) (templ : IpfixTempl) (q : Json)
        → options.merger_enabled ≡ stages.merger_enabled
        → IsQuery stages q
        → parse_merger c ipfix_enabled options templ
            (if stages.merger_enabled then some (merger_json q) else none)
          ≡ (run_all (run_all (register_merger_term ipfix_enabled)) templ q.merger_clauseset
              >>= λ templ'. ok (templ', q.merger_clauseset))
    unfolding parse_merger
    merger_lem options templ q same r = rw same (
        stage_lem stages ipfix_enabled c laws MergerSmall (encode_merger_term c)
          (register_merger_term ipfix_enabled) (parse_merger_term c ipfix_enabled)
          (parse_merger_term_lem ipfix_enabled c laws) stages.merger_enabled (merger_json q)
          q.merger_clauseset templ (laws.get_object _ _) r.merger_off r.merger_small)
