-- ===== src/Parse/RoundTrip.antt =====
-- Reading back an encoded query with `parse_json_query` of src/f.c.
use nfql.Prelude.{Outcome-cases, ◌≡◌, ◌≢◌, refl, ◌∙◌, inl, inr, Bool, [], map, some, ok, ◌>>=◌}
use nfql.JsonC.{JsonC, IsJsonC}
use nfql.Ipfix.{IpfixTempl}
use nfql.Output.{Options}
use nfql.Query.{JsonBranch, Json}
use nfql.Query.Loops.{parse_array}
use nfql.Parse.{parse_branch, parse_json_query}
use nfql.Parse.Encode.{encode_branch, encode_query}
use nfql.Parse.Read.{run_all, parse_array_lem}
use nfql.Parse.ReadTerms.{register_merger_term}
use nfql.Parse.ReadStages.{IsWithin, AreWithin, IsReadable, with_stages, register_branch}
use nfql.Parse.ReadBranch.{parse_branch_lem}
use nfql.Parse.ReadQuery.{
  find_rest, with_query, register_query, IsQuery, run_branch, run_branch-AreWithin,
  run_branches-nonempty, enable_merger_lem, enable_ungrouper_lem, merger_json, merger_lem,
}

module _ (stages : Options) (ipfix_enabled : Bool) {J : Type 0} (c : JsonC J)
    (laws : IsJsonC J c) where
  read_branch :
      IsWithin stages.groupaggregations_enabled stages.grouper_enabled
      → (state : Options × IpfixTempl) (b : JsonBranch) → AreWithin stages state.0
      → IsReadable stages b
      → parse_branch c ipfix_enabled state (some (encode_branch c stages b))
        ≡ (run_branch stages ipfix_enabled state b >>= λ state'. ok (state', b))
  read_branch grouped (options, templ) b within r =
      parse_branch_lem stages grouped ipfix_enabled c laws options templ b within r
      ∙ elim (Outcome-cases (register_branch stages ipfix_enabled templ b)) [
        | inl (templ', e) ↦ rw e refl
        | inr (f, e) ↦ rw e refl
      ]

  read_branches :
      (options : Options) (templ : IpfixTempl) (q : Json)
      → q.branchset ≢ []
      → AreWithin stages options
      → IsQuery stages q
      → parse_array c
          (parse_branch c ipfix_enabled)
          (some (c.array (map (encode_branch c stages) q.branchset)))
          (options, templ)
        ≡ (run_all (register_branch stages ipfix_enabled) templ q.branchset >>= λ templ'.
            ok ((with_stages stages options, templ'), q.branchset))
  read_branches options templ q nonempty within r =
      parse_array_lem c laws (λ state. AreWithin stages state.0) (IsReadable stages)
        (encode_branch c stages) (run_branch stages ipfix_enabled) (parse_branch c ipfix_enabled)
        (read_branch r.grouped) (run_branch-AreWithin stages ipfix_enabled) q.branchset
        (options, templ) within r.branches
      ∙ rw (run_branches-nonempty stages ipfix_enabled options templ q.branchset nonempty)
          (elim (Outcome-cases (run_all (register_branch stages ipfix_enabled) templ q.branchset)) [
            | inl (templ', e) ↦ rw e refl
            | inr (f, e) ↦ rw e refl
          ])

  -- Reading an encoded query gives the query back, with the query's stages switched on, and with
  -- its fields registered in order; it aborts exactly if a registration does. The query has a
  -- branch, has rules for the stages that it switches on only, and has numbers below 2^31; the
  -- stages that are on before are among those of the query.
  pub parse_json_query_lem :
      (options : Options) (templ : IpfixTempl) (q : Json)
      → q.branchset ≢ []
      → AreWithin stages options
      → IsQuery stages q
      → parse_json_query c ipfix_enabled options templ (some (encode_query c stages q)) ≡ (
          register_query stages ipfix_enabled templ q >>= λ templ'.
          ok (with_query stages options, templ', q))
  unfolding parse_json_query
  parse_json_query_lem options templ q nonempty within r =
      let found =
        find_rest stages.merger_enabled stages.ungrouper_enabled
          (c.array (map (encode_branch c stages) q.branchset))
          (merger_json stages ipfix_enabled c laws q) (c.object []) in
      rw
        (
          laws.get_object,
          found.0,
          laws.get_object,
          found.1,
          laws.get_object,
          found.2,
          read_branches options templ q nonempty within r,
        )
        (elim (Outcome-cases (run_all (register_branch stages ipfix_enabled) templ q.branchset)) [
          | inr (f, e) ↦ rw e refl
          | inl (templ1, e1) ↦
              rw
                (
                  e1,
                  enable_merger_lem stages ipfix_enabled (with_stages stages options)
                      (merger_json stages ipfix_enabled c laws q) within.merger_within,
                  merger_lem stages ipfix_enabled c laws after_merger templ1 q refl r,
                )
                (elim (Outcome-cases (
                  run_all (run_all (register_merger_term ipfix_enabled)) templ1
                    q.merger_clauseset)) [
                      | inr (f, e) ↦ rw e refl
                      | inl (templ2, e2) ↦
                          rw
                            (
                              e2,
                              enable_ungrouper_lem stages ipfix_enabled after_merger (c.object [])
                                  within.ungrouper_within,
                            )
                            refl
                    ])
        ])
    where
      after_merger : Options
      after_merger = record (with_stages stages options) { merger_enabled = stages.merger_enabled }
