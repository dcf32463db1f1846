-- ===== src/Parse/Range.antt =====
-- The range of the numbers of a query that `parse_json_query` of src/f.c has read.
use nfql.Prelude.{Outcome-cases, ◌≡◌, inl, inr, Bool, Option, All, ok, arith}
use nfql.Prelude.Ensures.{Ensures, Ensures-ok}
use nfql.JsonC.{JsonC, IsJsonC}
use nfql.Ipfix.{IpfixTempl}
use nfql.Output.{Options}
use nfql.Query.{Json}
use nfql.Query.Loops.{parse_array}
use nfql.Parse.{
  parse_filter, parse_grouper, parse_aggr, parse_groupfilter, parse_branch, parse_merger,
  parse_json_query, enable_filter, enable_grouper, enable_groupfilter, enable_merger,
}
use nfql.Parse.RangeTerms.{
  FilterInRange, GrouperInRange, GroupfilterInRange, MergerInRange, BranchInRange, QueryInRange,
  array_lem, dnf_lem, filter_term_lem, grouper_term_lem, groupfilter_term_lem, merger_term_lem,
}

module _ {J : Type 0} (c : JsonC J) (laws : IsJsonC J c) (ipfix_enabled : Bool) where
  filter_lem :
      (options : Options) (templ : IpfixTempl) (json : Option J)
      → Ensures
          (λ one. All (All FilterInRange) one.1)
          (parse_filter c ipfix_enabled options templ json)
  unfolding parse_filter
  filter_lem options templ json =
      let read = dnf_lem c laws FilterInRange _ (filter_term_lem c laws ipfix_enabled) templ json in
      ground arith

  grouper_lem :
      (options : Options) (templ : IpfixTempl) (json : Option J)
      → Ensures
          (λ one. All (All GrouperInRange) one.1)
          (parse_grouper c ipfix_enabled options templ json)
  unfolding parse_grouper
  grouper_lem options templ json =
      let read =
        dnf_lem c laws GrouperInRange _ (grouper_term_lem c laws ipfix_enabled) templ json in
      ground arith

  groupfilter_lem :
      (options : Options) (templ : IpfixTempl) (json : Option J)
      → Ensures
          (λ one. All (All GroupfilterInRange) one.1)
          (parse_groupfilter c ipfix_enabled options templ json)
  unfolding parse_groupfilter
  groupfilter_lem options templ json =
      let read =
        dnf_lem c laws GroupfilterInRange _ (groupfilter_term_lem c laws ipfix_enabled) templ
          json in
      ground arith

  merger_lem :
      (options : Options) (templ : IpfixTempl) (json : Option J)
      → Ensures
          (λ one. All (All MergerInRange) one.1)
          (parse_merger c ipfix_enabled options templ json)
  unfolding parse_merger
  merger_lem options templ json =
      let read = dnf_lem c laws MergerInRange _ (merger_term_lem c laws ipfix_enabled) templ json in
      ground arith

  branch_lem :
      (state : Options × IpfixTempl) (json : Option J)
      → Ensures (λ one. BranchInRange one.1) (parse_branch c ipfix_enabled state json)
  unfolding parse_branch
  branch_lem (options, templ) json =
      let filter = c.object_object_get json "filter" in
      let grouper = c.object_object_get json "grouper" in
      let gfilter = c.object_object_get json "groupfilter" in
      let options1 = enable_filter filter options in
      let options2 = enable_grouper grouper options1 in
      elim (Outcome-cases (parse_filter c ipfix_enabled options1 templ filter)) [
        | inr (f, e) ↦ rw e tt
        | inl (a1, e1) ↦
            elim (Outcome-cases (parse_grouper c ipfix_enabled options2 a1.0 grouper)) [
              | inr (f, e) ↦ rw (e1, e) tt
              | inl (a2, e2) ↦
                  elim (Outcome-cases (parse_aggr c ipfix_enabled options2 a2.0 grouper)) [
                    | inr (f, e) ↦ rw (e1, e2, e) tt
                    | inl (a3, e3) ↦
                        let options3 = enable_groupfilter gfilter a3.0 in
                        elim (Outcome-cases
                          (parse_groupfilter c ipfix_enabled options3 a3.1 gfilter)) [
                            | inr (f, e) ↦ rw (e1, e2, e3, e) tt
                            | inl (a4, e4) ↦
                                rw (e1, e2, e3, e4)
                                  (
                                    Ensures-ok _ _ _ (filter_lem options1 templ filter) e1,
                                    Ensures-ok _ _ _ (grouper_lem options2 a1.0 grouper) e2,
                                    Ensures-ok _ _ _ (groupfilter_lem options3 a3.1 gfilter) e4,
                                  )
                          ]
                  ]
            ]
      ]

  query_lem :
      (options : Options) (templ : IpfixTempl) (query : Option J)
      → Ensures (λ read. QueryInRange read.2) (parse_json_query c ipfix_enabled options templ query)
  unfolding parse_json_query
  query_lem options templ query =
      let branchset = c.object_object_get query "branchset" in
      let merger = c.object_object_get query "merger" in
      elim (Outcome-cases
        (parse_array c (parse_branch c ipfix_enabled) branchset (options, templ))) [
          | inr (f, e) ↦ rw e tt
          | inl (a1, e1) ↦
              let options1 = enable_merger merger a1.0.0 in
              elim (Outcome-cases (parse_merger c ipfix_enabled options1 a1.0.1 merger)) [
                | inr (f, e) ↦ rw (e1, e) tt
                | inl (a2, e2) ↦
                    rw (e1, e2)
                      (
                        Ensures-ok _ _ _
                            (array_lem c laws BranchInRange _ branch_lem branchset (options, templ))
                            e1,
                        Ensures-ok _ _ _ (merger_lem options1 a1.0.1 merger) e2,
                      )
              ]
        ]

  -- Whatever the query's text, its numbers are read as sign-extended ints of 32 bits: none of them
  -- lies from 2^31 to 2^64 - 2^31 - 1.
  pub parse_json_query-InRange :
      (options options' : Options) (templ templ' : IpfixTempl) (query : Option J) (q : Json)
      → parse_json_query c ipfix_enabled options templ query ≡ ok (options', templ', q)
      → QueryInRange q
  parse_json_query-InRange options options' templ templ' query q e =
      Ensures-ok _ _ _ (query_lem options templ query) e
