-- ===== src/Parse/ReadBranch.antt =====
-- What `parse_json_query` of src/f.c reads of an encoded branch.
use nfql.Prelude.{Outcome-cases, ◌≡◌, refl, inl, inr, Bool, some, Outcome, ok, ◌>>=◌}
use nfql.JsonC.{JsonC, IsJsonC}
use nfql.Ipfix.{IpfixTempl}
use nfql.Output.{Options}
use nfql.Query.{JsonBranch}
use nfql.Parse.{parse_branch}
use nfql.Parse.Encode.{encode_branch, encode_filter, encode_grouper, encode_groupfilter}
use nfql.Parse.Read.{run_all}
use nfql.Parse.ReadTerms.{
  register_filter_term, register_grouper_term, register_aggr_term, register_groupfilter_term,
}
use nfql.Parse.ReadStages.{
  find_three, IsWithin, AreWithin, IsReadable, with_stages, register_branch, filter_lem,
  grouper_lem, groupfilter_lem,
}
use nfql.Parse.ReadAggr.{aggr_lem, enable_filter_lem, enable_grouper_lem, enable_groupfilter_lem}

module _ (stages : Options)
    (grouped : IsWithin stages.groupaggregations_enabled stages.grouper_enabled)
    (ipfix_enabled : Bool) {J : Type 0} (c : JsonC J) (laws : IsJsonC J c) where
  pub parse_branch_lem :
      (options : Options) (templ : IpfixTempl) (b : JsonBranch)
      → AreWithin stages options
      → IsReadable stages b
      → parse_branch c ipfix_enabled (options, templ) (some (encode_branch c stages b)) ≡ (
          register_branch stages ipfix_enabled templ b >>= λ templ'.
          ok ((with_stages stages options, templ'), b))
  unfolding parse_branch
  parse_branch_lem options templ b within r =
      let found =
        find_three stages.filter_enabled stages.grouper_enabled stages.groupfilter_enabled
          (encode_filter c b) (encode_grouper c stages b) (encode_groupfilter c b) in
      rw
        (
          laws.get_object,
          found.0,
          laws.get_object,
          found.1,
          laws.get_object,
          found.2,
          enable_filter_lem stages ipfix_enabled c laws options (encode_filter c b)
              within.filter_within,
          enable_grouper_lem stages ipfix_enabled c laws after_filter (encode_grouper c stages b)
              within.grouper_within,
          filter_lem stages ipfix_enabled c laws after_filter templ b refl r,
        )
        (elim (Outcome-cases filters) [
          | inr (f, e) ↦ rw e refl
          | inl (templ1, e1) ↦
              rw (e1, grouper_lem stages ipfix_enabled c laws after_grouper templ1 b refl r)
                (elim (Outcome-cases (groupers templ1)) [
                  | inr (f, e) ↦ rw e refl
                  | inl (templ2, e2) ↦
                      rw
                        (
                          e2,
                          aggr_lem stages ipfix_enabled c laws after_grouper templ2 b refl
                              within.aggr_within grouped r.aggr_off,
                        )
                        (elim (Outcome-cases (aggrs templ2)) [
                          | inr (f, e) ↦ rw e refl
                          | inl (templ3, e3) ↦
                              rw
                                (
                                  e3,
                                  enable_groupfilter_lem stages ipfix_enabled c laws after_aggr
                                      (encode_groupfilter c b) within.groupfilter_within,
                                  groupfilter_lem stages ipfix_enabled c laws
                                      (with_stages stages options) templ3 b refl r,
                                )
                                (elim (Outcome-cases (groupfilters templ3)) [
                                  | inr (f, e) ↦ rw e refl
                                  | inl (templ4, e4) ↦ rw e4 refl
                                ])
                        ])
                ])
        ])
    where
      after_filter : Options
      after_filter = record options { filter_enabled = stages.filter_enabled }

      after_grouper : Options
      after_grouper = record after_filter { grouper_enabled = stages.grouper_enabled }

      after_aggr : Options
      after_aggr = record after_grouper {
        groupaggregations_enabled = stages.groupaggregations_enabled;
      }

      filters : Outcome IpfixTempl
      filters = run_all (run_all (register_filter_term ipfix_enabled)) templ b.filter_clauseset

      groupers : IpfixTempl → Outcome IpfixTempl
      groupers t = run_all (run_all (register_grouper_term ipfix_enabled)) t b.grouper_clauseset

      aggrs : IpfixTempl → Outcome IpfixTempl
      aggrs t = run_all (register_aggr_term ipfix_enabled) t b.aggr_clause_termset

      groupfilters : IpfixTempl → Outcome IpfixTempl
      groupfilters t =
          run_all (run_all (register_groupfilter_term ipfix_enabled)) t b.groupfilter_clauseset
