-- ===== src/Parse/ReadAggr.antt =====
-- What `parse_json_query` of src/f.c reads of a branch's aggregation, and the stages that it
-- switches on.
use nfql.Prelude.{
  ◌≡◌, refl, sym, ap, ◌∙◌, inl, inr, Bool, true, false, List, [], some, none, ok, All, ◌∷◌, ◌>>=◌,
  if◌then◌else◌, Bool-cases,
}
use nfql.JsonC.{JsonC, IsJsonC}
use nfql.Ipfix.{IpfixTempl}
use nfql.Output.{Options}
use nfql.Query.{JsonBranch}
use nfql.Parse.{enable_filter, enable_grouper, enable_groupfilter, parse_aggr}
use nfql.Parse.Encode.{encode_clause, encode_aggr_term, encode_grouper}
use nfql.Parse.Read.{run_all, parse_clause_lem}
use nfql.Query.Terms.{parse_aggr_term}
use nfql.Parse.ReadTerms.{register_aggr_term, parse_aggr_term_lem, bind_step}
use nfql.Parse.ReadStages.{find_aggr, IsWithin}

units : {A : Type 0} (xs : List A) → All {0, 0} (λ _. Unit) xs
units [] = tt
units (x ∷ xs) = (tt, units xs)

pub IsWithin-off : (flag stage : Bool) → IsWithin flag stage → stage ≡ false → flag ≡ false
IsWithin-off true stage h off = sym (h refl) ∙ off
IsWithin-off false stage h off = refl

module _ (stages : Options) (ipfix_enabled : Bool) {J : Type 0} (c : JsonC J)
    (laws : IsJsonC J c) where
  abbrev aggr_json : JsonBranch → J
  aggr_json b = encode_clause c (encode_aggr_term c) b.aggr_clause_termset

  abbrev with_aggr : Options → Options
  with_aggr options = record options {
    groupaggregations_enabled = stages.groupaggregations_enabled;
  }

  aggr_on :
      (options : Options) (templ : IpfixTempl) (b : JsonBranch)
      → options.grouper_enabled ≡ true
      → IsWithin options.groupaggregations_enabled stages.groupaggregations_enabled
      → (stages.groupaggregations_enabled ≡ false → b.aggr_clause_termset ≡ [])
      → parse_aggr c ipfix_enabled options templ (some (encode_grouper c stages b)) ≡ (
          run_all (register_aggr_term ipfix_enabled) templ b.aggr_clause_termset >>= λ templ'.
          ok (with_aggr options, templ', b.aggr_clause_termset))
  unfolding parse_aggr
  aggr_on options templ b on within off = elim (Bool-cases stages.groupaggregations_enabled) [
    | inl wanted ↦
        rw (laws.get_object, find_aggr, wanted, on)
          (bind_step _ (run_all (register_aggr_term ipfix_enabled) templ b.aggr_clause_termset)
            b.aggr_clause_termset
            (parse_clause_lem c laws (λ _. Unit) (encode_aggr_term c)
              (register_aggr_term ipfix_enabled) (parse_aggr_term c ipfix_enabled)
              (λ s t _. parse_aggr_term_lem ipfix_enabled c laws s t) b.aggr_clause_termset templ
              (units b.aggr_clause_termset))
            (λ one. ok (
              record options { grouper_enabled = true; groupaggregations_enabled = true },
              one.0,
              one.1,
            )))
    | inr unwanted ↦
        rw
          (laws.get_object, find_aggr, unwanted, on, off unwanted, IsWithin-off _ _ within unwanted)
          refl
  ]

  pub aggr_lem :
      (options : Options) (templ : IpfixTempl) (b : JsonBranch)
      → options.grouper_enabled ≡ stages.grouper_enabled
      → IsWithin options.groupaggregations_enabled stages.groupaggregations_enabled
      → IsWithin stages.groupaggregations_enabled stages.grouper_enabled
      → (stages.groupaggregations_enabled ≡ false → b.aggr_clause_termset ≡ [])
      → parse_aggr c ipfix_enabled options templ
          (if stages.grouper_enabled then some (encode_grouper c stages b) else none)
        ≡ (run_all (register_aggr_term ipfix_enabled) templ b.aggr_clause_termset >>= λ templ'.
            ok (with_aggr options, templ', b.aggr_clause_termset))
  unfolding parse_aggr
  aggr_lem options templ b same within grouped off = elim (Bool-cases stages.grouper_enabled) [
    | inl on ↦ rw on (aggr_on options templ b (same ∙ on) within off)
    | inr out ↦
        let unwanted = IsWithin-off _ _ grouped out in
        rw (same, out, unwanted, off unwanted, IsWithin-off _ _ within unwanted) refl
  ]

  -- The options after each of the stages of a branch.
  pub enable_filter_lem :
      (options : Options) (x : J)
      → IsWithin options.filter_enabled stages.filter_enabled
      → enable_filter (if stages.filter_enabled then some x else none) options
        ≡ record options { filter_enabled = stages.filter_enabled }
  enable_filter_lem options x h = elim (Bool-cases stages.filter_enabled) [
    | inl on ↦ rw on refl
    | inr off ↦
        rw off (ap (λ flag. record options { filter_enabled = flag }) (IsWithin-off _ _ h off))
  ]

  pub enable_grouper_lem :
      (options : Options) (x : J)
      → IsWithin options.grouper_enabled stages.grouper_enabled
      → enable_grouper (if stages.grouper_enabled then some x else none) options
        ≡ record options { grouper_enabled = stages.grouper_enabled }
  enable_grouper_lem options x h = elim (Bool-cases stages.grouper_enabled) [
    | inl on ↦ rw on refl
    | inr off ↦
        rw off (ap (λ flag. record options { grouper_enabled = flag }) (IsWithin-off _ _ h off))
  ]

  pub enable_groupfilter_lem :
      (options : Options) (x : J)
      → IsWithin options.groupfilter_enabled stages.groupfilter_enabled
      → enable_groupfilter (if stages.groupfilter_enabled then some x else none) options
        ≡ record options { groupfilter_enabled = stages.groupfilter_enabled }
  enable_groupfilter_lem options x h = elim (Bool-cases stages.groupfilter_enabled) [
    | inl on ↦ rw on refl
    | inr off ↦
        rw off (ap (λ flag. record options { groupfilter_enabled = flag }) (IsWithin-off _ _ h off))
  ]
