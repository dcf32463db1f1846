-- ===== src/Parse.antt =====
-- src/f.c: `parse_json_query`, which reads the JSON value of a query file into the structures of
-- src/f.h, switches on the stages that the query has, and tells an IPFIX template of its fields.
pub mod Encode
pub mod Read
pub mod ReadTerms
pub mod ReadStages
pub mod ReadAggr
pub mod ReadBranch
pub mod ReadQuery
pub mod RoundTrip
pub mod RangeTerms
pub mod Range
use nfql.Prelude.{
  Bool, true, false, List, [], Option, none, some, Outcome, ok, ◌>>=◌, if◌then◌else◌,
}
use nfql.JsonC.{JsonC}
use nfql.Ipfix.{IpfixTempl}
use nfql.Output.{Options}
use nfql.Query.{
  JsonFilterClause, JsonGrouperClause, JsonAggrTerm, JsonGroupfilterClause, JsonMergerClause,
  JsonBranch, Json,
}
use nfql.Query.Loops.{parse_array, parse_clause, parse_dnf}
use nfql.Query.Terms.{
  parse_filter_term, parse_grouper_term, parse_aggr_term, parse_groupfilter_term, parse_merger_term,
}

abbrev pub is_some {ℓ} : {A : Type ℓ} → Option A → Bool
is_some none = false
is_some (some a) = true

module _ {J : Type 0} where
  -- A stage that is found once stays switched on for the branches that follow.
  abbrev pub enable_filter : Option J → Options → Options
  enable_filter filter options =
      if is_some filter then record options { filter_enabled = true } else options

  abbrev pub enable_grouper : Option J → Options → Options
  enable_grouper grouper options =
      if is_some grouper then record options { grouper_enabled = true } else options

  abbrev pub enable_aggr : Option J → Options → Options
  enable_aggr aggr options =
      if is_some aggr then record options { groupaggregations_enabled = true } else options

  abbrev pub enable_groupfilter : Option J → Options → Options
  enable_groupfilter gfilter options =
      if is_some gfilter then record options { groupfilter_enabled = true } else options

  abbrev pub enable_merger : Option J → Options → Options
  enable_merger merger options =
      if is_some merger then record options { merger_enabled = true } else options

  abbrev pub enable_ungrouper : Option J → Options → Options
  enable_ungrouper ungrouper options =
      if is_some ungrouper then record options { ungrouper_enabled = true } else options

module _ {J : Type 0} (c : JsonC J) (ipfix_enabled : Bool) where
  unfoldable pub parse_filter :
      Options → IpfixTempl → Option J → Outcome (IpfixTempl × List JsonFilterClause)
  unfolding parse_dnf
  parse_filter options templ filter =
      if options.filter_enabled
      then parse_dnf c (parse_filter_term c ipfix_enabled) templ filter
      else ok (templ, [])

  unfoldable pub parse_grouper :
      Options → IpfixTempl → Option J → Outcome (IpfixTempl × List JsonGrouperClause)
  unfolding parse_dnf
  parse_grouper options templ grouper =
      if options.grouper_enabled
      then parse_dnf c (parse_grouper_term c ipfix_enabled) templ grouper
      else ok (templ, [])

  -- The aggregation of a grouper, under `if (grouper_enabled)`.
  unfoldable pub parse_aggr :
      Options → IpfixTempl → Option J → Outcome (Options × IpfixTempl × List JsonAggrTerm)
  unfolding parse_clause
  parse_aggr options templ grouper =
      let aggr = c.object_object_get grouper "aggregation" in
      let options' = enable_aggr aggr options in
      let terms =
        if options'.groupaggregations_enabled
        then parse_clause c (parse_aggr_term c ipfix_enabled) templ aggr
        else ok (templ, []) in
      if options.grouper_enabled
      then (terms >>= λ one. ok (options', one.0, one.1))
      else ok (options, templ, [])

  unfoldable pub parse_groupfilter :
      Options → IpfixTempl → Option J → Outcome (IpfixTempl × List JsonGroupfilterClause)
  unfolding parse_dnf
  parse_groupfilter options templ gfilter =
      if options.groupfilter_enabled
      then parse_dnf c (parse_groupfilter_term c ipfix_enabled) templ gfilter
      else ok (templ, [])

  unfoldable pub parse_branch :
      Options × IpfixTempl → Option J → Outcome ((Options × IpfixTempl) × JsonBranch)
  parse_branch (options, templ) branch_json = do
    let filter = c.object_object_get branch_json "filter"
    let options1 = enable_filter filter options
    fclauses ← parse_filter options1 templ filter
    let grouper = c.object_object_get branch_json "grouper"
    let options2 = enable_grouper grouper options1
    gclauses ← parse_grouper options2 fclauses.0 grouper
    aggr ← parse_aggr options2 gclauses.0 grouper
    let gfilter = c.object_object_get branch_json "groupfilter"
    let options3 = enable_groupfilter gfilter aggr.0
    gfclauses ← parse_groupfilter options3 aggr.1 gfilter
    ok (
      (options3, gfclauses.0),
      record {
        filter_clauseset = fclauses.1;
        grouper_clauseset = gclauses.1;
        aggr_clause_termset = aggr.2;
        groupfilter_clauseset = gfclauses.1;
      },
    )

  unfoldable pub parse_merger :
      Options → IpfixTempl → Option J → Outcome (IpfixTempl × List JsonMergerClause)
  unfolding parse_dnf
  parse_merger options templ merger =
      if options.merger_enabled
      then parse_dnf c (parse_merger_term c ipfix_enabled) templ merger
      else ok (templ, [])

  -- The options and the template as they stand afterwards, and the query.
  unfoldable pub parse_json_query :
      Options → IpfixTempl → Option J → Outcome (Options × IpfixTempl × Json)
  parse_json_query options templ query = do
    let branchset = c.object_object_get query "branchset"
    branches ← parse_array c parse_branch branchset (options, templ)
    let merger = c.object_object_get query "merger"
    let options1 = enable_merger merger branches.0.0
    mclauses ← parse_merger options1 branches.0.1 merger
    let ungrouper = c.object_object_get query "ungrouper"
    ok (
      enable_ungrouper ungrouper options1,
      mclauses.0,
      record { branchset = branches.1; merger_clauseset = mclauses.1 },
    )
