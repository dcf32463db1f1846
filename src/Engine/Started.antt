-- ===== src/Engine/Started.antt =====
-- The stages of `main` (src/f.c) before the threads, on the query file of a query: the template, the
-- reading of the file, the preparation and the filter in a row.
use nfql.Prelude.{◌≡◌, ◌≢◌, refl, inl, inr, Bool, true, List, [], map, All, some, ok}
use nfql.Word.{Buffer}
use nfql.Io.{IoHandler}
use nfql.Libc.{Libc}
use nfql.JsonC.{JsonC, IsJsonC}
use nfql.Output.{Options}
use nfql.Ipfix.{IpfixTempl}
use nfql.Query.{Json}
use nfql.Parse.Encode.{encode_query}
use nfql.Parse.ReadStages.{AreWithin}
use nfql.Parse.ReadQuery.{IsQuery, with_query, register_query}
use nfql.Parse.RoundTrip.{parse_json_query_lem}
use nfql.Parse.{parse_json_query}
use nfql.Prepare.{prepare_flowquery}
use nfql.Prepare.Contract.{QueryKnown, IdsInBounds, prepared, prepare_flowquery_lem}
use nfql.Filter.{branch_files}
use nfql.Filter.Contract.{AllAssigned, branch_after, read_trace_lem}
use nfql.Engine.{make_templ, start_query}

module _ (stages : Options) {J : Type 0} (c : JsonC J) (laws : IsJsonC J c) where
  -- The reading of a query file whose fields can all be registered.
  parse_registered :
      (ipfix_enabled : Bool) (options : Options) (fresh templ : IpfixTempl) (q : Json)
      → q.branchset ≢ []
      → AreWithin stages options
      → IsQuery stages q
      → register_query stages ipfix_enabled fresh q ≡ ok templ
      → parse_json_query c ipfix_enabled options fresh (some (encode_query c stages q))
        ≡ ok (with_query stages options, templ, q)
  parse_registered ipfix_enabled options fresh templ q nonempty within r registered =
      rw (parse_json_query_lem stages ipfix_enabled c laws options fresh q nonempty within r)
        (rw registered refl)

prepare_known :
    (io : IoHandler) (options : Options) (q : Json)
    → IdsInBounds io options q
    → QueryKnown io options q
    → prepare_flowquery io options q ≡ ok (prepared io options q)
prepare_known io options q ids known = elim (prepare_flowquery_lem io options q ids) [
  | inl (_, e) ↦ e
  | inr (unknown, _) ↦ absurd (unknown known)
]

-- On the file of a query that has a branch, a filter, rules for its stages only and numbers below
-- 2^31, if its fields can be registered, its names are known, its merger terms name branches of the
-- query and its filter terms have functions, the
-- stages before the threads end, for options with no stage on that the query lacks: with the query's
-- stages switched on, its names resolved, and in each branch the copies of just those records of the
-- trace that pass one of the branch's filter clauses, in their order.
pub start_query-encode :
    (libc : Libc) (stages : Options) {J : Type 0} (c : JsonC J) (laws : IsJsonC J c)
    (make_io : Bool → IpfixTempl → IoHandler) (ipfix_enabled : Bool) (options : Options)
    (fresh templ : IpfixTempl) (q : Json) (trace : List Buffer)
    → q.branchset ≢ []
    → AreWithin stages options
    → IsQuery stages q
    → stages.filter_enabled ≡ true
    → make_templ ipfix_enabled ≡ ok fresh
    → register_query stages ipfix_enabled fresh q ≡ ok templ
    → let io = make_io ipfix_enabled templ in
      let enabled = with_query stages options in
      let fquery = prepared io enabled q in
      QueryKnown io enabled q
      → IdsInBounds io enabled q
      → All AllAssigned fquery.branchset
      → let kept = map (branch_after enabled io.io_read_get_record_size trace) fquery.branchset in
        start_query libc c make_io ipfix_enabled options (some (encode_query c stages q)) trace
        ≡ ok (enabled, io, record fquery { branchset = kept }, branch_files enabled kept)
unfolding start_query
start_query-encode libc stages c laws make_io ipfix_enabled options fresh templ q trace nonempty
      within r on made registered known ids assigned =
    let io = make_io ipfix_enabled templ in
    let enabled = with_query stages options in
    rw
      (
        made,
        parse_registered stages c laws ipfix_enabled options fresh templ q nonempty within r
            registered,
        prepare_known io enabled q ids known,
        read_trace_lem enabled io.io_read_get_record_size trace (prepared io enabled q).branchset on
            assigned,
      )
      refl
