-- ===== src/Parse/ReadStages.antt =====
-- What `parse_json_query` of src/f.c reads of the stages of an encoded branch.
use nfql.Prelude.{
  ◌≡◌, refl, sym, ◌∙◌, Bool, true, false, List, [], ◌∷◌, ◌++◌, map, Option, some, none, All,
  Outcome, ok, ◌>>=◌, if◌then◌else◌,
}
use nfql.JsonC.{JsonC, IsJsonC, find_member}
use nfql.Ipfix.{IpfixTempl}
use nfql.Output.{Options}
use nfql.Query.{JsonBranch}
use nfql.Query.Loops.{parse_dnf}
use nfql.Query.Terms.{parse_filter_term, parse_grouper_term, parse_groupfilter_term}
use nfql.Parse.{is_some, parse_filter, parse_grouper, parse_groupfilter}
use nfql.Parse.Encode.{
  encode_clause, encode_filter_term, encode_grouper_term, encode_groupfilter_term, encode_filter,
  encode_grouper, encode_groupfilter, member_if,
}
use nfql.Parse.Read.{run_all, parse_dnf_lem}
use nfql.Parse.ReadTerms.{
  FilterSmall, GrouperSmall, GroupfilterSmall, register_filter_term, register_grouper_term,
  register_aggr_term, register_groupfilter_term, parse_filter_term_lem, parse_grouper_term_lem,
  parse_groupfilter_term_lem,
}

-- A member among those of three stages.
pub find_three :
    {J : Type 0} (f g h : Bool) (x y z : J)
    → let members =
        member_if f "filter" x ++ member_if g "grouper" y ++ member_if h "groupfilter" z in
      (find_member "filter" members ≡ (if f then some x else none))
      × (find_member "grouper" members ≡ (if g then some y else none))
      × (find_member "groupfilter" members ≡ (if h then some z else none))
find_three true true true x y z = (refl, refl, refl)
find_three true true false x y z = (refl, refl, refl)
find_three true false true x y z = (refl, refl, refl)
find_three true false false x y z = (refl, refl, refl)
find_three false true true x y z = (refl, refl, refl)
find_three false true false x y z = (refl, refl, refl)
find_three false false true x y z = (refl, refl, refl)
find_three false false false x y z = (refl, refl, refl)

-- The members of a grouper.
find_dnf :
    {J : Type 0} (f : Bool) (x y : J)
    → find_member "dnf-expr" (("dnf-expr", x) ∷ member_if f "aggregation" y) ≡ some x
find_dnf true x y = refl
find_dnf false x y = refl

pub find_aggr :
    {J : Type 0} (f : Bool) (x y : J)
    → find_member "aggregation" (("dnf-expr", x) ∷ member_if f "aggregation" y)
      ≡ (if f then some y else none)
find_aggr true x y = refl
find_aggr false x y = refl

-- A stage that is on is one of the query's.
abbrev pub IsWithin : Bool → Bool → Type 0
IsWithin flag stage = flag ≡ true → stage ≡ true

pub flag_after :
    {J : Type 0} (flag stage : Bool) (x : J)
    → IsWithin flag stage
    → (if is_some (if stage then some x else none) then true else flag) ≡ stage
flag_after flag true x h = refl
flag_after true false x h = sym (h refl)
flag_after false false x h = refl

module _ (stages : Options) where
  -- The stages that are on are among the query's.
  pub record AreWithin (options : Options) : Type 0 where
    pub filter_within : IsWithin options.filter_enabled stages.filter_enabled
    pub grouper_within : IsWithin options.grouper_enabled stages.grouper_enabled
    pub aggr_within : IsWithin options.groupaggregations_enabled stages.groupaggregations_enabled
    pub groupfilter_within : IsWithin options.groupfilter_enabled stages.groupfilter_enabled
    pub merger_within : IsWithin options.merger_enabled stages.merger_enabled
    pub ungrouper_within : IsWithin options.ungrouper_enabled stages.ungrouper_enabled

  -- A branch has rules for the query's stages only, and its numbers are those of an int.
  pub record IsReadable (b : JsonBranch) : Type 0 where
    pub filter_off : stages.filter_enabled ≡ false → b.filter_clauseset ≡ []
    pub grouper_off : stages.grouper_enabled ≡ false → b.grouper_clauseset ≡ []
    pub aggr_off : stages.groupaggregations_enabled ≡ false → b.aggr_clause_termset ≡ []
    pub groupfilter_off : stages.groupfilter_enabled ≡ false → b.groupfilter_clauseset ≡ []
    pub filter_small : All (All FilterSmall) b.filter_clauseset
    pub grouper_small : All (All GrouperSmall) b.grouper_clauseset
    pub groupfilter_small : All (All GroupfilterSmall) b.groupfilter_clauseset

  -- The options with the stages of the query's branches on.
  abbrev pub with_stages : Options → Options
  with_stages options = record options {
    filter_enabled = stages.filter_enabled;
    grouper_enabled = stages.grouper_enabled;
    groupaggregations_enabled = stages.groupaggregations_enabled;
    groupfilter_enabled = stages.groupfilter_enabled;
  }

  module _ (ipfix_enabled : Bool) where
    -- The fields of a branch's rules, in the order in which they are read.
    abbrev pub register_branch : IpfixTempl → JsonBranch → Outcome IpfixTempl
    register_branch templ b =
        run_all (run_all (register_filter_term ipfix_enabled)) templ b.filter_clauseset
        >>= λ templ1.
            run_all (run_all (register_grouper_term ipfix_enabled)) templ1 b.grouper_clauseset
            >>= λ templ2.
                run_all (register_aggr_term ipfix_enabled) templ2 b.aggr_clause_termset
                >>= λ templ3.
                    run_all (run_all (register_groupfilter_term ipfix_enabled)) templ3
                      b.groupfilter_clauseset

    module _ {J : Type 0} (c : JsonC J) (laws : IsJsonC J c) where
      pub stage_lem :
          {A : Type 0} (P : A → Type 0) (encode : A → J) (run : IpfixTempl → A → Outcome IpfixTempl)
          (parse : IpfixTempl → Option J → Outcome (IpfixTempl × A))
          → ((s : IpfixTempl) (a : A)
              → P a
              → (parse s (some (encode a)) ≡ (run s a >>= λ s'. ok (s', a))))
          → (on : Bool) (stage : J) (clauses : List (List A)) (templ : IpfixTempl)
          → c.object_object_get (some stage) "dnf-expr"
            ≡ some (c.array (map (encode_clause c encode) clauses))
          → (on ≡ false → clauses ≡ [])
          → All (All P) clauses
          → (if on
              then parse_dnf c parse templ (if on then some stage else none)
              else ok (templ, []))
            ≡ (run_all (run_all run) templ clauses >>= λ templ'. ok (templ', clauses))
      stage_lem P encode run parse reads true stage clauses templ found off h =
          parse_dnf_lem c laws P encode run parse reads (some stage) clauses templ found h
      stage_lem P encode run parse reads false stage clauses templ found off h = rw (off refl) refl

      pub filter_lem :
          (options : Options) (templ : IpfixTempl) (b : JsonBranch)
          → options.filter_enabled ≡ stages.filter_enabled
          → IsReadable b
          → parse_filter c ipfix_enabled options templ
              (if stages.filter_enabled then some (encode_filter c b) else none)
            ≡ (run_all (run_all (register_filter_term ipfix_enabled)) templ b.filter_clauseset
                >>= λ templ'. ok (templ', b.filter_clauseset))
      unfolding parse_filter
      filter_lem options templ b same r = rw same (
          stage_lem FilterSmall (encode_filter_term c) (register_filter_term ipfix_enabled)
            (parse_filter_term c ipfix_enabled) (parse_filter_term_lem ipfix_enabled c laws)
            stages.filter_enabled (encode_filter c b) b.filter_clauseset templ (laws.get_object _ _)
            r.filter_off r.filter_small)

      pub grouper_lem :
          (options : Options) (templ : IpfixTempl) (b : JsonBranch)
          → options.grouper_enabled ≡ stages.grouper_enabled
          → IsReadable b
          → parse_grouper c ipfix_enabled options templ
              (if stages.grouper_enabled then some (encode_grouper c stages b) else none)
            ≡ (run_all (run_all (register_grouper_term ipfix_enabled)) templ b.grouper_clauseset
                >>= λ templ'. ok (templ', b.grouper_clauseset))
      unfolding parse_grouper
      grouper_lem options templ b same r = rw same (
          stage_lem GrouperSmall (encode_grouper_term c) (register_grouper_term ipfix_enabled)
            (parse_grouper_term c ipfix_enabled) (parse_grouper_term_lem ipfix_enabled c laws)
            stages.grouper_enabled (encode_grouper c stages b) b.grouper_clauseset templ
            (laws.get_object _ _ ∙ find_dnf stages.groupaggregations_enabled _ _) r.grouper_off
            r.grouper_small)

      pub groupfilter_lem :
          (options : Options) (templ : IpfixTempl) (b : JsonBranch)
          → options.groupfilter_enabled ≡ stages.groupfilter_enabled
          → IsReadable b
          → parse_groupfilter c ipfix_enabled options templ
              (if stages.groupfilter_enabled then some (encode_groupfilter c b) else none)
            ≡ (run_all
                  (run_all (register_groupfilter_term ipfix_enabled))
                  templ
                  b.groupfilter_clauseset
                >>= λ templ'. ok (templ', b.groupfilter_clauseset))
      unfolding parse_groupfilter
      groupfilter_lem options templ b same r = rw same (
          stage_lem GroupfilterSmall (encode_groupfilter_term c)
            (register_groupfilter_term ipfix_enabled) (parse_groupfilter_term c ipfix_enabled)
            (parse_groupfilter_term_lem ipfix_enabled c laws) stages.groupfilter_enabled
            (encode_groupfilter c b) b.groupfilter_clauseset templ (laws.get_object _ _)
            r.groupfilter_off r.groupfilter_small)
