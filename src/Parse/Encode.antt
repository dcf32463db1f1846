-- ===== src/Parse/Encode.antt =====
-- The JSON text of a query, as the queries in the repository's `examples` have it: the value that
-- the tokener makes of it, in the terms of its library.
use Prim.Native.String.{String}
use nfql.Prelude.{ℕ, Bool, true, false, List, [], ◌∷◌, ◌++◌, map}
use nfql.Prelude.Ints.{pos}
use nfql.JsonC.{JsonC}
use nfql.Output.{Options}
use nfql.Query.{
  JsonFilterTerm, JsonGrouperTerm, JsonGrouperTermOffset, JsonGrouperTermOp, JsonAggrTerm,
  JsonGroupfilterTerm, JsonMergerTerm, JsonBranch, Json,
}

-- A member that the query has if a stage is wanted.
abbrev pub member_if {ℓ} : {A : Type ℓ} → Bool → String → A → List (String × A)
member_if true name json = (name, json) ∷ []
member_if false name json = []

module _ {J : Type 0} (c : JsonC J) where
  abbrev pub number : ℕ → J
  number n = c.int (pos n)

  abbrev pub encode_term : List (String × J) → J
  encode_term members = c.object (("term", c.object members) ∷ [])

  abbrev pub encode_filter_term : JsonFilterTerm → J
  encode_filter_term t = encode_term (
      ("op", c.string t.op)
      ∷ (
        "offset",
        c.object (
            ("name", c.string t.off.name)
            ∷ ("datatype", c.string t.off.datatype)
            ∷ ("value", number t.off.value)
            ∷ []),
      )
      ∷ ("delta", number t.delta)
      ∷ [])

  abbrev pub encode_fields : JsonGrouperTermOffset → J
  encode_fields off = c.object (
      ("f1_name", c.string off.f1_name)
      ∷ ("f1_datatype", c.string off.f1_datatype)
      ∷ ("f2_name", c.string off.f2_name)
      ∷ ("f2_datatype", c.string off.f2_datatype)
      ∷ [])

  abbrev pub encode_op : JsonGrouperTermOp → J
  encode_op op = c.object (("name", c.string op.name) ∷ ("type", c.string op.type) ∷ [])

  abbrev pub encode_grouper_term : JsonGrouperTerm → J
  encode_grouper_term t =
      encode_term
        (("delta", number t.delta) ∷ ("op", encode_op t.op) ∷ ("offset", encode_fields t.off) ∷ [])

  abbrev pub encode_aggr_term : JsonAggrTerm → J
  encode_aggr_term t = encode_term (
      (
        "offset",
        c.object (("name", c.string t.off.name) ∷ ("datatype", c.string t.off.datatype) ∷ []),
      )
      ∷ ("op", c.string t.op)
      ∷ [])

  abbrev pub encode_groupfilter_term : JsonGroupfilterTerm → J
  encode_groupfilter_term t = encode_term (
      ("op", c.string t.op)
      ∷ (
        "offset",
        c.object (
            ("name", c.string t.off.name)
            ∷ ("datatype", c.string t.off.datatype)
            ∷ ("value", number t.off.value)
            ∷ []),
      )
      ∷ ("delta", number t.delta)
      ∷ [])

  abbrev pub encode_merger_term : JsonMergerTerm → J
  encode_merger_term t = encode_term (
      ("op", encode_op t.op)
      ∷ ("offset", encode_fields t.off)
      ∷ ("branch1_id", number t.b1_id)
      ∷ ("branch2_id", number t.b2_id)
      ∷ ("delta", number t.delta)
      ∷ [])

  abbrev pub encode_clause : {A : Type 0} → (A → J) → List A → J
  encode_clause encode terms = c.object (("clause", c.array (map encode terms)) ∷ [])

  abbrev pub encode_dnf : {A : Type 0} → (A → J) → List (List A) → List (String × J)
  encode_dnf encode clauses = ("dnf-expr", c.array (map (encode_clause encode) clauses)) ∷ []

  abbrev pub encode_filter : JsonBranch → J
  encode_filter b = c.object (encode_dnf encode_filter_term b.filter_clauseset)

  abbrev pub encode_groupfilter : JsonBranch → J
  encode_groupfilter b = c.object (encode_dnf encode_groupfilter_term b.groupfilter_clauseset)

  module _ (stages : Options) where
    abbrev pub encode_aggr : JsonBranch → List (String × J)
    encode_aggr b =
        member_if stages.groupaggregations_enabled "aggregation"
          (encode_clause encode_aggr_term b.aggr_clause_termset)

    abbrev pub encode_grouper : JsonBranch → J
    encode_grouper b =
        c.object (encode_dnf encode_grouper_term b.grouper_clauseset ++ encode_aggr b)

    abbrev pub encode_branch : JsonBranch → J
    encode_branch b = c.object (
        member_if stages.filter_enabled "filter" (encode_filter b)
        ++ member_if stages.grouper_enabled "grouper" (encode_grouper b)
        ++ member_if stages.groupfilter_enabled "groupfilter" (encode_groupfilter b))

    abbrev pub encode_query : Json → J
    encode_query q = c.object (
        ("branchset", c.array (map encode_branch q.branchset))
          ∷ member_if stages.merger_enabled "merger"
              (c.object (encode_dnf encode_merger_term q.merger_clauseset))
        ++ member_if stages.ungrouper_enabled "ungrouper" (c.object []))
