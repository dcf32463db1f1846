-- ===== src/Parse/RangeTerms.antt =====
-- The numbers that `parse_json_query` of src/f.c can read: json_object_get_int answers an int, which
-- is then assigned to a uint64_t.
use nfql.Prelude.{
  Outcome-cases, ℕ, zero, suc, ◌-◌, ◌<◌, ◌≤◌, ◌^◌, ◌⊎◌, inl, inr, Bool, Option, All, Outcome, arith,
}
use nfql.Prelude.Ensures.{Ensures, Ensures-ok}
use nfql.Prelude.Ints.{ℤ, pos, negsuc}
use nfql.Word.{u64_mod}
use nfql.JsonC.{JsonC, IsJsonC, IsInt}
use nfql.Ipfix.{IpfixTempl}
use nfql.Query.{
  JsonFilterTerm, JsonGrouperTerm, JsonGroupfilterTerm, JsonMergerTerm, JsonBranch, Json,
}
use nfql.Query.Loops.{parse_from, parse_array, parse_clause, parse_dnf}
use nfql.Query.Terms.{
  u64_of_int, parse_filter_term, parse_grouper_term, parse_groupfilter_term, parse_merger_term,
}

-- A sign-extended int: below 2^31, or among the last 2^31 values.
abbrev pub IsInRange : ℕ → Type 0
IsInRange n = (n < 2 ^ 31) ⊎ ((u64_mod - 2 ^ 31 ≤ n) × (n < u64_mod))

abbrev pub FilterInRange : JsonFilterTerm → Type 0
FilterInRange t = IsInRange t.delta × IsInRange t.off.value

abbrev pub GroupfilterInRange : JsonGroupfilterTerm → Type 0
GroupfilterInRange t = IsInRange t.delta × IsInRange t.off.value

abbrev pub GrouperInRange : JsonGrouperTerm → Type 0
GrouperInRange t = IsInRange t.delta

abbrev pub MergerInRange : JsonMergerTerm → Type 0
MergerInRange t = IsInRange t.delta × IsInRange t.b1_id × IsInRange t.b2_id

abbrev pub BranchInRange : JsonBranch → Type 0
BranchInRange b =
    All (All FilterInRange) b.filter_clauseset
    × All (All GrouperInRange) b.grouper_clauseset
    × All (All GroupfilterInRange) b.groupfilter_clauseset

abbrev pub QueryInRange : Json → Type 0
QueryInRange q = All BranchInRange q.branchset × All (All MergerInRange) q.merger_clauseset

u64_of_int-IsInRange : (z : ℤ) → IsInt z → IsInRange (u64_of_int z)
unfolding u64_of_int
u64_of_int-IsInRange (pos n) h = inl h
u64_of_int-IsInRange (negsuc n) h = inr (omega arith, omega arith)

module _ {J : Type 0} (c : JsonC J) (laws : IsJsonC J c) where
  number : (json : Option J) → IsInRange (u64_of_int (c.object_get_int json))
  number json = u64_of_int-IsInRange _ (laws.int_range json)

  from_lem :
      {S A : Type 0} (P : A → Type 0) (parse : S → Option J → Outcome (S × A))
      → ((s : S) (json : Option J) → Ensures (λ one. P one.1) (parse s json))
      → (array : Option J) (i n : ℕ) (s : S)
      → Ensures (λ rest. All P rest.1) (parse_from c parse array i n s)
  unfolding parse_from
  from_lem P parse h array i zero s = tt
  from_lem P parse h array i (suc n) s =
      let one = h s (c.object_array_get_idx array i) in
      elim (Outcome-cases (parse s (c.object_array_get_idx array i))) [
        | inl (a, e) ↦
            let rest = from_lem P parse h array (suc i) n a.0 in
            elim (Outcome-cases (parse_from c parse array (suc i) n a.0)) [
              | inl (as', e') ↦ rw (e, e') (Ensures-ok _ _ _ one e, Ensures-ok _ _ _ rest e')
              | inr (f, e') ↦ rw (e, e') tt
            ]
        | inr (f, e) ↦ rw e tt
      ]

  pub array_lem :
      {S A : Type 0} (P : A → Type 0) (parse : S → Option J → Outcome (S × A))
      → ((s : S) (json : Option J) → Ensures (λ one. P one.1) (parse s json))
      → (array : Option J) (s : S) → Ensures (λ rest. All P rest.1) (parse_array c parse array s)
  unfolding parse_array
  array_lem P parse h array s = elim (Outcome-cases (c.object_array_length array)) [
    | inl (n, e) ↦ rw e (from_lem P parse h array 0 n s)
    | inr (f, e) ↦ rw e tt
  ]

  pub dnf_lem :
      {A : Type 0} (P : A → Type 0) (parse : IpfixTempl → Option J → Outcome (IpfixTempl × A))
      → ((s : IpfixTempl) (json : Option J) → Ensures (λ one. P one.1) (parse s json))
      → (templ : IpfixTempl) (stage : Option J)
      → Ensures (λ rest. All (All P) rest.1) (parse_dnf c parse templ stage)
  unfolding parse_dnf parse_clause
  dnf_lem P parse h templ stage =
      array_lem (All P) (parse_clause c parse) (λ s clause. array_lem P parse h _ s) _ templ

  module _ (ipfix_enabled : Bool) where
    pub filter_term_lem :
        (templ : IpfixTempl) (term : Option J)
        → Ensures (λ one. FilterInRange one.1) (parse_filter_term c ipfix_enabled templ term)
    unfolding parse_filter_term
    filter_term_lem templ term =
        let items = c.object_object_get term "term" in
        let delta = number (c.object_object_get items "delta") in
        let value = number (c.object_object_get (c.object_object_get items "offset") "value") in
        ground arith

    pub groupfilter_term_lem :
        (templ : IpfixTempl) (term : Option J)
        → Ensures
            (λ one. GroupfilterInRange one.1)
            (parse_groupfilter_term c ipfix_enabled templ term)
    unfolding parse_groupfilter_term
    groupfilter_term_lem templ term =
        let items = c.object_object_get term "term" in
        let delta = number (c.object_object_get items "delta") in
        let value = number (c.object_object_get (c.object_object_get items "offset") "value") in
        ground arith

    pub grouper_term_lem :
        (templ : IpfixTempl) (term : Option J)
        → Ensures (λ one. GrouperInRange one.1) (parse_grouper_term c ipfix_enabled templ term)
    unfolding parse_grouper_term
    grouper_term_lem templ term =
        let delta = number (c.object_object_get (c.object_object_get term "term") "delta") in
        ground arith

    pub merger_term_lem :
        (templ : IpfixTempl) (term : Option J)
        → Ensures (λ one. MergerInRange one.1) (parse_merger_term c ipfix_enabled templ term)
    unfolding parse_merger_term
    merger_term_lem templ term =
        let items = c.object_object_get term "term" in
        let delta = number (c.object_object_get items "delta") in
        let b1_id = number (c.object_object_get items "branch1_id") in
        let b2_id = number (c.object_object_get items "branch2_id") in ground arith
