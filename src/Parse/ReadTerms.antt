-- ===== src/Parse/ReadTerms.antt =====
-- What the bodies of the loops of `parse_json_query` of src/f.c read of an encoded term.
use Prim.Native.String.{String}
use nfql.Prelude.{
  ℕ, ◌<◌, ◌^◌, ◌≡◌, refl, ◌∙◌, ap, Bool, some, none, Outcome, ok, abort, err_exit, ◌>>=◌,
  if◌then◌else◌,
}
use nfql.Prelude.Ints.{pos}
use nfql.JsonC.{JsonC, IsJsonC}
use nfql.Ipfix.{IpfixTempl, ipfix_templ_ie_register}
use nfql.Query.{JsonFilterTerm, JsonGrouperTerm, JsonAggrTerm, JsonGroupfilterTerm, JsonMergerTerm}
use nfql.Query.Terms.{
  u64_of_int, parse_filter_term, parse_grouper_term, parse_aggr_term, parse_groupfilter_term,
  parse_merger_term,
}
use nfql.Parse.Encode.{
  encode_filter_term, encode_grouper_term, encode_aggr_term, encode_groupfilter_term,
  encode_merger_term,
}

pub bind_assoc :
    {A B C : Type 0} (m : Outcome A) (f : A → Outcome B) (g : B → Outcome C)
    → (m >>= f >>= g) ≡ (m >>= λ a. f a >>= g)
bind_assoc (ok a) f g = refl
bind_assoc (abort e) f g = refl

pub bind_step :
    {T A B : Type 0} (m' : Outcome (T × A)) (m : Outcome T) (a : A)
    → m' ≡ (m >>= λ t. ok (t, a))
    → (k : T × A → Outcome B) → (m' >>= k) ≡ (m >>= λ t. k (t, a))
bind_step m' m a e k = ap (λ o. o >>= k) e ∙ bind_assoc m (λ t. ok (t, a)) k

-- The numbers that an int of 32 bits holds.
abbrev pub IsSmall : ℕ → Type 0
IsSmall n = n < 2 ^ 31

abbrev pub FilterSmall : JsonFilterTerm → Type 0
FilterSmall t = IsSmall t.delta × IsSmall t.off.value

abbrev pub GroupfilterSmall : JsonGroupfilterTerm → Type 0
GroupfilterSmall t = IsSmall t.delta × IsSmall t.off.value

abbrev pub GrouperSmall : JsonGrouperTerm → Type 0
GrouperSmall t = IsSmall t.delta

abbrev pub MergerSmall : JsonMergerTerm → Type 0
MergerSmall t = IsSmall t.delta × IsSmall t.b1_id × IsSmall t.b2_id

module _ (ipfix_enabled : Bool) where
  -- A field that the program reads in IPFIX format must be one that it knows.
  abbrev pub register_name : IpfixTempl → String → Outcome IpfixTempl
  register_name templ name =
      if ipfix_enabled
      then (ipfix_templ_ie_register templ name >>= λ registered. elim registered [
        | none ↦ abort err_exit
        | some templ' ↦ ok templ'
      ])
      else ok templ

  abbrev pub register_filter_term : IpfixTempl → JsonFilterTerm → Outcome IpfixTempl
  register_filter_term templ t = register_name templ t.off.name

  abbrev pub register_grouper_term : IpfixTempl → JsonGrouperTerm → Outcome IpfixTempl
  register_grouper_term templ t =
      register_name templ t.off.f1_name >>= λ templ'. register_name templ' t.off.f2_name

  abbrev pub register_aggr_term : IpfixTempl → JsonAggrTerm → Outcome IpfixTempl
  register_aggr_term templ t = register_name templ t.off.name

  abbrev pub register_groupfilter_term : IpfixTempl → JsonGroupfilterTerm → Outcome IpfixTempl
  register_groupfilter_term templ t = register_name templ t.off.name

  abbrev pub register_merger_term : IpfixTempl → JsonMergerTerm → Outcome IpfixTempl
  register_merger_term templ t =
      register_name templ t.off.f1_name >>= λ templ'. register_name templ' t.off.f2_name

  module _ {J : Type 0} (c : JsonC J) (laws : IsJsonC J c) where
    pub parse_filter_term_lem :
        (templ : IpfixTempl) (t : JsonFilterTerm)
        → FilterSmall t
        → parse_filter_term c ipfix_enabled templ (some (encode_filter_term c t))
          ≡ (register_filter_term templ t >>= λ templ'. ok (templ', t))
    unfolding parse_filter_term u64_of_int
    parse_filter_term_lem templ t (delta, value) = simp (
      laws.get_object,
      laws.get_string,
      laws.get_int (pos t.delta) delta,
      laws.get_int (pos t.off.value) value,
    )

    pub parse_aggr_term_lem :
        (templ : IpfixTempl) (t : JsonAggrTerm)
        → parse_aggr_term c ipfix_enabled templ (some (encode_aggr_term c t))
          ≡ (register_aggr_term templ t >>= λ templ'. ok (templ', t))
    unfolding parse_aggr_term
    parse_aggr_term_lem templ t = simp (laws.get_object, laws.get_string)

    pub parse_groupfilter_term_lem :
        (templ : IpfixTempl) (t : JsonGroupfilterTerm)
        → GroupfilterSmall t
        → parse_groupfilter_term c ipfix_enabled templ (some (encode_groupfilter_term c t))
          ≡ (register_groupfilter_term templ t >>= λ templ'. ok (templ', t))
    unfolding parse_groupfilter_term u64_of_int
    parse_groupfilter_term_lem templ t (delta, value) = simp (
      laws.get_object,
      laws.get_string,
      laws.get_int (pos t.delta) delta,
      laws.get_int (pos t.off.value) value,
    )

    pub parse_grouper_term_lem :
        (templ : IpfixTempl) (t : JsonGrouperTerm)
        → GrouperSmall t
        → parse_grouper_term c ipfix_enabled templ (some (encode_grouper_term c t))
          ≡ (register_grouper_term templ t >>= λ templ'. ok (templ', t))
    unfolding parse_grouper_term u64_of_int
    parse_grouper_term_lem templ t delta =
        simp (laws.get_object, laws.get_string, laws.get_int (pos t.delta) delta, bind_assoc)

    pub parse_merger_term_lem :
        (templ : IpfixTempl) (t : JsonMergerTerm)
        → MergerSmall t
        → parse_merger_term c ipfix_enabled templ (some (encode_merger_term c t))
          ≡ (register_merger_term templ t >>= λ templ'. ok (templ', t))
    unfolding parse_merger_term u64_of_int
    parse_merger_term_lem templ t (delta, b1_id, b2_id) = simp (
      laws.get_object,
      laws.get_string,
      laws.get_int (pos t.delta) delta,
      laws.get_int (pos t.b1_id) b1_id,
      laws.get_int (pos t.b2_id) b2_id,
      bind_assoc,
    )
