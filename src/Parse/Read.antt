-- ===== src/Parse/Read.antt =====
-- What the loops of `parse_json_query` of src/f.c read of an encoded array, clause or term.
use nfql.Prelude.{
  Outcome-cases, ℕ, suc, ◌+◌, ◌≡◌, refl, ◌∙◌, ap, inl, inr, List, [], ◌∷◌, map, Option, some, All,
  Outcome, ok, ◌>>=◌, length, get_elem?, arith,
}
use nfql.JsonC.{JsonC, IsJsonC}
use nfql.Ipfix.{IpfixTempl}
use nfql.Query.Loops.{parse_from, parse_array, parse_clause, parse_dnf}
use nfql.Parse.Encode.{encode_clause}

-- A change of a state for each element, in order.
abbrev pub run_all : {S A : Type 0} → (S → A → Outcome S) → S → List A → Outcome S
run_all run s [] = ok s
run_all run s (a ∷ rest) = run s a >>= λ s'. run_all run s' rest

module _ {J : Type 0} (c : JsonC J) (laws : IsJsonC J c) where
  -- Reading an element that is well-formed, in a state that is, gives the element back, and changes
  -- the state as `run` does.
  abbrev pub Reads :
      {S A : Type 0}
      → (S → Type 0)
      → (A → Type 0)
      → (A → J)
      → (S → A → Outcome S)
      → (S → Option J → Outcome (S × A))
      → Type 0
  Reads {S} {A} I P encode run parse =
      (s : S) (a : A) → I s → P a → (parse s (some (encode a)) ≡ (run s a >>= λ s'. ok (s', a)))

  abbrev pub Keeps : {S A : Type 0} → (S → Type 0) → (S → A → Outcome S) → Type 0
  Keeps {S} {A} I run = (s : S) (a : A) (s' : S) → I s → run s a ≡ ok s' → I s'

  module _ {S A : Type 0} (I : S → Type 0) (P : A → Type 0) (encode : A → J)
      (run : S → A → Outcome S) (parse : S → Option J → Outcome (S × A))
      (reads : Reads I P encode run parse) (keeps : Keeps I run) where
    parse_from_lem :
        (items : List J) (elems : List A) (i : ℕ) (s : S)
        → ((k : ℕ) → get_elem? items (i + k) ≡ get_elem? (map encode elems) k)
        → I s
        → All P elems
        → parse_from c parse (some (c.array items)) i (length elems) s
          ≡ (run_all run s elems >>= λ s'. ok (s', elems))
    unfolding parse_from
    parse_from_lem items [] i s here hi h = refl
    parse_from_lem items (a ∷ rest) i s here hi (h, hs) = elim (Outcome-cases (run s a)) [
      | inl (s', e) ↦
          rw (one, e, parse_from_lem items rest (suc i) s' next (keeps s a s' hi e) hs)
            (elim (Outcome-cases (run_all run s' rest)) [
              | inl (s'', e') ↦ rw e' refl
              | inr (f, e') ↦ rw e' refl
            ])
      | inr (f, e) ↦ rw (one, e) refl
    ]
      where
        first : c.object_array_get_idx (some (c.array items)) i ≡ some (encode a)
        first = laws.idx_array items i ∙ ap (get_elem? items) (omega arith) ∙ here 0

        one :
            parse s (c.object_array_get_idx (some (c.array items)) i)
            ≡ (run s a >>= λ s'. ok (s', a))
        one = rw first (reads s a hi h)

        next : (k : ℕ) → get_elem? items (suc i + k) ≡ get_elem? (map encode rest) k
        next k = ap (get_elem? items) (omega arith) ∙ here (suc k)

    length-map : (elems : List A) → length (map encode elems) ≡ length elems
    length-map [] = refl
    length-map (a ∷ elems) = ap suc (length-map elems)

    pub parse_array_lem :
        (elems : List A) (s : S)
        → I s
        → All P elems
        → parse_array c parse (some (c.array (map encode elems))) s
          ≡ (run_all run s elems >>= λ s'. ok (s', elems))
    unfolding parse_array
    parse_array_lem elems s hi h =
        rw (laws.length_array (map encode elems), length-map elems)
          (parse_from_lem (map encode elems) elems 0 s
            (λ k. ap (get_elem? (map encode elems)) (omega arith)) hi h)

  -- The same of a clause, and of the clauses of a stage.
  module _ {A : Type 0} (P : A → Type 0) (encode : A → J)
      (run : IpfixTempl → A → Outcome IpfixTempl)
      (parse : IpfixTempl → Option J → Outcome (IpfixTempl × A))
      (reads : (s : IpfixTempl) (a : A)
        → P a
        → (parse s (some (encode a)) ≡ (run s a >>= λ s'. ok (s', a)))) where
    pub parse_clause_lem :
        (terms : List A) (templ : IpfixTempl)
        → All P terms
        → parse_clause c parse templ (some (encode_clause c encode terms))
          ≡ (run_all run templ terms >>= λ templ'. ok (templ', terms))
    unfolding parse_clause
    parse_clause_lem terms templ h = rw (laws.get_object) (
        parse_array_lem (λ _. Unit) P encode run parse (λ s a _. reads s a) (λ s a s' _ _. tt) terms
          templ tt h)

    pub parse_dnf_lem :
        (stage : Option J) (clauses : List (List A)) (templ : IpfixTempl)
        → c.object_object_get stage "dnf-expr"
          ≡ some (c.array (map (encode_clause c encode) clauses))
        → All (All P) clauses
        → parse_dnf c parse templ stage
          ≡ (run_all (run_all run) templ clauses >>= λ templ'. ok (templ', clauses))
    unfolding parse_dnf
    parse_dnf_lem stage clauses templ found h = rw found (
        parse_array_lem (λ _. Unit) (All P) (encode_clause c encode) (run_all run)
          (parse_clause c parse) (λ s terms _. parse_clause_lem terms s) (λ s a s' _ _. tt) clauses
          templ tt h)
