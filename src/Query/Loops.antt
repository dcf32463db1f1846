-- ===== src/Query/Loops.antt =====
-- src/f.c, `parse_json_query`: its loops over the clauses of a stage and the terms of a clause, with
-- the IPFIX template that they add to.
use nfql.Prelude.{ℕ, zero, suc, List, [], ◌∷◌, Option, Outcome, ok, ◌>>=◌}
use nfql.JsonC.{JsonC}
use nfql.Ipfix.{IpfixTempl}

module _ {J : Type 0} (c : JsonC J) where
  -- The loop over an array's elements, from an index on, with the state that it changes.
  unfoldable pub parse_from {ℓ} :
      {S : Type 0} {A : Type ℓ}
      → (S → Option J → Outcome (S × A))
      → Option J
      → ℕ
      → ℕ
      → S
      → Outcome (S × List A)
  parse_from parse array i zero state = ok (state, [])
  parse_from parse array i (suc n) state = do
    one ← parse state (c.object_array_get_idx array i)
    rest ← parse_from parse array (suc i) n one.0
    ok (rest.0, one.1 ∷ rest.1)

  unfoldable pub parse_array {ℓ} :
      {S : Type 0} {A : Type ℓ}
      → (S → Option J → Outcome (S × A))
      → Option J
      → S
      → Outcome (S × List A)
  unfolding parse_from
  parse_array parse array state = do
    num ← c.object_array_length array
    parse_from parse array 0 num state

  -- The terms of a clause.
  unfoldable pub parse_clause {ℓ} :
      {A : Type ℓ}
      → (IpfixTempl → Option J → Outcome (IpfixTempl × A))
      → IpfixTempl
      → Option J
      → Outcome (IpfixTempl × List A)
  unfolding parse_array
  parse_clause parse templ clause = parse_array parse (c.object_object_get clause "clause") templ

  -- The clauses of a stage.
  unfoldable pub parse_dnf {ℓ} :
      {A : Type ℓ}
      → (IpfixTempl → Option J → Outcome (IpfixTempl × A))
      → IpfixTempl
      → Option J
      → Outcome (IpfixTempl × List (List A))
  unfolding parse_clause
  parse_dnf parse templ stage =
      parse_array (parse_clause parse) (c.object_object_get stage "dnf-expr") templ
