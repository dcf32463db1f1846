-- ===== src/Grouper/Keys.antt =====
-- Grouping by equal fields (`grouper` of src/grouper.c): clauses whose terms each compare a field
-- with itself, exactly.
use nfql.Prelude.{
  ◌≡◌, refl, sym, ap, ◌∙◌, Bool, true, false, List, [], ◌∷◌, ◌++◌, some, arith, ◌==◌, all, All,
  All-map, get_or,
}
use nfql.Word.{Buffer, Width}
use nfql.Io.{IoHandler}
use nfql.Libc.{IsSorted, is_positive, is_negative}
use nfql.Pipeline.{Group, GrouperTerm, GrouperClause}
use nfql.Comps.{eq, no_delta, grouper_func, compare_plain, first_member}
use nfql.Comps.AssignAggr.{get_gtype}
use nfql.Grouper.{new_group, add_member, add_members}
use nfql.Grouper.Growth.{joins, grouper_holds, AllJoin, Stops}
use nfql.Grouper.Partition.{Part, flatten, started, AreRuns}
use nfql.Grouper.Sort.Order.{key_of, compare_keys}

-- RULE_EQ | RULE_NO on one field.
pub record IsExact (term : GrouperTerm) : Type 0 where
  pub width : Width
  pub func_is : term.func ≡ some (grouper_func eq width width no_delta)
  pub same_field : term.field_offset1 ≡ term.field_offset2
  pub gtype_is : get_gtype term.op.field2_type ≡ some width

-- The records agree in the keys of all terms.
abbrev pub same_keys : GrouperClause → Buffer → Buffer → Bool
same_keys gclause x y = all (λ (term : GrouperTerm). key_of term x == key_of term y) gclause

exact_holds :
    (group : Group) (item : Buffer) (term : GrouperTerm)
    → IsExact term
    → grouper_holds group item term ≡ (key_of term (first_member group) == key_of term item)
unfolding grouper_holds key_of grouper_func compare_plain
exact_holds group item term h = rw (grouper_holds, h.func_is, key_of, h.gtype_is, h.same_field) refl

exact_joins :
    (group : Group) (item : Buffer) (gclause : GrouperClause)
    → All IsExact gclause
    → joins gclause group item ≡ same_keys gclause (first_member group) item
exact_joins group item [] h = refl
exact_joins group item (term ∷ gclause) h =
    rw (exact_holds group item term h.0, exact_joins group item gclause h.1) refl

-- A record that is not greater, and differs, is less.
less_or_same :
    (gclause : GrouperClause) (x y : Buffer)
    → is_positive (compare_keys gclause x y) ≡ false
    → same_keys gclause x y ≡ false
    → is_negative (compare_keys gclause x y) ≡ true
unfolding compare_keys
less_or_same [] x y p d = ground (arith, d)
less_or_same (term ∷ gclause) x y p d = ground (arith, less_or_same gclause x y)

-- What is not below a record that is greater than `x` has another key than `x`.
less_then_differs :
    (gclause : GrouperClause) (x n y : Buffer)
    → is_negative (compare_keys gclause x n) ≡ true
    → is_positive (compare_keys gclause n y) ≡ false
    → same_keys gclause x y ≡ false
unfolding compare_keys
less_then_differs [] x n y p d = ground (arith, p)
less_then_differs (term ∷ gclause) x n y p d = ground (arith, less_then_differs gclause x n y)

first_stays :
    (io : IoHandler) (group : Group) (item x : Buffer) (xs : List Buffer)
    → group.members ≡ x ∷ xs
    → (add_member io group item).members ≡ x ∷ (xs ++ item ∷ [])
unfolding add_member
first_stays io group item x xs e = ap (λ l. l ++ item ∷ []) e

module _ (gclause : GrouperClause) where
  -- All members of a part agree with its first.
  abbrev pub Agree : Part → Type 0
  Agree part = All (λ y. same_keys gclause part.0 y ≡ true) part.1

  -- No two parts have the same key.
  abbrev pub AreDistinct : List Part → Type 0
  AreDistinct [] = Unit
  AreDistinct (part ∷ parts) =
      All (λ (other : Part). same_keys gclause part.0 other.0 ≡ false) parts × AreDistinct parts

module _ (io : IoHandler) (gclause : GrouperClause) (exact : All IsExact gclause) where
  -- The key of a group's first member is that of all that join it.
  joined_agree :
      (group : Group) (x : Buffer) (xs items : List Buffer)
      → group.members ≡ x ∷ xs
      → AllJoin io gclause group items
      → All (λ y. same_keys gclause x y ≡ true) items
  joined_agree group x xs [] e h = tt
  joined_agree group x xs (item ∷ items) e h = (
    sym (exact_joins group item gclause exact ∙ ap (λ m. same_keys gclause (get_or m 0 []) item) e)
        ∙ h.0,
    joined_agree (add_member io group item) x (xs ++ item ∷ []) items
        (first_stays io group item x xs e) h.1,
  )

  grown_first :
      (group : Group) (x : Buffer) (xs items : List Buffer)
      → group.members ≡ x ∷ xs
      → first_member (add_members io group items) ≡ x
  unfolding add_members
  grown_first group x xs [] e = ap (λ m. get_or m 0 []) e
  grown_first group x xs (item ∷ items) e =
      grown_first (add_member io group item) x (xs ++ item ∷ []) items
        (first_stays io group item x xs e)

  pub runs-Agree : (parts : List Part) → AreRuns io gclause parts → All (Agree gclause) parts
  unfolding new_group
  runs-Agree [] h = tt
  runs-Agree (part ∷ parts) h =
      (joined_agree (started io part) part.0 [] part.1 refl h.0, runs-Agree parts h.2)

  IsSorted-behind :
      (xs ys : List Buffer)
      → IsSorted (compare_keys gclause) (xs ++ ys)
      → IsSorted (compare_keys gclause) ys
  IsSorted-behind [] ys h = h
  IsSorted-behind (x ∷ xs) ys h = IsSorted-behind xs ys h.1

  All-behind : (P : Buffer → Type 0) (xs ys : List Buffer) → All P (xs ++ ys) → All P ys
  All-behind P [] ys h = h
  All-behind P (x ∷ xs) ys h = All-behind P xs ys h.1

  firsts :
      (P : Buffer → Type 0) (parts : List Part)
      → All P (flatten parts)
      → All (λ (part : Part). P part.0) parts
  firsts P [] h = tt
  firsts P (part ∷ parts) h = (h.0, firsts P parts (All-behind P part.1 (flatten parts) h.1))

  -- The next record, if there is one, has another key.
  abbrev Differs : Buffer → List Buffer → Type 0
  Differs x [] = Unit
  Differs x (item ∷ items) = same_keys gclause x item ≡ false

  stop-Differs :
      (part : Part) (items : List Buffer)
      → Stops io gclause (add_members io (started io part) part.1) items
      → Differs part.0 items
  unfolding new_group
  stop-Differs part [] h = tt
  stop-Differs part (item ∷ items) h =
      sym (
        exact_joins (add_members io (started io part) part.1) item gclause exact
        ∙ ap (λ x. same_keys gclause x item) (grown_first (started io part) part.0 [] part.1 refl))
      ∙ h

  -- The first of the next part differs, and those behind it are not below it.
  others_differ :
      (x : Buffer) (parts : List Part)
      → Differs x (flatten parts)
      → All (λ y. is_positive (compare_keys gclause x y) ≡ false) (flatten parts)
      → IsSorted (compare_keys gclause) (flatten parts)
      → All (λ (other : Part). same_keys gclause x other.0 ≡ false) parts
  others_differ x [] differs above sorted = tt
  others_differ x (part ∷ parts) differs above sorted =
      let less = less_or_same gclause x part.0 above.0 differs in
      let not_below =
        All-behind (λ y. is_positive (compare_keys gclause part.0 y) ≡ false) part.1 (flatten parts)
          sorted.0 in
      (
        differs,
        All-map (λ (other : Part) p. less_then_differs gclause x part.0 other.0 less p) parts
            (firsts (λ y. is_positive (compare_keys gclause part.0 y) ≡ false) parts not_below),
      )

  pub runs_distinct :
      (parts : List Part)
      → AreRuns io gclause parts
      → IsSorted (compare_keys gclause) (flatten parts)
      → AreDistinct gclause parts
  runs_distinct [] h sorted = tt
  runs_distinct (part ∷ parts) h sorted =
      let behind = IsSorted-behind part.1 (flatten parts) sorted.1 in
      (
        others_differ part.0 parts (stop-Differs part (flatten parts) h.1)
            (All-behind (λ y. is_positive (compare_keys gclause part.0 y) ≡ false) part.1
              (flatten parts) sorted.0)
            behind,
        runs_distinct parts h.2 behind,
      )
