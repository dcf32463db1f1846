-- ===== src/Merger/Holds.antt =====
-- A merger term (src/merger.c) on the groups that a tuple stands for.
use nfql.Prelude.{
  ℕ, zero, suc, ◌<◌, ◌≡◌, refl, Bool, false, List, [], ◌∷◌, none, some, arith, length, get_elem?,
  All, All-map, ok,
}
use nfql.Dnf.{Answers}
use nfql.Pipeline.{Branch, Group, MergerFunc, MergerTerm, MergerClause}
use nfql.Merger.{filtered_group, tuple_groups, merger_test}
use nfql.Merger.Product.{Names}

-- The term compares the two fields of the groups of its branches, without a delta.
unfoldable pub merger_holds : List Group → MergerTerm → Bool
merger_holds groups term = elim (get_elem? groups term.branch1) [
  | none ↦ false
  | some group1 ↦ elim (get_elem? groups term.branch2) [
    | none ↦ false
    | some group2 ↦ elim term.func [
      | none ↦ false
      | some func ↦ func group1 term.field1 group2 term.field2 0
    ]
  ]
]

-- The term names branches of the query, and the dispatch has found its function.
pub record IsReady (num_branches : ℕ) (term : MergerTerm) : Type 0 where
  pub branch1_lt : term.branch1 < num_branches
  pub branch2_lt : term.branch2 < num_branches
  pub func : MergerFunc
  pub assigned : term.func ≡ some func

-- What the tuple's places hold.
record At (branches : List Branch) (ids : List ℕ) (groups : List Group) (i : ℕ) : Type 0 where
  branch : Branch
  id : ℕ
  group : Group
  branch_at : get_elem? branches i ≡ some branch
  id_at : get_elem? ids i ≡ some id
  group_at : get_elem? groups i ≡ some group
  found : filtered_group branch id ≡ ok group

-- A tuple names its groups place by place.
Names-cons :
    (branch : Branch) (branches : List Branch) (id : ℕ) (ids : List ℕ) (group : Group)
    (groups : List Group)
    → Names (branch ∷ branches) (id ∷ ids) (group ∷ groups)
    → (filtered_group branch id ≡ ok group) × Names branches ids groups
unfolding tuple_groups
Names-cons branch branches id ids group groups e = ground arith

Names-nil :
    (branch : Branch) (branches : List Branch) (id : ℕ) (ids : List ℕ)
    → ¬ Names (branch ∷ branches) (id ∷ ids) []
unfolding tuple_groups
Names-nil branch branches id ids e = ground arith

Names-At :
    (branches : List Branch) (ids : List ℕ) (groups : List Group) (i : ℕ)
    → Names branches ids groups
    → i < length branches
    → At branches ids groups i
unfolding tuple_groups
Names-At [] ids groups i e h = absurd (omega arith)
Names-At (branch ∷ branches) [] groups i e h = absurd (ground arith)
Names-At (branch ∷ branches) (id ∷ ids) [] i e h = absurd (Names-nil branch branches id ids e)
Names-At (branch ∷ branches) (id ∷ ids) (group ∷ groups) zero e h = record {
  branch = branch;
  id = id;
  group = group;
  branch_at = refl;
  id_at = refl;
  group_at = refl;
  found = (Names-cons branch branches id ids group groups e).0;
}
Names-At (branch ∷ branches) (id ∷ ids) (group ∷ groups) (suc i) e h =
    let rest =
      Names-At branches ids groups i (Names-cons branch branches id ids group groups e).1
        (omega arith) in
    record {
      branch = rest.branch;
      id = rest.id;
      group = rest.group;
      branch_at = rest.branch_at;
      id_at = rest.id_at;
      group_at = rest.group_at;
      found = rest.found;
    }

-- A ready term comes to an answer on every tuple that names groups.
pub merger_test_lem :
    (branches : List Branch) (ids : List ℕ) (groups : List Group) (term : MergerTerm)
    → Names branches ids groups
    → IsReady (length branches) term
    → merger_test branches ids term ≡ ok (merger_holds groups term)
unfolding merger_test merger_holds
merger_test_lem branches ids groups term e ready =
    let one = Names-At branches ids groups term.branch1 e ready.branch1_lt in
    let two = Names-At branches ids groups term.branch2 e ready.branch2_lt in
    rw
      (
        one.branch_at, two.branch_at, one.id_at, two.id_at, one.found, two.found, one.group_at,
        two.group_at, ready.assigned, merger_holds,
      )
      refl

abbrev pub AllReady : ℕ → List MergerClause → Type 0
AllReady num_branches clauses = All (All (IsReady num_branches)) clauses

merger_test-Answers :
    (branches : List Branch) (ids : List ℕ) (groups : List Group)
    → Names branches ids groups
    → (terms : List MergerTerm) → All (IsReady (length branches)) terms
    → Answers (merger_test branches ids) (merger_holds groups) terms
merger_test-Answers branches ids groups e terms ready =
    All-map (λ term r. merger_test_lem branches ids groups term e r) terms ready

pub merger_test-All :
    (branches : List Branch) (ids : List ℕ) (groups : List Group)
    → Names branches ids groups
    → (clauses : List MergerClause) → AllReady (length branches) clauses
    → All (Answers (merger_test branches ids) (merger_holds groups)) clauses
merger_test-All branches ids groups e clauses ready =
    All-map (λ clause r. merger_test-Answers branches ids groups e clause r) clauses ready
