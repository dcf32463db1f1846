-- ===== src/Ungrouper/Merged.antt =====
-- The merger and the ungrouper in a row (src/merger.c, src/ungrouper.c), as src/f.c runs them.
use nfql.Prelude.{
  ℕ, suc, ◌≤◌, ◌≡◌, refl, sym, subst, ap, ◌∙◌, List, [], ◌∷◌, some, map, map-All, for_each, keep,
  length, All, All-append, ok, ◌>>=◌, inl, inr, Bool, Bool-cases, keep-accept, keep-reject,
}
use nfql.Pipeline.{Branch, Group, MergerClause}
use nfql.Output.{Options}
use nfql.Comps.Assign.{assign_merger_func}
use nfql.Permut.Walk.{Filtered}
use nfql.Merger.{merger}
use nfql.Merger.Holds.{AllReady}
use nfql.Merger.Product.{cartesian}
use nfql.Merger.Contract.{merged, merger_lem}
use nfql.Ungrouper.{ungrouper}
use nfql.Ungrouper.Contract.{streams_of, stream_files, ungrouper_lem}

-- Every row has a group of each set.
abbrev HasLength : ℕ → List Group → Type 0
HasLength n groups = length groups ≡ n

rows_longer :
    (n : ℕ) (rows : List (List Group)) (heads : List Group)
    → All (HasLength n) rows
    → All (HasLength (suc n)) (for_each heads λ group. map (◌∷◌ group) rows)
rows_longer n rows [] h = tt
rows_longer n rows (group ∷ heads) h =
    All-append (HasLength (suc n)) (map (◌∷◌ group) rows) _
      (map-All (HasLength (suc n)) (◌∷◌ group) (λ row e. ap suc e) rows h)
      (rows_longer n rows heads h)

cartesian-HasLength :
    (groupsets : List (List Group)) → All (HasLength (length groupsets)) (cartesian groupsets)
cartesian-HasLength [] = (refl, tt)
cartesian-HasLength (groups ∷ groupsets) =
    rows_longer (length groupsets) (cartesian groupsets) groups (cartesian-HasLength groupsets)

keep-All :
    (P : List Group → Type 0) (p : List Group → Bool) (rows : List (List Group))
    → All P rows
    → All P (keep p rows)
keep-All P p [] h = tt
keep-All P p (row ∷ rows) h = elim (Bool-cases (p row)) [
  | inl on ↦ subst (All P) (sym (keep-accept p row rows on)) (h.0, keep-All P p rows h.1)
  | inr off ↦ subst (All P) (sym (keep-reject p row rows off)) (keep-All P p rows h.1)
]

Filtered-length :
    (branches : List Branch) (groupsets : List (List Group))
    → Filtered branches groupsets
    → length groupsets ≡ length branches
Filtered-length [] [] h = refl
Filtered-length [] (groups ∷ groupsets) h = absurd h
Filtered-length (branch ∷ branches) [] h = absurd h
Filtered-length (branch ∷ branches) (groups ∷ groupsets) h =
    ap suc (Filtered-length branches groupsets h.1)

module _ (options : Options) (clauseset : List MergerClause) (branches : List Branch)
    (groupsets : List (List Group)) (one_branch : 1 ≤ length branches)
    (filtered : Filtered branches groupsets)
    (ready : AllReady (length branches) (map (map assign_merger_func) clauseset)) where
  abbrev pub matched : List (List Group)
  matched = merged options clauseset branches groupsets one_branch filtered ready

  matched-HasLength : All (HasLength (length branches)) matched
  matched-HasLength = keep-All (HasLength (length branches)) _ (cartesian groupsets) (
      subst (λ n. All (HasLength n) (cartesian groupsets))
        (Filtered-length branches groupsets filtered) (cartesian-HasLength groupsets))

  -- For at least one branch, each with its filtered groups, and terms whose functions are found:
  -- the ungrouper of what the merger returns gives one stream for each choice of one group of each
  -- branch that the first merger clause matches, in order, with the members of its groups, and
  -- writes them to the streams' files.
  pub merger-ungrouper :
      (merger options clauseset branches >>= λ result.
      ungrouper options (length branches) (some result.0))
      ≡ ok (record { streamset = streams_of matched }, stream_files options 0 matched)
  merger-ungrouper =
      elim (merger_lem options clauseset branches groupsets one_branch filtered ready) [
        | inl (some_groups, run) ↦
            ap (λ o. o >>= λ result. ungrouper options (length branches) (some result.0)) run
            ∙ ungrouper_lem options (length branches) _ matched-HasLength
        | inr (no_groups, none_matched, run) ↦
            ap (λ o. o >>= λ result. ungrouper options (length branches) (some result.0)) run
            ∙ ungrouper_lem options (length branches) _ tt
            ∙ ap
                (λ tuples.
                  ok (record { streamset = streams_of tuples }, stream_files options 0 tuples))
                (sym none_matched)
      ]
