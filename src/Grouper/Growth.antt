-- ===== src/Grouper/Growth.antt =====
-- The loop over the members of a group (`grouper` of src/grouper.c): which records it takes.
use mathlib.Core.List.{append_assoc, append-nil}
use nfql.Prelude.{
  ◌≡◌, refl, ap, Bool, true, false, List, [], ◌∷◌, ◌++◌, none, some, all, All, All-map, ok,
  if◌then◌else◌, Bool-cases, inl, inr,
}
use nfql.Word.{Buffer}
use nfql.Io.{IoHandler}
use nfql.Dnf.{Answers, scan_terms_branch}
use nfql.Pipeline.{Group, GrouperFunc, GrouperTerm, GrouperClause}
use nfql.Grouper.{grouper_test, add_member, add_members, grow_group}

-- The dispatch has found the term's function.
pub record HasFunc (term : GrouperTerm) : Type 0 where
  pub func : GrouperFunc
  pub assigned : term.func ≡ some func

unfoldable pub grouper_holds : Group → Buffer → GrouperTerm → Bool
grouper_holds group item term = elim term.func [
  | none ↦ false
  | some func ↦ func group term.field_offset1 item term.field_offset2 term.delta
]

-- All terms of the clause hold of the group so far and the record.
abbrev pub joins : GrouperClause → Group → Buffer → Bool
joins gclause group item = all (grouper_holds group item) gclause

grouper_test-All :
    (group : Group) (item : Buffer) (gclause : GrouperClause)
    → All HasFunc gclause
    → Answers (grouper_test group item) (grouper_holds group item) gclause
unfolding grouper_test grouper_holds
grouper_test-All group item gclause h =
    All-map {Q = λ term. grouper_test group item term ≡ ok (grouper_holds group item term)}
      (λ term a. rw (a.assigned, grouper_holds) refl) gclause h

module _ (io : IoHandler) (gclause : GrouperClause) where
  -- Each of the records joins the group that those before it made.
  abbrev pub AllJoin : Group → List Buffer → Type 0
  AllJoin group [] = Unit
  AllJoin group (item ∷ items) =
      (joins gclause group item ≡ true) × AllJoin (add_member io group item) items

  -- The group takes no more: no record is left, or the next one does not join.
  abbrev pub Stops : Group → List Buffer → Type 0
  Stops group [] = Unit
  Stops group (item ∷ items) = joins gclause group item ≡ false

  -- What the loop has taken of the records, and what it has left.
  pub record Growth (group : Group) (written items : List Buffer) : Type 0 where
    pub taken : List Buffer
    pub left : List Buffer
    pub run :
        grow_group io gclause group written items
        ≡ ok (add_members io group taken, written ++ taken, left)
    pub split : taken ++ left ≡ items
    pub all_join : AllJoin group taken
    pub stops : Stops (add_members io group taken) left

  grow_step :
      (group : Group) (written : List Buffer) (item : Buffer) (items : List Buffer)
      → All HasFunc gclause
      → grow_group io gclause group written (item ∷ items) ≡ (
          if joins gclause group item
          then grow_group io gclause (add_member io group item) (written ++ item ∷ []) items
          else ok (group, written, item ∷ items))
  unfolding grow_group
  grow_step group written item items h =
      scan_terms_branch (grouper_test group item) (grouper_holds group item) gclause
        (ok (group, written, item ∷ items))
        (grow_group io gclause (add_member io group item) (written ++ item ∷ []) items)
        (grouper_test-All group item gclause h)

  pub grow_group_lem :
      (group : Group) (written items : List Buffer)
      → All HasFunc gclause
      → Growth group written items
  unfolding grow_group add_members
  grow_group_lem group written [] h = record {
    taken = [];
    left = [];
    run = rw (append-nil written) refl;
    split = refl;
    all_join = tt;
    stops = tt;
  }
  grow_group_lem group written (item ∷ items) h = elim (Bool-cases (joins gclause group item)) [
    | inl on ↦
        let more = grow_group_lem (add_member io group item) (written ++ item ∷ []) items h in
        record {
          taken = item ∷ more.taken;
          left = more.left;
          run =
              rw
                (
                  grow_step group written item items h,
                  on,
                  more.run,
                  append_assoc written (item ∷ []) more.taken,
                )
                refl;
          split = ap (λ rest. item ∷ rest) more.split;
          all_join = (on, more.all_join);
          stops = more.stops;
        }
    | inr off ↦ record {
      taken = [];
      left = item ∷ items;
      run = rw (grow_step group written item items h, off, append-nil written) refl;
      split = refl;
      all_join = tt;
      stops = off;
    }
  ]
