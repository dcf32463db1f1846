-- ===== src/Grouper/Span.antt =====
-- The time span of a group (`grouper` of src/grouper.c): the least start and the greatest end of
-- its members.
use mathlib.Core.List.{append_assoc, append-nil}
use nfql.Prelude.{
  ℕ, ◌≤◌, ◌≡◌, refl, sym, subst, true, List, [], ◌∷◌, ◌++◌, arith, ltb, ◌==◌, if◌then◌else◌, any,
  All, map, Bool-cases, inl, inr,
}
use nfql.Word.{Buffer}
use nfql.Io.{IoHandler}
use nfql.Pipeline.{Group}
use nfql.Grouper.{new_group, add_member, add_members}

-- One of the numbers, and no other is less.
abbrev pub IsLeast : ℕ → List ℕ → Type 0
IsLeast n ns = All (λ m. n ≤ m) ns × (any (λ m. n == m) ns ≡ true)

abbrev pub IsGreatest : ℕ → List ℕ → Type 0
IsGreatest n ns = All (λ m. m ≤ n) ns × (any (λ m. n == m) ns ≡ true)

-- The running minimum of the loop.
abbrev earliest : ℕ → List ℕ → ℕ
earliest min [] = min
earliest min (start ∷ starts) = earliest (if ltb start min then start else min) starts

abbrev latest : ℕ → List ℕ → ℕ
latest max [] = max
latest max (end ∷ ends) = latest (if ltb max end then end else max) ends

-- A number that is not less, in front of the list or behind its first.
IsLeast-front : (m k n : ℕ) (ns : List ℕ) → n ≤ k → IsLeast m (n ∷ ns) → IsLeast m (k ∷ n ∷ ns)
IsLeast-front m k n ns le h = ((omega (arith, h.0.0), h.0), ground (arith, h.1))

IsLeast-second : (m k n : ℕ) (ns : List ℕ) → k ≤ n → IsLeast m (k ∷ ns) → IsLeast m (k ∷ n ∷ ns)
IsLeast-second m k n ns le h = ((h.0.0, (omega (arith, h.0.0), h.0.1)), ground (arith, h.1))

IsGreatest-front :
    (m k n : ℕ) (ns : List ℕ) → k ≤ n → IsGreatest m (n ∷ ns) → IsGreatest m (k ∷ n ∷ ns)
IsGreatest-front m k n ns le h = ((omega (arith, h.0.0), h.0), ground (arith, h.1))

IsGreatest-second :
    (m k n : ℕ) (ns : List ℕ) → n ≤ k → IsGreatest m (k ∷ ns) → IsGreatest m (k ∷ n ∷ ns)
IsGreatest-second m k n ns le h = ((h.0.0, (omega (arith, h.0.0), h.0.1)), ground (arith, h.1))

earliest-IsLeast : (min : ℕ) (ns : List ℕ) → IsLeast (earliest min ns) (min ∷ ns)
earliest-IsLeast min [] = ((omega arith, tt), ground arith)
earliest-IsLeast min (n ∷ ns) = elim (Bool-cases (ltb n min)) [
  | inl on ↦
      subst (λ b. IsLeast (earliest (if b then n else min) ns) (min ∷ n ∷ ns)) (sym on)
        (IsLeast-front (earliest n ns) min n ns (ground arith) (earliest-IsLeast n ns))
  | inr off ↦
      subst (λ b. IsLeast (earliest (if b then n else min) ns) (min ∷ n ∷ ns)) (sym off)
        (IsLeast-second (earliest min ns) min n ns (ground arith) (earliest-IsLeast min ns))
]

latest-IsGreatest : (max : ℕ) (ns : List ℕ) → IsGreatest (latest max ns) (max ∷ ns)
latest-IsGreatest max [] = ((omega arith, tt), ground arith)
latest-IsGreatest max (n ∷ ns) = elim (Bool-cases (ltb max n)) [
  | inl on ↦
      subst (λ b. IsGreatest (latest (if b then n else max) ns) (max ∷ n ∷ ns)) (sym on)
        (IsGreatest-front (latest n ns) max n ns (ground arith) (latest-IsGreatest n ns))
  | inr off ↦
      subst (λ b. IsGreatest (latest (if b then n else max) ns) (max ∷ n ∷ ns)) (sym off)
        (IsGreatest-second (latest max ns) max n ns (ground arith) (latest-IsGreatest max ns))
]

module _ (io : IoHandler) where
  pub add_members-members :
      (group : Group) (items : List Buffer)
      → (add_members io group items).members ≡ group.members ++ items
  unfolding add_members add_member
  add_members-members group [] = sym (append-nil group.members)
  add_members-members group (item ∷ items) =
      rw
        (
          add_members-members (add_member io group item) items,
          append_assoc group.members (item ∷ []) items,
        )
        refl

  add_members-start :
      (group : Group) (items : List Buffer)
      → (add_members io group items).aggr_result.aggr_record.start_ts_msec
        ≡ earliest group.aggr_result.aggr_record.start_ts_msec (map io.io_record_get_StartTS items)
  unfolding add_members add_member
  add_members-start group [] = refl
  add_members-start group (item ∷ items) = add_members-start (add_member io group item) items

  add_members-end :
      (group : Group) (items : List Buffer)
      → (add_members io group items).aggr_result.aggr_record.end_ts_msec
        ≡ latest group.aggr_result.aggr_record.end_ts_msec (map io.io_record_get_EndTS items)
  unfolding add_members add_member
  add_members-end group [] = refl
  add_members-end group (item ∷ items) = add_members-end (add_member io group item) items

  -- The members of a group and their time span.
  pub record IsGroupOf (group : Group) (members : List Buffer) : Type 0 where
    pub members_are : group.members ≡ members
    pub start_ts :
        IsLeast group.aggr_result.aggr_record.start_ts_msec (map io.io_record_get_StartTS members)
    pub end_ts :
        IsGreatest group.aggr_result.aggr_record.end_ts_msec (map io.io_record_get_EndTS members)

  -- The group that the loop makes of a record and those that join it.
  pub new_group-IsGroupOf :
      (rec_size : ℕ) (item : Buffer) (items : List Buffer)
      → IsGroupOf (add_members io (new_group io rec_size item) items) (item ∷ items)
  unfolding new_group
  new_group-IsGroupOf rec_size item items = record {
    members_are = add_members-members (new_group io rec_size item) items;
    start_ts =
        subst (λ n. IsLeast n (map io.io_record_get_StartTS (item ∷ items)))
          (sym (add_members-start (new_group io rec_size item) items))
          (earliest-IsLeast (io.io_record_get_StartTS item) (map io.io_record_get_StartTS items));
    end_ts =
        subst (λ n. IsGreatest n (map io.io_record_get_EndTS (item ∷ items)))
          (sym (add_members-end (new_group io rec_size item) items))
          (latest-IsGreatest (io.io_record_get_EndTS item) (map io.io_record_get_EndTS items));
  }
