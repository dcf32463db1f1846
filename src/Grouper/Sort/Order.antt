-- ===== src/Grouper/Sort/Order.antt =====
-- The order of records that `qsort_comp` of src/grouper.c decides.
use nfql.Prelude.{
  ℕ, ◌≡◌, refl, false, List, [], ◌∷◌, Option, none, some, arith, map, ltb, ◌==◌, if◌then◌else◌, All,
  ok,
}
use nfql.Prelude.Ints.{pos, negsuc}
use nfql.Word.{Buffer, Width, load}
use nfql.Libc.{Comparator, IsOrder, is_positive, is_negative}
use nfql.Pipeline.{GrouperTerm}
use nfql.Comps.AssignAggr.{get_gtype}
use nfql.Grouper.Sort.{comp, qsort_comp}

-- The type of the term's right field has a comparison.
abbrev pub HasGtype : GrouperTerm → Type 0
HasGtype term = (w : Width) × (get_gtype term.op.field2_type ≡ some w)

abbrev pub gtypes : List GrouperTerm → List (Option Width)
gtypes termset = map (λ (term : GrouperTerm). get_gtype term.op.field2_type) termset

-- A term's key in a record: its right field.
unfoldable pub key_of : GrouperTerm → Buffer → ℕ
key_of term rec = elim (get_gtype term.op.field2_type) [
  | none ↦ 0
  | some w ↦ load w rec term.field_offset2
]

-- The lexicographic order on the terms' keys.
unfoldable pub compare_keys : List GrouperTerm → Comparator Buffer
unfolding key_of
compare_keys [] e1 e2 = pos 0
compare_keys (term ∷ termset) e1 e2 =
    let next = compare_keys termset e1 e2 in
    if key_of term e1 == key_of term e2
    then next
    else if ltb (key_of term e1) (key_of term e2)
    then negsuc 0
    else pos 1

pub qsort_comp_lem :
    (termset : List GrouperTerm) (e1 e2 : Buffer)
    → All HasGtype termset
    → qsort_comp termset (gtypes termset) e1 e2 ≡ ok (compare_keys termset e1 e2)
unfolding qsort_comp compare_keys
qsort_comp_lem [] e1 e2 h = refl
qsort_comp_lem (term ∷ termset) e1 e2 ((w, e), h) =
    rw (key_of, e, comp, qsort_comp_lem termset e1 e2 h) (ground arith)

compare_keys_antisymmetric :
    (termset : List GrouperTerm) (x y : Buffer)
    → is_positive (compare_keys termset x y) ≡ is_negative (compare_keys termset y x)
unfolding compare_keys
compare_keys_antisymmetric [] x y = refl
compare_keys_antisymmetric (term ∷ termset) x y =
    ground (arith, compare_keys_antisymmetric termset x y)

pub compare_keys_transitive :
    (termset : List GrouperTerm) (x y z : Buffer)
    → is_positive (compare_keys termset x y) ≡ false
    → is_positive (compare_keys termset y z) ≡ false
    → is_positive (compare_keys termset x z) ≡ false
unfolding compare_keys
compare_keys_transitive [] x y z p q = refl
compare_keys_transitive (term ∷ termset) x y z p q =
    ground (arith, compare_keys_transitive termset x y z)

-- The comparison of `qsort_comp` is a total preorder.
pub compare_keys-IsOrder : (termset : List GrouperTerm) → IsOrder _ (compare_keys termset)
compare_keys-IsOrder termset = record {
  antisymmetric = compare_keys_antisymmetric termset;
  transitive = compare_keys_transitive termset;
}

-- For terms whose right fields have types with a comparison, `qsort_comp` comes to an answer: it
-- orders two records by the terms' right fields, the first term first; and this order is one that
-- `qsort_r` may sort by, antisymmetric and transitive.
pub qsort_comp-IsOrder :
    (termset : List GrouperTerm)
    → All HasGtype termset
    → ((e1 e2 : Buffer)
        → qsort_comp termset (gtypes termset) e1 e2 ≡ ok (compare_keys termset e1 e2))
      × IsOrder _ (compare_keys termset)
qsort_comp-IsOrder termset h =
    (λ e1 e2. qsort_comp_lem termset e1 e2 h, compare_keys-IsOrder termset)
