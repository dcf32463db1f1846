-- ===== src/Comps/Allen.antt =====
-- scripts/generate-functions.py, `merger2_body`: the comparisons of two groups named after Allen's
-- interval relations. Each reads one uint32_t of either cooked record.
use nfql.Prelude.{ℕ, ◌≡◌, Bool, false, ◌&&◌, ltb, ◌==◌, arith}
use nfql.Word.{w32, load}
use nfql.Pipeline.{Group}
use nfql.Comps.{cooked}

pub data AllenOp : Type 0 where
  bf af m mi o oi s si d di f fi eq : AllenOp

unfoldable pub allen_times : AllenOp → ℕ → ℕ → Bool
allen_times bf t1 t2 = ltb t1 t2
allen_times af t1 t2 = ltb t2 t1
allen_times m t1 t2 = t1 == t2
allen_times mi t1 t2 = t1 == t2
allen_times o t1 t2 = ltb t1 t2 && ltb t2 t1
allen_times oi t1 t2 = ltb t2 t1 && ltb t1 t2
allen_times s t1 t2 = t1 == t2 && ltb t1 t2
allen_times si t1 t2 = t1 == t2 && ltb t2 t1
allen_times d t1 t2 = ltb t2 t1 && ltb t1 t2
allen_times di t1 t2 = ltb t1 t2 && ltb t2 t1
allen_times f t1 t2 = t1 == t2 && ltb t2 t1
allen_times fi t1 t2 = t1 == t2 && ltb t1 t2
allen_times eq t1 t2 = t1 == t2 && t1 == t2

-- merger_allen_<op>
unfoldable pub allen_func : AllenOp → Group → ℕ → Group → ℕ → ℕ → Bool
allen_func op group1 field1_offset group2 field2_offset delta =
    allen_times op (load w32 (cooked group1) field1_offset) (load w32 (cooked group2) field2_offset)

-- The relations that compare more than one pair of end points.
abbrev pub IsOverlap : AllenOp → Type 0
IsOverlap bf = ⊥
IsOverlap af = ⊥
IsOverlap m = ⊥
IsOverlap mi = ⊥
IsOverlap eq = ⊥
IsOverlap _ = Unit

allen_times_overlap : (op : AllenOp) (t1 t2 : ℕ) → IsOverlap op → allen_times op t1 t2 ≡ false
unfolding allen_times
allen_times_overlap bf t1 t2 h = absurd h
allen_times_overlap op t1 t2 h = ground arith

-- The eight relations overlaps, overlapped by, starts, started by, during, contains, finishes and
-- finished by hold of no pair of groups, whatever fields are compared.
pub allen_func_overlap :
    (op : AllenOp) (group1 : Group) (field1_offset : ℕ) (group2 : Group) (field2_offset delta : ℕ)
    → IsOverlap op
    → allen_func op group1 field1_offset group2 field2_offset delta ≡ false
unfolding allen_func
allen_func_overlap op group1 f1 group2 f2 delta h = allen_times_overlap op _ _ h
