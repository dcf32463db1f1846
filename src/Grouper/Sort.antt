-- ===== src/Grouper/Sort.antt =====
-- src/grouper.c: `qsort_comp` and `get_grouper_intermediates`; and the `comp` functions of
-- src/utils.c, which compare one field of two records.
pub mod Order
use nfql.Prelude.{
  ℕ, zero, suc, Bool, true, false, ◌&&◌, List, [], ◌∷◌, Option, none, some, ltb, if◌then◌else◌,
  Outcome, ok, abort, null_pointer, ◌>>=◌,
}
use nfql.Prelude.Ints.{ℤ, pos, negsuc, sub_ℕ, of_bool}
use nfql.Word.{Buffer, Width, load}
use nfql.Libc.{Libc}
use nfql.Dnf.{call}
use nfql.Pipeline.{GrouperTerm}
use nfql.Output.{Options, OutFile, written_if, grouper_branch_sorted_records}

-- comp_<size>
unfoldable pub comp : Width → ℕ → Buffer → Buffer → ℤ
comp w thunk e1 e2 =
    let x = load w e1 thunk in
    let y = load w e2 thunk in sub_ℕ (of_bool (ltb y x)) (of_bool (ltb x y))

abbrev pub is_zero : ℤ → Bool
is_zero (pos zero) = true
is_zero (pos (suc n)) = false
is_zero (negsuc n) = false

-- The first term whose fields differ decides.
unfoldable pub qsort_comp : List GrouperTerm → List (Option Width) → Buffer → Buffer → Outcome ℤ
unfolding comp
qsort_comp [] gtypeset e1 e2 = ok (pos 0)
qsort_comp (term ∷ termset) [] e1 e2 = abort null_pointer
qsort_comp (term ∷ termset) (gtype ∷ gtypeset) e1 e2 = do
  result ← call gtype (λ w. comp w term.field_offset2 e1 e2)
  let next = qsort_comp termset gtypeset e1 e2
  if is_zero result then next else ok result

-- The sorted records, `gresult->sorted_recordset`, and the file of the sorted records.
unfoldable pub get_grouper_intermediates :
    Libc
    → Options
    → List GrouperTerm
    → List (Option Width)
    → List Buffer
    → List Buffer
    → ℕ
    → Outcome (List Buffer × List Buffer × List OutFile)
unfolding qsort_comp
get_grouper_intermediates libc options termset gtypeset filtered_recordset sorted branch_id = do
  records ← libc.qsort_r (qsort_comp termset gtypeset) filtered_recordset
  ok (
    records,
    (if options.verbose_vv then records else sorted),
    written_if (options.verbose_vv && options.file) (grouper_branch_sorted_records branch_id)
        records,
  )
