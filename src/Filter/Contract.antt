-- ===== src/Filter/Contract.antt =====
-- The contract of `read_trace` of src/f.c, with the filter enabled.
use mathlib.Core.List.{append-nil, append_assoc, map-append}
use nfql.Prelude.{
  ℕ, ◌≡◌, refl, ap, Bool, true, false, ◌&&◌, List, [], ◌∷◌, ◌++◌, none, some, map, arith, keep,
  keep-accept, keep-reject, any, take, All, All-map, ok, if◌then◌else◌, Bool-cases, inl, inr,
}
use nfql.Word.{Buffer}
use nfql.Dnf.{Answers, holds_dnf, scan_clauses_lem}
use nfql.Pipeline.{Branch, FilterFunc, FilterTerm, FilterClause}
use nfql.Output.{Options}
use nfql.Comps.Assign.{assign_filter_func}
use nfql.Filter.{
  filter_test, prepare_branch, open_files, Saved, save_record, offer_record, offer_branches,
  read_records, branch_files, read_trace,
}

-- The dispatch has found the term's function.
pub record IsAssigned (term : FilterTerm) : Type 0 where
  pub func : FilterFunc
  pub assigned : term.func ≡ some func

-- The term's comparison on a record.
unfoldable pub filter_holds : Buffer → FilterTerm → Bool
filter_holds rec term = elim term.func [
  | none ↦ false
  | some func ↦ func rec term.field_offset term.value term.delta
]

filter_test_lem :
    (rec : Buffer) (term : FilterTerm)
    → IsAssigned term
    → filter_test rec term ≡ ok (filter_holds rec term)
unfolding filter_test filter_holds
filter_test_lem rec term a = rw (a.assigned, filter_holds) refl

filter_test-All :
    (rec : Buffer) (clauses : List FilterClause)
    → All (All IsAssigned) clauses
    → All (Answers (filter_test rec) (filter_holds rec)) clauses
filter_test-All rec clauses h =
    All-map
      (λ clause a.
        All-map {Q = λ term. filter_test rec term ≡ ok (filter_holds rec term)}
          (filter_test_lem rec) clause a)
      clauses h

-- The clauses of the branch as the stage uses them.
abbrev pub assigned_clauses : Branch → List FilterClause
assigned_clauses branch = map (map assign_filter_func) branch.filter_clauseset

-- Some clause of the branch has only terms that hold of the record.
abbrev pub passes : Branch → Buffer → Bool
passes branch rec = holds_dnf (filter_holds rec) (assigned_clauses branch)

abbrev pub AllAssigned : Branch → Type 0
AllAssigned branch = All (All IsAssigned) (assigned_clauses branch)

module _ (options : Options) (record_size : ℕ) where
  abbrev pub copy : Buffer → Buffer
  copy rec = take record_size rec

  abbrev pub for_file : List Buffer → List Buffer
  for_file records = if options.verbose_v && options.file then records else []

  -- The branch after the records `done`.
  abbrev pub branch_after : List Buffer → Branch → Branch
  branch_after done branch = record branch {
    filter_clauseset = assigned_clauses branch;
    filter_result = some (record { filtered_recordset = map copy (keep (passes branch) done) });
    write_ctxt = branch.write_ctxt ++ for_file (keep (passes branch) done);
  }

  keep-snoc :
      (p : Buffer → Bool) (done : List Buffer) (rec : Buffer)
      → keep p (done ++ rec ∷ []) ≡ keep p done ++ (if p rec then rec ∷ [] else [])
  keep-snoc p [] rec = ground arith
  keep-snoc p (x ∷ done) rec = ground (arith, keep-snoc p done rec)

  -- The branch after one more record, as the step of the loop makes it.
  offer_record_lem :
      (done : List Buffer) (rec : Buffer) (saved : Saved) (branch : Branch)
      → AllAssigned branch
      → (save_record record_size rec saved).target ≡ copy rec
      → offer_record options record_size rec saved (branch_after done branch)
        ≡ ok (
          (if passes branch rec then save_record record_size rec saved else saved),
          branch_after (done ++ rec ∷ []) branch,
        )
  unfolding offer_record
  offer_record_lem done rec saved branch h e =
      rw
        (scan_clauses_lem (filter_test rec) (filter_holds rec) (assigned_clauses branch)
          (filter_test-All rec (assigned_clauses branch) h))
        (elim (Bool-cases (passes branch rec)) [
          | inl on ↦
              rw (on, keep-snoc (passes branch) done rec, on)
                (ground (
                  arith,
                  map-append copy kept (rec ∷ []),
                  append_assoc branch.write_ctxt kept (rec ∷ []),
                  append_assoc branch.write_ctxt [] [],
                ))
          | inr off ↦
              rw (off, keep-snoc (passes branch) done rec, off) (ground (arith, append-nil kept))
        ])
    where
      kept : List Buffer
      kept = keep (passes branch) done

  -- Whether some branch wants the record.
  abbrev pub wanted : List Branch → Buffer → Bool
  wanted branches rec = any (λ branch. passes branch rec) branches

  -- The two states of the copy: before the first branch that wants the record, and after it.
  abbrev pub unsaved : List Buffer → Saved
  unsaved recordset = record { first_time = true; target = []; recordset = recordset }

  abbrev pub saved_as : Buffer → List Buffer → Saved
  saved_as rec recordset = record { first_time = false; target = copy rec; recordset = recordset }

  save_again :
      (rec : Buffer) (recordset : List Buffer)
      → save_record record_size rec (saved_as rec recordset) ≡ saved_as rec recordset
  unfolding save_record
  save_again rec recordset = refl

  save_first :
      (rec : Buffer) (recordset : List Buffer)
      → save_record record_size rec (unsaved recordset) ≡ saved_as rec (recordset ++ copy rec ∷ [])
  unfolding save_record
  save_first rec recordset = refl

  if-same : {A : Type 0} (b : Bool) (x : A) → (if b then x else x) ≡ x
  if-same true x = refl
  if-same false x = refl

  -- All branches, once the copy is made.
  offer_branches_again :
      (done : List Buffer) (rec : Buffer) (recordset : List Buffer) (branches : List Branch)
      → All AllAssigned branches
      → offer_branches options record_size rec
          (saved_as rec recordset)
          (map (branch_after done) branches)
        ≡ ok (saved_as rec recordset, map (branch_after (done ++ rec ∷ [])) branches)
  unfolding offer_branches
  offer_branches_again done rec recordset [] h = refl
  offer_branches_again done rec recordset (branch ∷ branches) h =
      rw
        (
          offer_record_lem done rec (saved_as rec recordset) branch h.0
              (ap (λ s. s.target) (save_again rec recordset)),
          save_again rec recordset,
          if-same (passes branch rec) (saved_as rec recordset),
          offer_branches_again done rec recordset branches h.1,
        )
        refl

  -- All branches on a record that none has wanted yet.
  offer_branches_lem :
      (done : List Buffer) (rec : Buffer) (recordset : List Buffer) (branches : List Branch)
      → All AllAssigned branches
      → offer_branches options record_size rec
          (unsaved recordset)
          (map (branch_after done) branches)
        ≡ ok (
          (if wanted branches rec
              then saved_as rec (recordset ++ copy rec ∷ [])
              else unsaved recordset),
          map (branch_after (done ++ rec ∷ [])) branches,
        )
  unfolding offer_branches
  offer_branches_lem done rec recordset [] h = refl
  offer_branches_lem done rec recordset (branch ∷ branches) h =
      rw
        (
          offer_record_lem done rec (unsaved recordset) branch h.0
              (ap (λ s. s.target) (save_first rec recordset)),
          save_first rec recordset,
        )
        (elim (Bool-cases (passes branch rec)) [
          | inl on ↦
              rw (on, offer_branches_again done rec (recordset ++ copy rec ∷ []) branches h.1) refl
          | inr off ↦ rw (off, offer_branches_lem done rec recordset branches h.1) refl
        ])

  read_records_lem :
      (done trace : List Buffer) (recordset : List Buffer) (branches : List Branch)
      → All AllAssigned branches
      → read_records options record_size trace recordset (map (branch_after done) branches)
        ≡ ok (
          recordset ++ map copy (keep (wanted branches) trace),
          map (branch_after (done ++ trace)) branches,
        )
  unfolding read_records
  read_records_lem done [] recordset branches h = rw (append-nil done, append-nil recordset) refl
  read_records_lem done (rec ∷ trace) recordset branches h =
      rw (offer_branches_lem done rec recordset branches h)
        (elim (Bool-cases (wanted branches rec)) [
          | inl on ↦
              rw
                (
                  on,
                  keep-accept (wanted branches) rec trace on,
                  read_records_lem (done ++ rec ∷ []) trace (recordset ++ copy rec ∷ []) branches h,
                  append_assoc done (rec ∷ []) trace,
                  append_assoc recordset (copy rec ∷ []) (map copy (keep (wanted branches) trace)),
                )
                refl
          | inr off ↦
              rw
                (
                  off,
                  keep-reject (wanted branches) rec trace off,
                  read_records_lem (done ++ rec ∷ []) trace recordset branches h,
                  append_assoc done (rec ∷ []) trace,
                )
                refl
        ])

  -- The stage has begun: each branch is prepared and the files are open.
  prepare_branches :
      (branches : List Branch)
      → options.filter_enabled ≡ true
      → map (prepare_branch options) branches ≡ map (branch_after []) branches
  unfolding prepare_branch
  prepare_branches [] on = refl
  prepare_branches (branch ∷ branches) on =
      rw (prepare_branches branches on, on) (ground (arith, append-nil branch.write_ctxt))

  open_files_lem :
      (branches : List Branch) → open_files options (map (branch_after []) branches) ≡ ok tt
  unfolding open_files
  open_files_lem [] = refl
  open_files_lem (branch ∷ branches) = ground (arith, open_files_lem branches)

  -- With the filter enabled, and a function for every filter term, the stage comes to its end. Its
  -- trace data is, in the order of the trace, one copy of each record that some branch wants; and
  -- each branch has the copies of the records that pass one of its clauses in all terms.
  pub read_trace_lem :
      (trace : List Buffer) (branches : List Branch)
      → options.filter_enabled ≡ true
      → All AllAssigned branches
      → read_trace options record_size trace branches
        ≡ ok (
          map copy (keep (wanted branches) trace),
          map (branch_after trace) branches,
          branch_files options (map (branch_after trace) branches),
        )
  unfolding read_trace
  read_trace_lem trace branches on h =
      rw
        (
          prepare_branches branches on,
          open_files_lem branches,
          read_records_lem [] trace [] branches h,
        )
        refl
