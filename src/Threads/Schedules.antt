-- ===== src/Threads/Schedules.antt =====
-- Every schedule of the threads of src/f.c does what the branches do one after the other.
use mathlib.Core.List.{Perm, append_assoc, append-nil, map-append, perm_append_comm}
use mathlib.Core.List.Perm
use nfql.Prelude.{
  List, [], ◌∷◌, ◌++◌, ◌≡◌, refl, sym, ap, ap₂, subst, ◌∙◌, map, for_each, All, All-append, Outcome,
  ok,
}
use nfql.Io.{IoHandler}
use nfql.Libc.{Libc}
use nfql.Output.{Options, OutFile}
use nfql.Pipeline.{Branch}
use nfql.BranchThread.{ExitStatus, exit_success, branch_start}
use nfql.Threads.{
  exited, Thread, System, new_thread, initial, Moves, here, there, Step, create, move, join, Reach,
  start, later,
}
use nfql.Threads.Rest.{rest_of, advance_thread-rest, rest-branch_start}

-- The files that the threads have written.
abbrev pub files_of : List Thread → List OutFile
files_of threads = for_each threads (λ t. t.written)

files_of-append : (xs ys : List Thread) → files_of (xs ++ ys) ≡ files_of xs ++ files_of ys
files_of-append [] ys = refl
files_of-append (x ∷ xs) ys =
    ap (λ l. x.written ++ l) (files_of-append xs ys)
    ∙ sym (append_assoc x.written (files_of xs) (files_of ys))

-- Files that are written at the end belong anywhere.
perm_inside : (xs ys fs : List OutFile) → Perm ((xs ++ ys) ++ fs) ((xs ++ fs) ++ ys)
perm_inside xs ys fs =
    subst (λ l. Perm l ((xs ++ fs) ++ ys)) (sym (append_assoc xs ys fs))
      (subst (λ l. Perm (xs ++ (ys ++ fs)) l) (sym (append_assoc xs fs ys))
        (Perm.append_left xs (perm_append_comm ys fs)))

map-snoc {ℓ κ} :
    {A : Type ℓ} {B : Type κ} (f : A → B) (xs : List A) (x : A) (rest : List B)
    → map f (xs ++ x ∷ []) ++ rest ≡ map f xs ++ (f x ∷ rest)
map-snoc f [] x rest = refl
map-snoc f (y ∷ ys) x rest = ap (λ l. f y ∷ l) (map-snoc f ys x rest)

-- A new thread has written nothing.
files_of-new :
    (joined live : List Thread) (b : Branch)
    → files_of (joined ++ (live ++ new_thread b ∷ [])) ≡ files_of (joined ++ live)
files_of-new joined live b =
    ap files_of (sym (append_assoc joined live (new_thread b ∷ [])))
    ∙ files_of-append (joined ++ live) (new_thread b ∷ [])
    ∙ append-nil (files_of (joined ++ live))

files_of-moved :
    (joined live live' : List Thread) (files : List OutFile)
    → Perm (files_of live ++ files) (files_of live')
    → Perm (files_of (joined ++ live) ++ files) (files_of (joined ++ live'))
files_of-moved joined live live' files perm =
    subst (λ l. Perm (l ++ files) (files_of (joined ++ live'))) (sym (files_of-append joined live))
      (subst (λ l. Perm l (files_of (joined ++ live')))
        (sym (append_assoc (files_of joined) (files_of live) files))
        (subst (Perm (files_of joined ++ (files_of live ++ files)))
          (sym (files_of-append joined live')) (Perm.append_left (files_of joined) perm)))

abbrev exit_thread : Branch → List OutFile → Thread
exit_thread b written = record { phase = exited exit_success; branch = b; written = written }

-- The thread has exited with success.
abbrev pub HasSucceeded : Thread → Type 0
HasSucceeded t = t.phase ≡ exited exit_success

module _ (libc : Libc) (options : Options) (io : IoHandler) where
  abbrev ends : List Thread → List (Outcome (ExitStatus × Branch × List OutFile))
  ends threads = map (rest_of libc options io) threads

  abbrev pub alone : List Branch → List (Outcome (ExitStatus × Branch × List OutFile))
  alone branches = map (branch_start libc options io) branches

  -- The ends of the threads, those to come included, are the branches' own; the joined threads have
  -- succeeded; and the log is what the threads have written.
  pub record Inv (branches : List Branch) (s : System) : Type 0 where
    pub ends_stand : ends (s.joined ++ s.live) ++ alone s.pending ≡ alone branches
    pub succeeded : All HasSucceeded s.joined
    pub logged : Perm s.log (files_of (s.joined ++ s.live))

  Moves-ends :
      {ts ts' : List Thread} {files : List OutFile}
      → Moves libc options io ts ts' files
      → (ends ts' ≡ ends ts) × Perm (files_of ts ++ files) (files_of ts')
  Moves-ends (here {t} {t'} {files} ts e) =
      let (end, written) = advance_thread-rest libc options io t t' files e in
      (
        ap (λ x. x ∷ ends ts) end,
        subst (λ l. Perm ((t.written ++ files_of ts) ++ files) (l ++ files_of ts)) (sym written)
            (perm_inside t.written (files_of ts) files),
      )
  Moves-ends (there {ts} {ts'} {files} t m) =
      let (end, perm) = Moves-ends m in
      (
        ap (λ l. rest_of libc options io t ∷ l) end,
        subst (λ l. Perm l (t.written ++ files_of ts'))
            (sym (append_assoc t.written (files_of ts) files)) (Perm.append_left t.written perm),
      )

  initial-Inv : (branches : List Branch) → Inv branches (initial branches)
  initial-Inv branches = record { ends_stand = refl; succeeded = tt; logged = Perm.refl [] }

  Step-Inv :
      {branches : List Branch} {s s' : System}
      → Step libc options io s s'
      → Inv branches s
      → Inv branches s'
  Step-Inv (create b bs live joined log) h = record {
    ends_stand =
        ap (λ l. ends l ++ alone bs) (sym (append_assoc joined live (new_thread b ∷ [])))
        ∙ map-snoc (rest_of libc options io) (joined ++ live) (new_thread b) (alone bs)
        ∙ ap (λ e. ends (joined ++ live) ++ (e ∷ alone bs)) (rest-branch_start libc options io b)
        ∙ h.ends_stand;
    succeeded = h.succeeded;
    logged = subst (Perm log) (sym (files_of-new joined live b)) h.logged;
  }
  Step-Inv (move pending {live} {live'} joined log {files} m) h =
      let (end, perm) = Moves-ends m in
      record {
        ends_stand =
            ap (λ l. l ++ alone pending)
              (map-append (rest_of libc options io) joined live'
                ∙ ap (λ l. ends joined ++ l) end
                ∙ sym (map-append (rest_of libc options io) joined live))
            ∙ h.ends_stand;
        succeeded = h.succeeded;
        logged =
            Perm.trans (Perm.append_right files h.logged)
              (files_of-moved joined live live' files perm);
      }
  Step-Inv (join b written live joined log) h = record {
    ends_stand =
        ap (λ l. ends l ++ []) (append_assoc joined (exit_thread b written ∷ []) live)
        ∙ h.ends_stand;
    succeeded = All-append HasSucceeded joined _ h.succeeded (refl, tt);
    logged =
        subst (λ l. Perm log (files_of l))
          (sym (append_assoc joined (exit_thread b written ∷ []) live)) h.logged;
  }

  pub Reach-Inv :
      {branches : List Branch} {s : System} → Reach libc options io branches s → Inv branches s
  Reach-Inv {branches} start = initial-Inv branches
  Reach-Inv (later r st) = Step-Inv st (Reach-Inv r)

  -- `main` has joined all the threads.
  pub record IsFinished (s : System) : Type 0 where
    pub no_pending : s.pending ≡ []
    pub no_live : s.live ≡ []

  abbrev pub success_of : Thread → Outcome (ExitStatus × Branch × List OutFile)
  success_of t = ok (exit_success, t.branch, t.written)

  ends-succeeded :
      (threads : List Thread) → All HasSucceeded threads → ends threads ≡ map success_of threads
  ends-succeeded [] h = refl
  ends-succeeded (t ∷ ts) (h, hs) = ap₂ (λ x l. x ∷ l) (ended t h) (ends-succeeded ts hs)
    where
      ended : (t : Thread) → HasSucceeded t → rest_of libc options io t ≡ success_of t
      ended t h = rw h refl

  -- However the threads are scheduled, once `main` has joined them all, each branch has come to what
  -- `branch_start` makes of it alone, with success, in the order of the branches; and what was
  -- written is the files of the branches, in some order.
  pub schedule_lem :
      (branches : List Branch) (s : System)
      → Reach libc options io branches s
      → IsFinished s
      → (map (branch_start libc options io) branches ≡ map success_of s.joined)
        × Perm s.log (files_of s.joined)
  schedule_lem branches s r done =
      let h = Reach-Inv r in
      (
        sym h.ends_stand
            ∙ ap₂ (λ l p. ends (s.joined ++ l) ++ alone p) done.no_live done.no_pending
            ∙ append-nil (ends (s.joined ++ []))
            ∙ ap ends (append-nil s.joined)
            ∙ ends-succeeded s.joined h.succeeded,
        subst (λ l. Perm s.log (files_of l))
            (ap (λ l. s.joined ++ l) done.no_live ∙ append-nil s.joined) h.logged,
      )
