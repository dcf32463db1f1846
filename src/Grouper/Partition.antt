-- ===== src/Grouper/Partition.antt =====
-- The loop that makes the groups of a clause (`grouper` of src/grouper.c): what its groups are.
use mathlib.Core.List.{append_assoc, append-nil}
use nfql.Prelude.{
  ℕ, zero, suc, ◌≤◌, ◌<◌, ◌≡◌, refl, sym, ap, subst, ◌∙◌, ◌&&◌, List, [], ◌∷◌, ◌++◌, arith, length,
  length-append, map, All, ok,
}
use nfql.Word.{Buffer}
use nfql.Io.{IoHandler}
use nfql.Pipeline.{Branch, Group, GrouperClause}
use nfql.Output.{Options, OutFile, written_if, grouper_branch_group_records}
use nfql.Grouper.{new_group, add_members, Grouping, group_records}
use nfql.Grouper.Growth.{HasFunc, AllJoin, Stops, grow_group_lem}
use nfql.Grouper.Finish.{IsAggregable, Finished, finish_group_lem}
use nfql.Grouper.Span.{IsLeast, IsGreatest, IsGroupOf, new_group-IsGroupOf}

-- A group's records: its first one, and those that joined it.
abbrev pub Part : Type 0
Part = Buffer × List Buffer

abbrev pub members_of : Part → List Buffer
members_of part = part.0 ∷ part.1

abbrev pub flatten : List Part → List Buffer
flatten [] = []
flatten (part ∷ parts) = members_of part ++ flatten parts

length_rest : (taken left items : List Buffer) → taken ++ left ≡ items → length left ≤ length items
length_rest taken left items e = omega (arith, length-append taken left, ap length e)

length_snoc :
    (groups : List Group) (group : Group) → length (groups ++ group ∷ []) ≡ suc (length groups)
length_snoc groups group = omega (arith, length-append groups (group ∷ []))

module _ (io : IoHandler) where
  abbrev pub started : Part → Group
  started part = new_group io io.io_read_get_record_size part.0

  -- Every record of a part joins the group of those before it in the part, and the first record of
  -- the next part does not join.
  abbrev pub AreRuns : GrouperClause → List Part → Type 0
  AreRuns gclause [] = Unit
  AreRuns gclause (part ∷ parts) =
      AllJoin io gclause (started part) part.1
      × Stops io gclause (add_members io (started part) part.1) (flatten parts)
      × AreRuns gclause parts

  -- One group for each part.
  abbrev pub AreGroupsOf : List Part → List Group → Type 0
  AreGroupsOf [] [] = Unit
  AreGroupsOf [] (group ∷ groups) = ⊥
  AreGroupsOf (part ∷ parts) [] = ⊥
  AreGroupsOf (part ∷ parts) (group ∷ groups) =
      IsGroupOf io group (members_of part) × AreGroupsOf parts groups

module _ (io : IoHandler) (options : Options) (branch : Branch) where
  -- The files of the groups' members have no first members.
  abbrev pub member_files : ℕ → List Part → List OutFile
  member_files n [] = []
  member_files n (part ∷ parts) =
      written_if (options.verbose_vv && options.file)
        (grouper_branch_group_records branch.branch_id n) part.1
      ++ member_files (suc n) parts

  pub Finished-IsGroupOf :
      (group : Group) (members : List Buffer)
      → IsGroupOf io group members
      → (finished : Finished options branch group) → IsGroupOf io finished.result members
  Finished-IsGroupOf group members is finished = record {
    members_are = finished.members ∙ is.members_are;
    start_ts =
        subst (λ n. IsLeast n (map io.io_record_get_StartTS members)) (sym finished.start_ts)
          is.start_ts;
    end_ts =
        subst (λ n. IsGreatest n (map io.io_record_get_EndTS members)) (sym finished.end_ts)
          is.end_ts;
  }

  -- What the loop makes of sorted records.
  pub record Parted (fuel : ℕ) (gclause : GrouperClause) (items : List Buffer) (grouping : Grouping)
      : Type 0 where
    pub parts : List Part
    pub groups : List Group
    pub run :
        group_records io options branch fuel gclause items grouping
        ≡ ok (record {
          groupset = grouping.groupset ++ groups;
          files = grouping.files ++ member_files (length grouping.groupset) parts;
        })
    pub split : flatten parts ≡ items
    pub runs : AreRuns io gclause parts
    pub groups_are : AreGroupsOf io parts groups

  pub group_records_lem :
      (fuel : ℕ) (gclause : GrouperClause) (items : List Buffer) (grouping : Grouping)
      → length items < fuel
      → IsAggregable options branch
      → All HasFunc gclause
      → Parted fuel gclause items grouping
  unfolding group_records
  group_records_lem zero gclause items grouping lt h a = absurd (omega arith)
  group_records_lem (suc fuel) gclause [] grouping lt h a = record {
    parts = [];
    groups = [];
    run = rw (append-nil grouping.groupset, append-nil grouping.files) refl;
    split = refl;
    runs = tt;
    groups_are = tt;
  }
  group_records_lem (suc fuel) gclause (item ∷ items) grouping lt h a =
      let first = new_group io io.io_read_get_record_size item in
      let grown = grow_group_lem io gclause first [] items a in
      let finished = finish_group_lem options branch (add_members io first grown.taken) h in
      let file =
        written_if (options.verbose_vv && options.file)
          (grouper_branch_group_records branch.branch_id (length grouping.groupset)) grown.taken in
      let rest =
        group_records_lem fuel gclause grown.left
          (record {
            groupset = grouping.groupset ++ finished.result ∷ [];
            files = grouping.files ++ file;
          })
          (omega (arith, length_rest grown.taken grown.left items grown.split)) h a in
      record {
        parts = (item, grown.taken) ∷ rest.parts;
        groups = finished.result ∷ rest.groups;
        run =
            rw
              (
                grown.run,
                finished.run,
                rest.run,
                length_snoc grouping.groupset finished.result,
                append_assoc grouping.groupset (finished.result ∷ []) rest.groups,
                append_assoc grouping.files file
                    (member_files (suc (length grouping.groupset)) rest.parts),
              )
              refl;
        split = ap (λ l. item ∷ l) (ap (λ l. grown.taken ++ l) rest.split ∙ grown.split);
        runs = (
          grown.all_join,
          subst (Stops io gclause (add_members io first grown.taken)) (sym rest.split) grown.stops,
          rest.runs,
        );
        groups_are = (
          Finished-IsGroupOf _ _
              (new_group-IsGroupOf io io.io_read_get_record_size item grown.taken) finished,
          rest.groups_are,
        );
      }
