-- ===== src/Ungrouper/Contract.antt =====
-- The contract of `ungrouper` of src/ungrouper.c, also behind the merger.
use mathlib.Core.List.{append-nil, append_assoc}
use nfql.Prelude.{ℕ, ◌+◌, ◌≡◌, refl, List, [], ◌∷◌, ◌++◌, some, map, length, for_each, All, ok}
use nfql.Word.{Buffer}
use nfql.Pipeline.{Group, MergerResult, Stream}
use nfql.Output.{Options, OutFile, written_if, ungrouper_stream}
use nfql.Ungrouper.{stream_records, make_streams, ungrouper}

-- The members of the groups of a tuple, one group behind the other.
abbrev pub members_of : List Group → List Buffer
members_of groups = for_each groups λ group. group.members

abbrev pub streams_of : List (List Group) → List Stream
streams_of tuples = map (λ groups. record { recordset = members_of groups }) tuples

-- Stream i goes to file i.
abbrev pub stream_files : Options → ℕ → List (List Group) → List OutFile
stream_files options i [] = []
stream_files options i (groups ∷ tuples) =
    written_if options.file (ungrouper_stream i) (members_of groups)
    ++ stream_files options (i + 1) tuples

stream_records_lem :
    (groups : List Group) (recordset : List Buffer)
    → stream_records (length groups) groups recordset ≡ ok (recordset ++ members_of groups)
unfolding stream_records
stream_records_lem [] recordset = rw (append-nil recordset) refl
stream_records_lem (group ∷ groups) recordset =
    rw
      (
        stream_records_lem groups (recordset ++ group.members),
        append_assoc recordset group.members (members_of groups),
      )
      refl

make_streams_lem :
    (options : Options) (n i : ℕ) (tuples : List (List Group))
    → All (λ groups. length groups ≡ n) tuples
    → make_streams options n i tuples ≡ ok (streams_of tuples, stream_files options i tuples)
unfolding make_streams
make_streams_lem options n i [] h = refl
make_streams_lem options n i (groups ∷ tuples) h =
    let whole : stream_records n groups [] ≡ ok (members_of groups) =
      rw (← h.0) (stream_records_lem groups []) in
    rw (whole, make_streams_lem options n (i + 1) tuples h.1) refl

-- Where each tuple has a group of every branch, the ungrouper returns one stream for each tuple,
-- in order, with the members of the tuple's groups one group behind the other, and writes stream i
-- to file i if the options ask for files.
pub ungrouper_lem :
    (options : Options) (num_branches : ℕ) (mresult : MergerResult)
    → All (λ groups. length groups ≡ num_branches) mresult.group_tuples
    → ungrouper options num_branches (some mresult)
      ≡ ok (
        record { streamset = streams_of mresult.group_tuples },
        stream_files options 0 mresult.group_tuples,
      )
unfolding ungrouper
ungrouper_lem options n mresult h = rw (make_streams_lem options n 0 mresult.group_tuples h) refl
