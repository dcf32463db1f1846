-- ===== src/Ungrouper.antt =====
-- src/ungrouper.c: `ungrouper` unfolds each tuple of groups into the stream of its members.
pub mod Contract
pub mod Merged
use nfql.Prelude.{
  ℕ, zero, suc, ◌+◌, List, [], ◌∷◌, ◌++◌, Option, none, some, Outcome, ok, abort, null_pointer,
  ◌>>=◌,
}
use nfql.Word.{Buffer}
use nfql.Pipeline.{Group, MergerResult, Stream, UngrouperResult}
use nfql.Output.{Options, OutFile, written_if, ungrouper_stream}

-- The loop over a tuple's groups: the members of each are appended to the stream. A tuple that is
-- shorter than the number of branches is read past its end.
unfoldable pub stream_records : ℕ → List Group → List Buffer → Outcome (List Buffer)
stream_records zero groups recordset = ok recordset
stream_records (suc n) [] recordset = abort null_pointer
stream_records (suc n) (group ∷ groups) recordset =
    stream_records n groups (recordset ++ group.members)

-- The loop over the tuples, of which `i` is the next one's number.
unfoldable pub make_streams :
    Options → ℕ → ℕ → List (List Group) → Outcome (List Stream × List OutFile)
unfolding stream_records
make_streams options num_branches i [] = ok ([], [])
make_streams options num_branches i (group_tuple ∷ tuples) = do
  recordset ← stream_records num_branches group_tuple []
  rest ← make_streams options num_branches (i + 1) tuples
  ok (
    record { recordset = recordset } ∷ rest.0,
    written_if options.file (ungrouper_stream i) recordset ++ rest.1,
  )

-- A NULL merger result gives no stream.
unfoldable pub ungrouper :
    Options → ℕ → Option MergerResult → Outcome (UngrouperResult × List OutFile)
unfolding make_streams
ungrouper options num_branches none = ok (record { streamset = [] }, [])
ungrouper options num_branches (some mresult) = do
  streams ← make_streams options num_branches 0 mresult.group_tuples
  ok (record { streamset = streams.0 }, streams.1)
