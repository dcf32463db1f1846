-- ===== src/Lib.antt =====
-- nfql: the flow query engine of src/, which filters the records of a flow trace, groups them,
-- filters and merges the groups, and unfolds the matches into streams of records.
--
-- The parts, in the order in which a run passes through them:
--   src/f.c                  Cmdline      `parse_cmdline_args`: the options of the command line
--   src/f.h, f.c             Query, Parse the structures of a query file, and `parse_json_query`,
--                                         which reads its JSON value (Query has the loops and the
--                                         terms, Parse the stages and the query)
--   src/f.c                  Prepare      `prepare_flowquery`: the names of a query are looked up
--   src/pipeline.h           Pipeline     the structures that the stages pass on
--   src/pipeline.h, utils.c  Rule         the rule constants, and `get_enum`, which reads them
--   scripts/generate-functions.py
--                            Comps        the comparison and aggregation functions that the script
--                                         writes, and the switches that choose among them
--   src/f.c                  Filter       `read_trace`: every branch filters each record
--   src/f.c                  Threads      `run_branch_async` and the loop that joins the threads: a
--                                         step relation over the stages of the threads
--   src/branch.c             BranchThread `branch_start`: the grouper and the group filter on one
--                                         branch
--   src/grouper.c            Grouper      `grouper`: a branch's records are sorted and cut into
--                                         groups (Sort, Cook)
--   src/groupfilter.c        Groupfilter  `groupfilter`: the groups of a branch are filtered
--   src/utils.c              Permut       `iter_init`, `iter_next`: all tuples of groups
--   src/merger.c             Merger       `merger`: the tuples that the merger's clauses match
--   src/ungrouper.c          Ungrouper    `ungrouper`: the streams of the matched tuples
--   src/f.c                  Engine       the stages in a row, as `main` composes them
--   src/io-ipfix.c, ipfix-constants.c
--                            Ipfix        the template of an IPFIX record
--   src/io-ipfix.c           IpfixIo      the reader of an IPFIX trace, up to the calls of fixbuf
--   src/io-ft.c              FlowToolsIo  the fields and times of a record of a flow-tools trace
-- Dnf has the loops over clauses and terms that three stages share; Output the options and the
-- files that a stage writes; Io what a stage asks of the reader; Libc the C library's sorting and
-- square root; JsonC the JSON library's accessors; Word the fields in a buffer of bytes.
--
-- A function has its C name. A record is a list of bytes, a field is read at its offset in one of
-- four widths, and arithmetic on uint64_t and size_t is written with its wrap-around. An array with
-- a count is a list. A function pointer is an option, and a call through NULL, errExit and exitOn
-- end the run with a fault; a read outside an array, which C leaves undefined, is one as well. What a
-- function writes through its arguments, or to a global flag, it returns. A file is the list of the records that are written to it; the calls on files themselves
-- are taken to succeed, and so are those that create and join threads.
--
-- A thread takes the stages of `branch_start` one at a time, between any steps of the others. The
-- stages of two threads share no state but the log of what is written: each writes to its own
-- branch and to files that carry its number, and the records and options are only read.
--
-- Two loops run on fuel: `merger_loop`, with one round more than there are tuples of groups, since
-- each round takes one; and `group_records`, with one more than there are records, since each round
-- takes at least one.
--
-- Parameters: the C library (`Libc`, whose sorting functions are taken to order what they are
-- given, and to end if their comparison does), getopt_long, atoi and strtol (`Getopt`), the JSON
-- library (`JsonC`, whose accessors are taken to give back what the tokener has read, and ints of
-- 32 bits), the reader's field offsets, record size and timestamps where a stage asks for them
-- (`IoHandler`), the offsets and the `ftltime` of flow-tools (`FlowTools`), and of fixbuf the
-- length that it gives an information element, whether it accepts the specification of a template,
-- and its answer when the next record is read (`FbufNext`). A C library that meets the condition is
-- in Tests/Sorting, a JSON library in Tests/Trees.
--
-- Not modelled: the opening of the query and of the trace, the reading and writing of records in
-- src/io-ft.c and the writing of them in src/io-ipfix.c, which are calls of flow-tools and fixbuf, the
-- freeing of memory, and what is printed (src/echo.c).
pub mod Prelude
pub mod Word
pub mod Rule
pub mod Pipeline
pub mod Comps
pub mod Dnf
pub mod Permut
pub mod Output
pub mod Merger
pub mod Groupfilter
pub mod Ungrouper
pub mod Filter
pub mod Libc
pub mod Io
pub mod Grouper
pub mod Ipfix
pub mod BranchThread
pub mod Tests
pub mod Query
pub mod Prepare
pub mod JsonC
pub mod Parse
pub mod Cmdline
pub mod Threads
pub mod Engine
pub mod FlowToolsIo
pub mod IpfixIo
