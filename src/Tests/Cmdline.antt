-- ===== src/Tests/Cmdline.antt =====
-- The theorems on the command line, at sample arguments.
use Prim.Native.String.{String}
use text.Mathlib.Text.{◌==◌ as str_eq}
use nfql.Prelude.{◌≡◌, refl, ◌⊎◌, ◌≤◌, ◌<◌, ◌%◌, List, [], ◌∷◌, some, true, false, if◌then◌else◌}
use nfql.Prelude.Ints.{pos}
use nfql.Cmdline.{
  zlevel, verbose, dirpath, Getopt, Flags, Parameters, goes_on, aborts, initial_flags, step,
  parse_cmdline_args,
}
use nfql.Cmdline.Contract.{AreFlags, highest, parse_cmdline_args-AreFlags, step-zlevel}

-- `f -v 2 --dirpath out -z 256 query trace`
abbrev argv : List String
argv = "f" ∷ "-v" ∷ "2" ∷ "--dirpath" ∷ "out" ∷ "-z" ∷ "256" ∷ "query" ∷ "trace" ∷ []

abbrev sample_getopt : Getopt
sample_getopt = record {
  options = λ args. (verbose, some "2") ∷ (dirpath, some "out") ∷ (zlevel, some "256") ∷ [];
  optind = λ args. 7;
  argv_after = λ args. args;
  atoi = λ text. if str_eq text "2" then pos 2 else pos 0;
  strtol = λ text. (if str_eq text "256" then pos 256 else pos 0, false);
}

abbrev sample_flags : Flags
sample_flags = record initial_flags {
  verbose_v = true;
  verbose_vv = true;
  zlevel = pos 0;
  file = true;
  dirpath = some "out";
  verbose_level = pos 2;
}

abbrev sample_parameters : Parameters
sample_parameters = record { query_filename = some "query"; trace_filename = some "trace" }

sample_run : parse_cmdline_args sample_getopt 9 argv ≡ goes_on (sample_flags, sample_parameters)
unfolding parse_cmdline_args
sample_run = refl

parse_cmdline_args-AreFlags_example :
    AreFlags (highest sample_getopt (sample_getopt.options argv)) sample_flags
parse_cmdline_args-AreFlags_example =
    parse_cmdline_args-AreFlags sample_getopt 9 argv sample_flags sample_parameters
      (tt, (tt, (tt, tt))) sample_run

step-zlevel_example :
    (256 % 256 ≤ 9)
      × (step sample_getopt initial_flags zlevel (some "256")
          ≡ goes_on (record initial_flags { zlevel = pos 0 }))
    ⊎ (9 < 256 % 256) × (step sample_getopt initial_flags zlevel (some "256") ≡ aborts)
step-zlevel_example = step-zlevel sample_getopt initial_flags "256" 256 refl
