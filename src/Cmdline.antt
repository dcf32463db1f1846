-- ===== src/Cmdline.antt =====
-- src/f.c: `parse_cmdline_args`, which sets the global flags of src/base.c from the options that
-- getopt_long finds, and names the query's and the trace's file.
pub mod Contract
use Prim.Native.String.{String}
use nfql.Prelude.{
  ℕ, ◌+◌, ◌-◌, ◌%◌, Bool, true, false, not, ◌||◌, List, [], ◌∷◌, Option, none, some, get_elem?,
  if◌then◌else◌, ◌==◌, ltb,
}
use nfql.Prelude.Ints.{ℤ, pos, negsuc}

-- What getopt_long answers: a short option, or one of the two characters for an error.
pub data Opt : Type 0 where
  zlevel dirpath debug verbose version help ipfix missing_argument unknown : Opt

-- What the function calls of the C library: getopt_long, as the options that it finds in turn, each
-- with what `optarg` points to (NULL for one without an argument); `optind` and the arguments as
-- they are once it answers -1; `atoi`; `strtol`, with whether it sets `errno`.
pub record Getopt : Type 0 where
  pub options : List String → List (Opt × Option String)
  pub optind : List String → ℕ
  pub argv_after : List String → List String
  pub atoi : String → ℤ
  pub strtol : String → ℤ × Bool

-- The global flags, and the local `verbose_level`.
pub record Flags : Type 0 where
  pub debug : Bool
  pub verbose_v : Bool
  pub verbose_vv : Bool
  pub verbose_vvv : Bool
  pub zlevel : ℤ
  pub file : Bool
  pub dirpath : Option String
  pub ipfix_enabled : Bool
  pub verbose_level : ℤ

pub record Parameters : Type 0 where
  pub query_filename : Option String
  pub trace_filename : Option String

-- The function goes on, or the process ends: by `exit` with a status, or by `abort`.
pub data Command {ℓ} (A : Type ℓ) : Type ℓ where
  goes_on : A → Command A
  exits : (success : Bool) → Command A
  aborts : Command A

abbrev pub and_then {ℓ κ} : {A : Type ℓ} {B : Type κ} → Command A → (A → Command B) → Command B
and_then (goes_on a) f = f a
and_then (exits success) f = exits success
and_then aborts f = aborts

-- The flags at the program's start.
abbrev pub initial_flags : Flags
initial_flags = record {
  debug = false;
  verbose_v = false;
  verbose_vv = false;
  verbose_vvv = false;
  zlevel = pos 5;
  file = false;
  dirpath = none;
  ipfix_enabled = false;
  verbose_level = negsuc 0;
}

-- `switch (verbose_level)`: a case falls through to the ones below it.
unfoldable pub set_verbosity : Flags → Command Flags
set_verbosity flags = elim flags.verbose_level [
  | pos level ↦
      if level == 3
      then goes_on (record flags { verbose_vvv = true; verbose_vv = true; verbose_v = true })
      else if level == 2
      then goes_on (record flags { verbose_vv = true; verbose_v = true })
      else if level == 1
      then goes_on (record flags { verbose_v = true })
      else aborts
  | negsuc n ↦ aborts
]

-- The cast `(int8_t)`.
unfoldable pub int8 : ℤ → ℤ
int8 (pos n) = if ltb (n % 256) 128 then pos (n % 256) else negsuc (255 - n % 256)
int8 (negsuc n) = if ltb (n % 256) 128 then negsuc (n % 256) else pos (255 - n % 256)

-- `(zlevel < 0) || (zlevel > 9)`
abbrev pub is_invalid : ℤ → Bool
is_invalid (pos n) = ltb 9 n
is_invalid (negsuc n) = true

module _ (getopt : Getopt) where
  abbrev pub level_of : Option String → ℤ → ℤ
  level_of none level = level
  level_of (some optarg) level = getopt.atoi optarg

  -- `zlevel` is assigned before it is tested.
  unfoldable pub set_zlevel : Option String → Flags → Command Flags
  unfolding int8
  set_zlevel none flags = aborts
  set_zlevel (some optarg) flags =
      let (value, failed) = getopt.strtol optarg in
      if failed || is_invalid (int8 value)
      then aborts
      else goes_on (record flags { zlevel = int8 value })

  -- The body of the loop. `-D` falls through to `-v`.
  unfoldable pub step : Flags → Opt → Option String → Command Flags
  unfolding set_verbosity set_zlevel
  step flags debug optarg =
      set_verbosity (record flags { debug = true; verbose_level = level_of optarg (pos 3) })
  step flags verbose optarg =
      set_verbosity (record flags { verbose_level = level_of optarg flags.verbose_level })
  step flags zlevel optarg = set_zlevel optarg flags
  step flags dirpath optarg = goes_on (record flags { file = true; dirpath = optarg })
  step flags help optarg = exits false
  step flags version optarg = exits true
  step flags ipfix optarg = goes_on (record flags { ipfix_enabled = true })
  step flags missing_argument optarg = exits false
  step flags unknown optarg = exits false

  unfoldable pub run_options : Flags → List (Opt × Option String) → Command Flags
  unfolding step
  run_options flags [] = goes_on flags
  run_options flags ((opt, optarg) ∷ rest) =
      and_then (step flags opt optarg) (λ flags'. run_options flags' rest)

  -- The arguments behind the options; `argc` is the number of all arguments.
  unfoldable pub take_parameters : ℕ → List String → Command Parameters
  take_parameters argc argv =
      if argc == getopt.optind argv + 2
      then goes_on (record {
        query_filename = get_elem? (getopt.argv_after argv) (getopt.optind argv);
        trace_filename = get_elem? (getopt.argv_after argv) (getopt.optind argv + 1);
      })
      else exits false

  unfoldable pub parse_cmdline_args : ℕ → List String → Command (Flags × Parameters)
  unfolding run_options take_parameters
  parse_cmdline_args argc argv =
      and_then (run_options initial_flags (getopt.options argv))
        λ flags. and_then (take_parameters argc argv) λ param. goes_on (flags, param)
