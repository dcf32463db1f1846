-- ===== src/Cmdline/Contract.antt =====
-- What `parse_cmdline_args` of src/f.c makes of the options.
use Prim.Native.String.{String}
use nfql.Prelude.{
  ℕ, ◌≤◌, ◌<◌, ◌%◌, ◌≡◌, refl, subst, ◌⊎◌, inl, Bool, true, false, List, [], ◌∷◌, Option, none,
  some, arith, if◌then◌else◌, leb, All,
}
use nfql.Prelude.Ints.{ℤ, pos, negsuc}
use nfql.Cmdline.{
  Opt, zlevel, dirpath, debug, verbose, version, help, ipfix, missing_argument, unknown, Getopt,
  Flags, Parameters, Command, goes_on, exits, aborts, initial_flags, set_verbosity, int8,
  set_zlevel, step, run_options, and_then, take_parameters, parse_cmdline_args,
}

abbrev pub max : ℕ → ℕ → ℕ
max m n = if leb m n then n else m

-- The flags of a verbosity level: those of its own and of the lower levels. The compression level
-- is one of zlib's, and the results' directory is named if files are to be written.
pub record AreFlags (level : ℕ) (flags : Flags) : Type 0 where
  pub v : flags.verbose_v ≡ leb 1 level
  pub vv : flags.verbose_vv ≡ leb 2 level
  pub vvv : flags.verbose_vvv ≡ leb 3 level
  pub compression : (n : ℕ) × (flags.zlevel ≡ pos n) × (n ≤ 9)
  pub directory : (flags.file ≡ false) ⊎ ((dir : String) × (flags.dirpath ≡ some dir))

-- What holds of the flags, if the function goes on.
abbrev pub Goes {ℓ} : {A : Type ℓ} → (A → Type 0) → Command A → Type 0
Goes P (goes_on a) = P a
Goes P _ = Unit

Goes-and_then {ℓ κ} :
    {A : Type ℓ} {B : Type κ} (P : A → Type 0) (Q : B → Type 0) (m : Command A) (f : A → Command B)
    → Goes P m
    → ((a : A) → P a → Goes Q (f a))
    → Goes Q (and_then m f)
Goes-and_then P Q (goes_on a) f h g = g a h
Goes-and_then P Q (exits success) f h g = tt
Goes-and_then P Q aborts f h g = tt

anything : {A : Type 0} (m : Command A) → Goes (λ _. Unit) m
anything (goes_on a) = tt
anything (exits success) = tt
anything aborts = tt

-- getopt_long gives an argument to the options that require one, and to no other.
abbrev pub IsArgument : Opt → Option String → Type 0
IsArgument debug (some optarg) = ⊥
IsArgument verbose none = ⊥
IsArgument zlevel none = ⊥
IsArgument dirpath none = ⊥
IsArgument _ _ = Unit

still :
    (level : ℕ) (flags : Flags) (debug' : Bool) (verbose_level : ℤ)
    → AreFlags level flags
    → AreFlags level (record flags { debug = debug'; verbose_level = verbose_level })
still level flags debug' verbose_level h = record {
  v = h.v;
  vv = h.vv;
  vvv = h.vvv;
  compression = h.compression;
  directory = h.directory;
}

abbrev pub level_number : ℤ → ℕ
level_number (pos n) = n
level_number (negsuc n) = 0

module _ (getopt : Getopt) where
  -- The verbosity level that an option asks for.
  abbrev pub requested : Opt → Option String → ℕ
  requested debug optarg = 3
  requested verbose (some optarg) = level_number (getopt.atoi optarg)
  requested _ _ = 0

  abbrev pub highest : List (Opt × Option String) → ℕ
  highest [] = 0
  highest ((opt, optarg) ∷ rest) = max (requested opt optarg) (highest rest)

  set_verbosity-AreFlags :
      (level : ℕ) (flags : Flags)
      → AreFlags level flags
      → Goes (AreFlags (max (level_number flags.verbose_level) level)) (set_verbosity flags)
  unfolding set_verbosity
  set_verbosity-AreFlags level flags h = ground arith

  step-AreFlags :
      (level : ℕ) (flags : Flags) (opt : Opt) (optarg : Option String)
      → IsArgument opt optarg
      → AreFlags level flags
      → Goes (AreFlags (max (requested opt optarg) level)) (step getopt flags opt optarg)
  unfolding step
  step-AreFlags level flags debug none a h =
      set_verbosity-AreFlags level (record flags { debug = true; verbose_level = pos 3 })
        (still level flags true (pos 3) h)
  step-AreFlags level flags debug (some optarg) a h = elim a [ ]
  step-AreFlags level flags verbose (some optarg) a h =
      set_verbosity-AreFlags level (record flags { verbose_level = getopt.atoi optarg })
        (still level flags flags.debug (getopt.atoi optarg) h)
  step-AreFlags level flags verbose none a h = elim a [ ]
  step-AreFlags level flags zlevel (some optarg) a h = ground arith
  step-AreFlags level flags zlevel none a h = elim a [ ]
  step-AreFlags level flags dirpath none a h = elim a [ ]
  step-AreFlags level flags dirpath (some optarg) a h = ground arith
  step-AreFlags level flags help optarg a h = tt
  step-AreFlags level flags version optarg a h = tt
  step-AreFlags level flags ipfix optarg a h = ground arith
  step-AreFlags level flags missing_argument optarg a h = tt
  step-AreFlags level flags unknown optarg a h = tt

  max_zero : (n : ℕ) → n ≡ max 0 n
  max_zero n = ground arith

  max_zero_right : (n : ℕ) → max n 0 ≡ n
  max_zero_right n = ground arith

  max_lem : (a b c : ℕ) → max b (max a c) ≡ max (max a b) c
  max_lem a b c = ground arith

  run_options-AreFlags :
      (level : ℕ) (flags : Flags) (options : List (Opt × Option String))
      → All (λ option. IsArgument option.0 option.1) options
      → AreFlags level flags
      → Goes (AreFlags (max (highest options) level)) (run_options getopt flags options)
  unfolding run_options
  run_options-AreFlags level flags [] a h = subst (λ l. AreFlags l flags) (max_zero level) h
  run_options-AreFlags level flags ((opt, optarg) ∷ rest) (a, as') h =
      Goes-and_then _ _ (step getopt flags opt optarg) (λ flags'. run_options getopt flags' rest)
        (step-AreFlags level flags opt optarg a h)
        (λ flags' one.
          subst (λ l. Goes (AreFlags l) (run_options getopt flags' rest))
            (max_lem (requested opt optarg) (highest rest) level)
            (run_options-AreFlags (max (requested opt optarg) level) flags' rest as' one))

  -- If the function goes on, the parsed flags are those of the highest verbosity level that an option asks for, where
  -- `--debug` asks for 3. The compression level is one from 0 to 9, and if results are to be
  -- written, the directory for them is given. getopt_long gives an argument to the options that
  -- require one, and to no other.
  pub parse_cmdline_args-AreFlags :
      (argc : ℕ) (argv : List String) (flags : Flags) (params : Parameters)
      → All (λ option. IsArgument option.0 option.1) (getopt.options argv)
      → parse_cmdline_args getopt argc argv ≡ goes_on (flags, params)
      → AreFlags (highest (getopt.options argv)) flags
  unfolding parse_cmdline_args
  parse_cmdline_args-AreFlags argc argv flags params a e =
      subst
        (Goes {A = Flags × Parameters} (λ read. AreFlags (highest (getopt.options argv)) read.0)) e
        (Goes-and_then _ _ (run_options getopt initial_flags (getopt.options argv)) _
          (run_options-AreFlags 0 initial_flags (getopt.options argv) a at_start)
          (λ flags' h.
            Goes-and_then (λ _. Unit) _ (take_parameters getopt argc argv) _ (anything _)
              (λ param _. subst (λ l. AreFlags l flags') (max_zero_right _) h)))
    where
      at_start : AreFlags 0 initial_flags
      at_start = record {
        v = refl;
        vv = refl;
        vvv = refl;
        compression = (5, refl, omega arith);
        directory = inl refl;
      }

  -- A compression level that is a number of 0 or more is cut to its low byte before its test: it is
  -- accepted, as that byte, if the byte is from 0 to 9, whatever the number, and aborts otherwise.
  pub step-zlevel :
      (flags : Flags) (optarg : String) (n : ℕ)
      → getopt.strtol optarg ≡ (pos n, false)
      → (n % 256 ≤ 9)
          × (step getopt flags zlevel (some optarg)
              ≡ goes_on (record flags { zlevel = pos (n % 256) }))
        ⊎ (9 < n % 256) × (step getopt flags zlevel (some optarg) ≡ aborts)
  unfolding step set_zlevel int8
  step-zlevel flags optarg n e = rw e (ground arith)
