-- ===== src/Rule.antt =====
-- src/pipeline.h: the enumeration of rule constants, whose sums are the labels of the dispatch
-- switches. src/utils.c: `get_enum`, which turns a constant's name in a query into its value.
pub mod Enum
use Prim.Native.String.{String}
use text.Mathlib.Text.{◌==◌ as str_eq}
use nfql.Prelude.{ℕ, ◌-◌, List, [], ◌∷◌, if◌then◌else◌}
use nfql.Word.{u64_mod}

abbrev pub rule_s2_8 : ℕ
rule_s2_8 = 0

abbrev pub rule_s2_16 : ℕ
rule_s2_16 = 1

abbrev pub rule_s2_32 : ℕ
rule_s2_32 = 2

abbrev pub rule_s2_64 : ℕ
rule_s2_64 = 3

abbrev pub rule_s1_8 : ℕ
rule_s1_8 = 0

abbrev pub rule_s1_16 : ℕ
rule_s1_16 = 4

abbrev pub rule_s1_32 : ℕ
rule_s1_32 = 8

abbrev pub rule_s1_64 : ℕ
rule_s1_64 = 12

abbrev pub rule_abs : ℕ
rule_abs = 0

abbrev pub rule_rel : ℕ
rule_rel = 16

abbrev pub rule_no : ℕ
rule_no = 32

abbrev pub rule_eq : ℕ
rule_eq = 0

abbrev pub rule_ne : ℕ
rule_ne = 64

abbrev pub rule_gt : ℕ
rule_gt = 128

abbrev pub rule_lt : ℕ
rule_lt = 192

abbrev pub rule_le : ℕ
rule_le = 256

abbrev pub rule_ge : ℕ
rule_ge = 320

abbrev pub rule_static : ℕ
rule_static = 512

abbrev pub rule_count : ℕ
rule_count = 1024

abbrev pub rule_union : ℕ
rule_union = 2048

abbrev pub rule_min : ℕ
rule_min = 4096

abbrev pub rule_max : ℕ
rule_max = 8192

abbrev pub rule_median : ℕ
rule_median = 16384

abbrev pub rule_mean : ℕ
rule_mean = 32768

abbrev pub rule_stddev : ℕ
rule_stddev = 65536

abbrev pub rule_xor : ℕ
rule_xor = 131072

abbrev pub rule_sum : ℕ
rule_sum = 262144

abbrev pub rule_prod : ℕ
rule_prod = 524288

abbrev pub rule_and : ℕ
rule_and = 1048576

abbrev pub rule_or : ℕ
rule_or = 2097152

abbrev pub rule_in : ℕ
rule_in = 4194304

abbrev pub rule_allen_bf : ℕ
rule_allen_bf = 8388608

abbrev pub rule_allen_af : ℕ
rule_allen_af = 16777216

abbrev pub rule_allen_m : ℕ
rule_allen_m = 33554432

abbrev pub rule_allen_mi : ℕ
rule_allen_mi = 67108864

abbrev pub rule_allen_o : ℕ
rule_allen_o = 134217728

abbrev pub rule_allen_oi : ℕ
rule_allen_oi = 268435456

abbrev pub rule_allen_s : ℕ
rule_allen_s = 536870912

abbrev pub rule_allen_si : ℕ
rule_allen_si = 1073741824

abbrev pub rule_allen_d : ℕ
rule_allen_d = 2147483648

abbrev pub rule_allen_di : ℕ
rule_allen_di = 4294967296

abbrev pub rule_allen_f : ℕ
rule_allen_f = 8589934592

abbrev pub rule_allen_fi : ℕ
rule_allen_fi = 17179869184

abbrev pub rule_allen_eq : ℕ
rule_allen_eq = 34359738368

-- The names in the order in which `get_enum` compares them.
abbrev pub rule_names : List (String × ℕ)
rule_names =
    ("RULE_S2_8", rule_s2_8)
    ∷ ("RULE_S2_16", rule_s2_16)
    ∷ ("RULE_S2_32", rule_s2_32)
    ∷ ("RULE_S2_64", rule_s2_64)
    ∷ ("RULE_S1_8", rule_s1_8)
    ∷ ("RULE_S1_16", rule_s1_16)
    ∷ ("RULE_S1_32", rule_s1_32)
    ∷ ("RULE_S1_64", rule_s1_64)
    ∷ ("RULE_ABS", rule_abs)
    ∷ ("RULE_REL", rule_rel)
    ∷ ("RULE_NO", rule_no)
    ∷ ("RULE_EQ", rule_eq)
    ∷ ("RULE_NE", rule_ne)
    ∷ ("RULE_GT", rule_gt)
    ∷ ("RULE_LT", rule_lt)
    ∷ ("RULE_LE", rule_le)
    ∷ ("RULE_GE", rule_ge)
    ∷ ("RULE_STATIC", rule_static)
    ∷ ("RULE_COUNT", rule_count)
    ∷ ("RULE_UNION", rule_union)
    ∷ ("RULE_MIN", rule_min)
    ∷ ("RULE_MAX", rule_max)
    ∷ ("RULE_MEDIAN", rule_median)
    ∷ ("RULE_MEAN", rule_mean)
    ∷ ("RULE_STDDEV", rule_stddev)
    ∷ ("RULE_XOR", rule_xor)
    ∷ ("RULE_SUM", rule_sum)
    ∷ ("RULE_PROD", rule_prod)
    ∷ ("RULE_AND", rule_and)
    ∷ ("RULE_OR", rule_or)
    ∷ ("RULE_IN", rule_in)
    ∷ ("RULE_ALLEN_BF", rule_allen_bf)
    ∷ ("RULE_ALLEN_AF", rule_allen_af)
    ∷ ("RULE_ALLEN_M", rule_allen_m)
    ∷ ("RULE_ALLEN_MI", rule_allen_mi)
    ∷ ("RULE_ALLEN_O", rule_allen_o)
    ∷ ("RULE_ALLEN_OI", rule_allen_oi)
    ∷ ("RULE_ALLEN_S", rule_allen_s)
    ∷ ("RULE_ALLEN_SI", rule_allen_si)
    ∷ ("RULE_ALLEN_D", rule_allen_d)
    ∷ ("RULE_ALLEN_DI", rule_allen_di)
    ∷ ("RULE_ALLEN_F", rule_allen_f)
    ∷ ("RULE_ALLEN_FI", rule_allen_fi)
    ∷ ("RULE_ALLEN_EQ", rule_allen_eq)
    ∷ []

-- `return -1` as a uint64_t.
abbrev pub no_enum : ℕ
no_enum = u64_mod - 1

unfoldable pub find_name : String → List (String × ℕ) → ℕ
find_name name [] = no_enum
find_name name ((key, value) ∷ names) = if str_eq name key then value else find_name name names

unfoldable pub get_enum : String → ℕ
unfolding find_name
get_enum name = find_name name rule_names
