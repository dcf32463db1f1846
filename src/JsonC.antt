-- ===== src/JsonC.antt =====
-- The JSON library that src/f.c reads a query with (json-c): a parameter of the definitions that
-- use it. A record of its accessors, and the documented behaviour that the theorems rely on.
use Prim.Native.String.{String}
use text.Mathlib.Text.{◌==◌ as str_eq}
use nfql.Prelude.{
  ℕ, ◌<◌, ◌^◌, ◌≡◌, List, [], ◌∷◌, Option, none, some, Outcome, ok, if◌then◌else◌, length,
  get_elem?,
}
use nfql.Prelude.Ints.{ℤ, pos, negsuc}

-- `J` is what a pointer that is not NULL points to. `object`, `array`, `int` and `string` are the
-- values that the tokener makes of the texts of these kinds.
pub record JsonC (J : Type 0) : Type 0 where
  pub object : List (String × J) → J
  pub array : List J → J
  pub int : ℤ → J
  pub string : String → J
  pub object_object_get : Option J → String → Option J
  pub object_array_length : Option J → Outcome ℕ
  pub object_array_get_idx : Option J → ℕ → Option J
  pub object_get_int : Option J → ℤ
  pub object_get_string : Option J → Option String

-- The last member of that name: a later one replaces it.
abbrev pub find_member {ℓ} : {A : Type ℓ} → String → List (String × A) → Option A
find_member key [] = none
find_member key ((name, value) ∷ members) = elim (find_member key members) [
  | none ↦ if str_eq key name then some value else none
  | some later ↦ some later
]

-- The values of an int of 32 bits.
abbrev pub IsInt : ℤ → Type 0
IsInt (pos n) = n < 2 ^ 31
IsInt (negsuc n) = n < 2 ^ 31

pub record IsJsonC (J : Type 0) (c : JsonC J) : Type 0 where
  pub get_object :
      (members : List (String × J)) (key : String)
      → c.object_object_get (some (c.object members)) key ≡ find_member key members
  pub length_array :
      (items : List J) → c.object_array_length (some (c.array items)) ≡ ok (length items)
  pub idx_array :
      (items : List J) (i : ℕ) → c.object_array_get_idx (some (c.array items)) i ≡ get_elem? items i
  pub get_int : (z : ℤ) → IsInt z → c.object_get_int (some (c.int z)) ≡ z
  pub get_string : (s : String) → c.object_get_string (some (c.string s)) ≡ some s
  pub int_range : (json : Option J) → IsInt (c.object_get_int json)
