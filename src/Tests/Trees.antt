-- ===== src/Tests/Trees.antt =====
-- A JSON library that meets what the theorems ask of one: values are trees.
use Prim.Native.String.{String}
use text.Mathlib.Text.{◌==◌ as str_eq}
use nfql.Prelude.{
  ℕ, zero, suc, ◌-◌, ◌^◌, ◌≡◌, refl, ap, List, [], ◌∷◌, Option, none, some, Outcome, ok, abort,
  null_pointer, if◌then◌else◌, length, get_elem?, ltb, arith,
}
use nfql.Prelude.Ints.{ℤ, pos, negsuc}
use nfql.JsonC.{JsonC, IsJsonC, IsInt, find_member}

mutual
  pub data Tree : Type 0 where
    int : ℤ → Tree
    string : String → Tree
    object : Members → Tree
    array : Items → Tree

  pub data Members : Type 0 where
    no_members : Members
    member : String → Tree → Members → Members

  pub data Items : Type 0 where
    no_items : Items
    item : Tree → Items → Items

abbrev to_members : List (String × Tree) → Members
to_members [] = no_members
to_members ((name, value) ∷ members) = member name value (to_members members)

abbrev to_items : List Tree → Items
to_items [] = no_items
to_items (value ∷ items) = item value (to_items items)

abbrev find : String → Members → Option Tree
find key no_members = none
find key (member name value members) = elim (find key members) [
  | none ↦ if str_eq key name then some value else none
  | some later ↦ some later
]

abbrev item_at : Items → ℕ → Option Tree
item_at no_items i = none
item_at (item value items) zero = some value
item_at (item value items) (suc i) = item_at items i

abbrev count : Items → ℕ
count no_items = 0
count (item value items) = suc (count items)

-- The nearest int of 32 bits.
abbrev clamp : ℤ → ℤ
clamp (pos n) = if ltb n (2 ^ 31) then pos n else pos (2 ^ 31 - 1)
clamp (negsuc n) = if ltb n (2 ^ 31) then negsuc n else negsuc (2 ^ 31 - 1)

abbrev get : Option Tree → String → Option Tree
get (some (object members)) key = find key members
get _ key = none

abbrev array_length : Option Tree → Outcome ℕ
array_length (some (array items)) = ok (count items)
array_length _ = abort null_pointer

abbrev get_idx : Option Tree → ℕ → Option Tree
get_idx (some (array items)) i = item_at items i
get_idx _ i = none

abbrev get_int : Option Tree → ℤ
get_int (some (int z)) = clamp z
get_int _ = pos 0

abbrev get_string : Option Tree → Option String
get_string (some (string s)) = some s
get_string _ = none

abbrev pub trees : JsonC Tree
trees = record {
  object = λ members. object (to_members members);
  array = λ items. array (to_items items);
  int = int;
  string = string;
  object_object_get = get;
  object_array_length = array_length;
  object_array_get_idx = get_idx;
  object_get_int = get_int;
  object_get_string = get_string;
}

find_lem :
    (members : List (String × Tree)) (key : String)
    → find key (to_members members) ≡ find_member key members
find_lem [] key = refl
find_lem ((name, value) ∷ members) key = rw (find_lem members key) refl

count_lem : (items : List Tree) → count (to_items items) ≡ length items
count_lem [] = refl
count_lem (value ∷ items) = ap suc (count_lem items)

item_at_lem : (items : List Tree) (i : ℕ) → item_at (to_items items) i ≡ get_elem? items i
item_at_lem [] i = refl
item_at_lem (value ∷ items) zero = refl
item_at_lem (value ∷ items) (suc i) = item_at_lem items i

clamp_lem : (z : ℤ) → IsInt z → clamp z ≡ z
clamp_lem (pos n) h = ground arith
clamp_lem (negsuc n) h = ground arith

clamp-IsInt : (z : ℤ) → IsInt (clamp z)
clamp-IsInt (pos n) = ground arith
clamp-IsInt (negsuc n) = ground arith

get_int-IsInt : (json : Option Tree) → IsInt (get_int json)
get_int-IsInt none = omega arith
get_int-IsInt (some (int z)) = clamp-IsInt z
get_int-IsInt (some (string s)) = omega arith
get_int-IsInt (some (object m)) = omega arith
get_int-IsInt (some (array i)) = omega arith

pub trees-IsJsonC : IsJsonC Tree trees
trees-IsJsonC = record {
  get_object = find_lem;
  length_array = λ items. ap ok (count_lem items);
  idx_array = item_at_lem;
  get_int = clamp_lem;
  get_string = λ s. refl;
  int_range = get_int-IsInt;
}
