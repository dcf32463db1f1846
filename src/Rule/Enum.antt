-- ===== src/Rule/Enum.antt =====
-- What `get_enum` of src/utils.c answers.
use Prim.Native.String.{String}
use text.Mathlib.Text.{◌==◌ as str_eq}
use text.Mathlib.TextEquality.{eq_iff}
use nfql.Prelude.{
  ℕ, ◌≤◌, ◌≡◌, ◌≢◌, map, false, refl, ◌⊎◌, inl, inr, List, [], ◌∷◌, true, any, All, arith,
  Bool-cases,
}
use nfql.Rule.{rule_names, rule_allen_eq, no_enum, find_name, get_enum}

-- The name is one of the listed ones.
abbrev pub IsListed : String → List (String × ℕ) → Type 0
IsListed name names = any (λ rule. str_eq name (rule.0)) names ≡ true

str_eq-false : (s t : String) → str_eq s t ≡ false → s ≢ t
str_eq-false s t other e = let same = (eq_iff s t).1 e in cc

find_name_bound :
    (name : String) (names : List (String × ℕ)) (bound : ℕ)
    → All (λ rule. rule.1 ≤ bound) names
    → IsListed name names × (find_name name names ≤ bound)
      ⊎ (¬ IsListed name names) × (find_name name names ≡ no_enum)
unfolding find_name
find_name_bound name [] bound h = inr ((λ e. cc), ground arith)
find_name_bound name ((key, value) ∷ names) bound h = elim (Bool-cases (str_eq name key)) [
  | inl same ↦ inl (ground arith, rw same h.0)
  | inr other ↦ rw other (find_name_bound name names bound h.1)
]

-- A table of the names of some keys, with a value for each: a name of a key gives that key's value,
-- and any other gives -1.
pub find_name-map :
    {K : Type 0} (name_of : K → String) (value : K → ℕ) (name : String) (keys : List K)
    → let answer = find_name name (map (λ key. (name_of key, value key)) keys) in
      ((key : K) × (name ≡ name_of key) × (answer ≡ value key))
      ⊎ (All (λ key. name ≢ name_of key) keys × (answer ≡ no_enum))
unfolding find_name
find_name-map name_of value name [] = inr (tt, ground arith)
find_name-map name_of value name (key ∷ keys) = elim (Bool-cases (str_eq name (name_of key))) [
  | inl same ↦ inl (key, (eq_iff name (name_of key)).0 same, rw same refl)
  | inr other ↦ elim (find_name-map name_of value name keys) [
    | inl (found, e, answer) ↦ inl (found, e, rw other answer)
    | inr (none_found, answer) ↦
        inr ((str_eq-false name (name_of key) other, none_found), rw other answer)
  ]
]

-- `get_enum` answers -1 exactly for the names that are no rule constant: a name of a constant
-- gives a value of at most RULE_ALLEN_EQ, which is below -1 as a uint64_t, and any other gives -1.
pub get_enum_bound :
    (name : String)
    → IsListed name rule_names × (get_enum name ≤ rule_allen_eq)
      ⊎ (¬ IsListed name rule_names) × (get_enum name ≡ no_enum)
unfolding get_enum
get_enum_bound name = find_name_bound name rule_names rule_allen_eq (omega arith)
