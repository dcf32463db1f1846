-- ===== src/Ipfix/Registered.antt =====
-- What registering elements, one by one, makes of an IPFIX template (src/io-ipfix.c).
use Prim.Native.String.{String}
use text.Mathlib.Text.{◌==◌ as str_eq}
use text.Mathlib.TextPositions.{eq_refl}
use nfql.Prelude.{
  ℕ, ◌+◌, ◌*◌, ◌-◌, ◌^◌, ◌≤◌, ◌<◌, length, ◌≡◌, refl, inl, inr, List, [], ◌∷◌, ◌++◌, All, none,
  some, ok, Bool-cases, Option-cases, arith,
}
use nfql.Ipfix.{
  IpfixIe, IpfixTempl, find_ie, ipfix_templ_get_ie, ipfix_templ_ie_register, get_ipfix_type,
  register_all,
}
use nfql.Ipfix.Layout.{
  IsSize, IsLayout, IsLaidOut, padded_offset_lem, size_le, new_ie, with_ie, register-IsLaidOut,
}
use nfql.Ipfix.Types.{ipfix_ie_type_sizeof}

-- An element behind the others hides none of them.
find_ie-append :
    (ies : List IpfixIe) (last ie : IpfixIe) (name : String)
    → find_ie ies name ≡ some ie
    → find_ie (ies ++ last ∷ []) name ≡ some ie
unfolding find_ie
find_ie-append [] last ie name h = cc
find_ie-append (other ∷ ies) last ie name h = elim (Bool-cases (str_eq name other.name)) [
  | inl same ↦ ground (arith, h, same)
  | inr differs ↦ let ih = find_ie-append ies last ie name in ground (arith, h, differs, ih)
]

-- An element is found at the end if it was not found before.
find_ie-last :
    (ies : List IpfixIe) (last : IpfixIe)
    → find_ie ies last.name ≡ none
    → find_ie (ies ++ last ∷ []) last.name ≡ some last
unfolding find_ie
find_ie-last [] last h = rw (eq_refl last.name) refl
find_ie-last (other ∷ ies) last h = elim (Bool-cases (str_eq last.name other.name)) [
  | inl same ↦ ground (arith, h, same)
  | inr differs ↦ let ih = find_ie-last ies last in ground (arith, h, differs, ih)
]

-- The name is that of an element whose type has a size.
abbrev pub IsSized : String → Type 0
IsSized ie_name = IsSize (ipfix_ie_type_sizeof (get_ipfix_type ie_name))

-- A later template has the elements of an earlier one.
abbrev pub Keeps : IpfixTempl → IpfixTempl → Type 0
Keeps templ templ' =
    (name : String) (ie : IpfixIe)
    → ipfix_templ_get_ie templ name ≡ some ie
    → ipfix_templ_get_ie templ' name ≡ some ie

abbrev pub IsThere : IpfixTempl → String → Type 0
IsThere templ ie_name = (ie : IpfixIe) × (ipfix_templ_get_ie templ ie_name ≡ some ie)

-- What a registration makes of a template: it grows by 31 bytes at most.
record Registered (templ : IpfixTempl) (ie_name : String) : Type 0 where
  after : IpfixTempl
  run : ipfix_templ_ie_register templ ie_name ≡ ok (some after)
  laid : IsLaidOut after
  near : after.next_offset < templ.next_offset + 32
  keeps : Keeps templ after
  found : IsThere after ie_name

ipfix_templ_ie_register_lem :
    (templ : IpfixTempl) (ie_name : String)
    → IsLaidOut templ
    → templ.next_offset < 2 ^ 64 - 64
    → IsSized ie_name
    → Registered templ ie_name
unfolding ipfix_templ_get_ie ipfix_templ_ie_register
ipfix_templ_ie_register_lem templ ie_name laid fits sized =
    elim (Option-cases (ipfix_templ_get_ie templ ie_name)) [
      | inl fresh ↦
          let size = ipfix_ie_type_sizeof (get_ipfix_type ie_name) in
          let padded = padded_offset_lem templ.next_offset size fits sized in
          let made = register-IsLaidOut templ ie_name laid fits fresh sized in
          let ie = new_ie templ ie_name in
          record {
            after = with_ie templ ie_name;
            run = made.0;
            laid = made.1;
            near = omega (arith, padded.near, size_le size sized);
            keeps = λ name other h. find_ie-append templ.arr ie other name h;
            found = (ie, find_ie-last templ.arr ie fresh);
          }
      | inr (ie, e) ↦ record {
        after = templ;
        run = rw (ipfix_templ_ie_register, e) refl;
        laid = laid;
        near = omega arith;
        keeps = λ name other h. h;
        found = (ie, e);
      }
    ]

-- What registrations, one by one, make of a template.
pub record AllRegistered (templ : IpfixTempl) (ie_names : List String) : Type 0 where
  pub after : IpfixTempl
  pub run : register_all templ ie_names ≡ ok (some after)
  pub laid : IsLaidOut after
  pub near : after.next_offset ≤ templ.next_offset + 32 * length ie_names
  pub keeps : Keeps templ after
  pub found : All (IsThere after) ie_names

pub register_all_lem :
    (ie_names : List String) (templ : IpfixTempl)
    → IsLaidOut templ
    → templ.next_offset + 32 * length ie_names < 2 ^ 64 - 64
    → All IsSized ie_names
    → AllRegistered templ ie_names
unfolding register_all
register_all_lem [] templ laid fits sized = record {
  after = templ;
  run = refl;
  laid = laid;
  near = omega arith;
  keeps = λ name other h. h;
  found = tt;
}
register_all_lem (ie_name ∷ ie_names) templ laid fits sized =
    let first = ipfix_templ_ie_register_lem templ ie_name laid (omega (arith, fits)) sized.0 in
    let rest =
      register_all_lem ie_names first.after first.laid (omega (arith, fits, first.near)) sized.1 in
    record {
      after = rest.after;
      run = rw (register_all, first.run, rest.run) refl;
      laid = rest.laid;
      near = omega (arith, first.near, rest.near);
      keeps = λ name ie h. rest.keeps name ie (first.keeps name ie h);
      found = ((first.found.0, rest.keeps ie_name first.found.0 first.found.1), rest.found);
    }

IsLayout-le : (ies : List IpfixIe) (start end : ℕ) → IsLayout start ies end → start ≤ end
IsLayout-le [] start end h = omega (arith, h)
IsLayout-le (ie ∷ ies) start end h =
    omega (arith, h.1, IsLayout-le ies (ie.offset + ie.size) end h.4)

-- An element that is found ends within the template.
pub find_ie-IsLayout :
    (ies : List IpfixIe) (start end : ℕ) (name : String) (ie : IpfixIe)
    → IsLayout start ies end
    → find_ie ies name ≡ some ie
    → (1 ≤ ie.size) × (ie.offset + ie.size ≤ end)
unfolding find_ie
find_ie-IsLayout [] start end name ie h e = cc
find_ie-IsLayout (other ∷ ies) start end name ie h e =
    let rest = find_ie-IsLayout ies (other.offset + other.size) end name ie h.4 in
    let ends = IsLayout-le ies (other.offset + other.size) end h.4 in
    let sized = h.0 in
    elim (Bool-cases (str_eq name other.name)) [
      | inl same ↦ ground (arith, same, e, ends, sized)
      | inr differs ↦ ground (arith, differs, e, rest)
    ]
