-- ===== src/Ipfix/Layout.antt =====
-- The layout of an IPFIX template (src/io-ipfix.c): aligned elements, none over another, with no
-- more padding than alignment asks for.
use Prim.Native.String.{String}
use nfql.Prelude.{
  ℕ, ◌+◌, ◌-◌, ◌%◌, ◌^◌, ◌≤◌, ◌<◌, ◌≡◌, refl, ◌⊎◌, inl, inr, List, [], ◌∷◌, ◌++◌, none, some, false,
  arith, ok,
}
use nfql.Ipfix.Types.{IeType, unknown, ipfix_ie_type_sizeof, no_size}
use nfql.Ipfix.{
  IpfixIe, IpfixTempl, padded_offset, add_ie, register_type, get_ipfix_type, ipfix_templ_get_ie,
  ipfix_templ_ie_register, is_unknown, ipfix_templ_get_rec_size,
}

-- The sizes of the types that have one.
abbrev pub IsSize : ℕ → Type 0
IsSize n = (n ≡ 1) ⊎ (n ≡ 2) ⊎ (n ≡ 4) ⊎ (n ≡ 6) ⊎ (n ≡ 8) ⊎ (n ≡ 16)

-- From `start` on, each element lies behind the one before it, at a multiple of its size, with
-- less padding than its size; and the last ends at `end`.
abbrev pub IsLayout : ℕ → List IpfixIe → ℕ → Type 0
IsLayout start [] end = start ≡ end
IsLayout start (ie ∷ ies) end =
    IsSize ie.size
    × (start ≤ ie.offset)
    × (ie.offset < start + ie.size)
    × (ie.offset % ie.size ≡ 0)
    × IsLayout (ie.offset + ie.size) ies end

abbrev pub IsLaidOut : IpfixTempl → Type 0
IsLaidOut templ = IsLayout 0 templ.arr templ.next_offset

IsLayout-snoc :
    (ies : List IpfixIe) (ie : IpfixIe) (start end : ℕ)
    → IsLayout start ies end
    → IsSize ie.size
    → end ≤ ie.offset
    → ie.offset < end + ie.size
    → ie.offset % ie.size ≡ 0
    → IsLayout start (ies ++ ie ∷ []) (ie.offset + ie.size)
IsLayout-snoc [] ie start end h size lo hi aligned =
    (size, omega (arith, h, lo), omega (arith, h, hi), aligned, refl)
IsLayout-snoc (other ∷ ies) ie start end h size lo hi aligned = (
  h.0,
  h.1,
  h.2,
  h.3,
  IsLayout-snoc ies ie (other.offset + other.size) end h.4 size lo hi aligned,
)

-- The padded offset is the next multiple of the size.
pub record Padded (next_offset size : ℕ) : Type 0 where
  pub not_before : next_offset ≤ padded_offset next_offset size
  pub near : padded_offset next_offset size < next_offset + size
  pub aligned : padded_offset next_offset size % size ≡ 0

pub padded_offset_lem :
    (next_offset size : ℕ) → next_offset < 2 ^ 64 - 64 → IsSize size → Padded next_offset size
unfolding padded_offset
padded_offset_lem next_offset size fits h = elim h [
  | inl e ↦ rw e (record { not_before = ground arith; near = ground arith; aligned = ground arith })
  | inr (inl e) ↦
      rw e (record { not_before = ground arith; near = ground arith; aligned = ground arith })
  | inr (inr (inl e)) ↦
      rw e (record { not_before = ground arith; near = ground arith; aligned = ground arith })
  | inr (inr (inr (inl e))) ↦
      rw e (record { not_before = ground arith; near = ground arith; aligned = ground arith })
  | inr (inr (inr (inr (inl e)))) ↦
      rw e (record { not_before = ground arith; near = ground arith; aligned = ground arith })
  | inr (inr (inr (inr (inr e)))) ↦
      rw e (record { not_before = ground arith; near = ground arith; aligned = ground arith })
]

no_size-IsSize : ¬ IsSize no_size
no_size-IsSize h = ground (arith, h)

sized_known :
    (ie_type : IeType) → IsSize (ipfix_ie_type_sizeof ie_type) → is_unknown ie_type ≡ false
unfolding ipfix_ie_type_sizeof
sized_known unknown h = absurd (no_size-IsSize h)
sized_known ie_type h = refl

pub size_le : (n : ℕ) → IsSize n → n ≤ 16
size_le n h = ground (arith, h)

-- The element that the registration adds.
abbrev pub new_ie : IpfixTempl → String → IpfixIe
new_ie templ ie_name =
    let ie_type = get_ipfix_type ie_name in
    let size = ipfix_ie_type_sizeof ie_type in
    record {
      name = ie_name;
      offset = padded_offset templ.next_offset size;
      size = size;
      type = ie_type;
    }

-- What a registration of a new element with a size makes of a template.
abbrev pub with_ie : IpfixTempl → String → IpfixTempl
with_ie templ ie_name = record {
  arr = templ.arr ++ new_ie templ ie_name ∷ [];
  next_offset = (new_ie templ ie_name).offset + (new_ie templ ie_name).size;
}

-- The registration of a new element whose type has a size succeeds, without the assertion's
-- failing, as long as the template is far from the end of size_t: the element stands at the end of
-- the template, and a template that was laid out stays so.
pub register-IsLaidOut :
    (templ : IpfixTempl) (ie_name : String)
    → IsLaidOut templ
    → templ.next_offset < 2 ^ 64 - 64
    → ipfix_templ_get_ie templ ie_name ≡ none
    → IsSize (ipfix_ie_type_sizeof (get_ipfix_type ie_name))
    → (ipfix_templ_ie_register templ ie_name ≡ ok (some (with_ie templ ie_name)))
      × IsLaidOut (with_ie templ ie_name)
unfolding ipfix_templ_ie_register register_type add_ie
register-IsLaidOut templ ie_name laid fits fresh sized =
    let ie_type = get_ipfix_type ie_name in
    let size = ipfix_ie_type_sizeof ie_type in
    let padded = padded_offset_lem templ.next_offset size fits sized in
    let small_sum : (padded_offset templ.next_offset size + size) % 2 ^ 64
        ≡ padded_offset templ.next_offset size + size =
      omega (arith, padded.near, size_le size sized, fits) in
    (
      rw
          (
            ipfix_templ_ie_register,
            fresh,
            register_type,
            sized_known ie_type sized,
            add_ie,
            padded.aligned,
            small_sum,
          )
          refl,
      IsLayout-snoc templ.arr (new_ie templ ie_name) 0 templ.next_offset laid sized
          padded.not_before padded.near padded.aligned,
    )

-- The record size is the least multiple of 8 that holds the template.
pub rec_size_lem :
    (templ : IpfixTempl)
    → templ.next_offset < 2 ^ 64 - 64
    → (ipfix_templ_get_rec_size templ % 8 ≡ 0)
      × (templ.next_offset ≤ ipfix_templ_get_rec_size templ)
      × (ipfix_templ_get_rec_size templ < templ.next_offset + 8)
unfolding ipfix_templ_get_rec_size
rec_size_lem templ fits = (omega arith, omega arith, omega arith)
