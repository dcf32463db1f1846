-- ===== src/Ipfix.antt =====
-- src/io-ipfix.c: the template that gives each information element its place in a record.
pub mod Types
pub mod Elements
pub mod MoreElements
pub mod Layout
pub mod Specs
pub mod Registered
use Prim.Native.String.{String}
use text.Mathlib.Text.{◌==◌ as str_eq}
use nfql.Prelude.{
  ℕ, zero, ◌+◌, ◌-◌, ◌*◌, ◌/◌, ◌%◌, ◌^◌, List, [], ◌∷◌, ◌++◌, Option, none, some, ◌==◌, ltb, Bool,
  ◌&&◌, Outcome, ok, abort, err_exit, ◌>>=◌, true, false, if◌then◌else◌,
}
use nfql.Ipfix.Types.{IeType, unknown, ipfix_ie_type_sizeof}
use nfql.Ipfix.Elements.{first_elements, second_elements, third_elements, fourth_elements}
use nfql.Ipfix.MoreElements.{fifth_elements, sixth_elements, seventh_elements}

unfoldable pub find_type : String → List (String × IeType) → IeType
find_type ie_name [] = unknown
find_type ie_name ((name, type) ∷ elements) =
    if str_eq ie_name name then type else find_type ie_name elements

unfoldable pub get_ipfix_type : String → IeType
unfolding find_type
get_ipfix_type ie_name = find_type ie_name (
    first_elements ++ second_elements ++ third_elements ++ fourth_elements ++ fifth_elements
    ++ sixth_elements ++ seventh_elements)

pub record IpfixIe : Type 0 where
  pub name : String
  pub offset : ℕ
  pub size : ℕ
  pub type : IeType

pub record IpfixTempl : Type 0 where
  pub arr : List IpfixIe
  pub next_offset : ℕ

unfoldable pub find_ie : List IpfixIe → String → Option IpfixIe
find_ie [] ie_name = none
find_ie (ie ∷ ies) ie_name = if str_eq ie_name ie.name then some ie else find_ie ies ie_name

unfoldable pub ipfix_templ_get_ie : IpfixTempl → String → Option IpfixIe
unfolding find_ie
ipfix_templ_get_ie templ ie_name = find_ie templ.arr ie_name

-- The next offset that is a multiple of the size, in size_t arithmetic.
unfoldable pub padded_offset : ℕ → ℕ → ℕ
padded_offset next_offset size =
    if next_offset % size == 0
    then next_offset
    else (next_offset + (size - next_offset % size)) % 2 ^ 64

-- A new element at the end of the template; the assertion aborts.
unfoldable pub add_ie : IpfixTempl → String → IeType → ℕ → ℕ → Outcome IpfixTempl
add_ie templ ie_name ie_type offset size =
    if offset % size == 0
    then ok (record {
      arr =
          templ.arr ++ record { name = ie_name; offset = offset; size = size; type = ie_type } ∷ [];
      next_offset = (offset + size) % 2 ^ 64;
    })
    else abort err_exit

abbrev pub is_unknown : IeType → Bool
is_unknown unknown = true
is_unknown type = false

unfoldable pub register_type : IpfixTempl → String → IeType → Outcome (Option IpfixTempl)
unfolding padded_offset add_ie ipfix_ie_type_sizeof
register_type templ ie_name ie_type =
    let size = ipfix_ie_type_sizeof ie_type in
    let added = add_ie templ ie_name ie_type (padded_offset templ.next_offset size) size in
    if is_unknown ie_type then ok none else (added >>= λ templ'. ok (some templ'))

-- `none` is the return value -1; an element that is in the template is not added again.
unfoldable pub ipfix_templ_ie_register : IpfixTempl → String → Outcome (Option IpfixTempl)
unfolding ipfix_templ_get_ie get_ipfix_type register_type
ipfix_templ_ie_register templ ie_name = elim (ipfix_templ_get_ie templ ie_name) [
  | some ie ↦ ok (some templ)
  | none ↦ register_type templ ie_name (get_ipfix_type ie_name)
]

-- The -1 of a ssize_t, in its 64 bits.
abbrev pub no_offset : ℕ
no_offset = 2 ^ 64 - 1

-- A ssize_t, as the size_t of the same 64 bits.
unfoldable pub ipfix_templ_get_ie_offset : IpfixTempl → String → ℕ
unfolding ipfix_templ_get_ie
ipfix_templ_get_ie_offset templ ie_name = elim (ipfix_templ_get_ie templ ie_name) [
  | none ↦ no_offset
  | some ie ↦ ie.offset
]

-- The next offset rounded up to 8 bytes, in size_t arithmetic.
unfoldable pub ipfix_templ_get_rec_size : IpfixTempl → ℕ
ipfix_templ_get_rec_size templ = (templ.next_offset + 7) % 2 ^ 64 / 8 * 8

-- The registrations one by one, up to the first that fails.
unfoldable pub register_all : IpfixTempl → List String → Outcome (Option IpfixTempl)
unfolding ipfix_templ_ie_register
register_all templ [] = ok (some templ)
register_all templ (ie_name ∷ ie_names) = do
  registered ← ipfix_templ_ie_register templ ie_name
  elim registered [ none ↦ ok none | some templ' ↦ register_all templ' ie_names ]

abbrev pub standard_elements : List String
standard_elements =
    "flowStartMilliseconds" ∷ "flowEndMilliseconds" ∷ "sourceIPv4Address" ∷ "destinationIPv4Address"
    ∷ "sourceTransportPort" ∷ "destinationTransportPort" ∷ "ingressInterface" ∷ "egressInterface"
    ∷ "packetDeltaCount" ∷ "octetDeltaCount" ∷ "protocolIdentifier" ∷ "ipClassOfService"
    ∷ "tcpControlBits" ∷ []

abbrev pub empty_templ : IpfixTempl
empty_templ = record { arr = []; next_offset = 0 }

unfoldable pub ipfix_templ_new : Outcome (Option IpfixTempl)
unfolding register_all
ipfix_templ_new = register_all empty_templ standard_elements

-- An entry of the specification that fixbuf reads: a name, and the length that overrides the
-- element's own unless it is zero.
pub record FbInfoElementSpec : Type 0 where
  pub name : String
  pub len_override : ℕ

-- assert(padding_size > 0 && padding_size < 64)
abbrev pub padding_fits : ℕ → ℕ → Bool
padding_fits curr_offset offset = ltb curr_offset offset && ltb (offset - curr_offset) 64

-- The loop over the elements, with the padding before each. The assertion aborts.
unfoldable pub element_specs : ℕ → List IpfixIe → Outcome (List FbInfoElementSpec × ℕ)
element_specs curr_offset [] = ok ([], curr_offset)
element_specs curr_offset (ie ∷ ies) = do
  let own : FbInfoElementSpec = record { name = ie.name; len_override = 0 }
  rest ← element_specs (ie.offset + ie.size) ies
  if ie.offset == curr_offset
      then ok (own ∷ rest.0, rest.1)
      else (if padding_fits curr_offset ie.offset
          then ok (
            record { name = "paddingOctets"; len_override = ie.offset - curr_offset }
                ∷ own
                ∷ rest.0,
            rest.1,
          )
          else abort err_exit)

-- The elements with their padding, and the padding at the end. The NULL entry behind them is the
-- end of the list.
unfoldable pub ipfix_get_fb_info_elem_spec : IpfixTempl → Outcome (List FbInfoElementSpec)
unfolding element_specs
ipfix_get_fb_info_elem_spec templ = do
  specs ← element_specs 0 templ.arr
  ok (
      specs.0
      ++ (if specs.1 % 8 == 0
          then []
          else record { name = "paddingOctets"; len_override = 8 - specs.1 % 8 } ∷ []))
