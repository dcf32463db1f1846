-- ===== src/Ipfix/Specs.antt =====
-- The specification that `ipfix_get_fb_info_elem_spec` of src/io-ipfix.c makes for fixbuf. The
-- length of an element's own is fixbuf's to say, and a parameter here.
use Prim.Native.String.{String}
use nfql.Prelude.{
  ℕ, ◌+◌, ◌-◌, ◌%◌, ◌^◌, ◌≤◌, ◌<◌, ◌≡◌, refl, ◌∙◌, List, [], ◌∷◌, ◌++◌, All, Bool-cases, true,
  false, inl, inr, arith, ◌==◌, if◌then◌else◌, ok,
}
use nfql.Ipfix.{
  IpfixIe, IpfixTempl, FbInfoElementSpec, padding_fits, element_specs, ipfix_get_fb_info_elem_spec,
  ipfix_templ_get_rec_size,
}
use nfql.Ipfix.Layout.{IsLayout, IsLaidOut, IsSize, size_le}

module _ (element_length : String → ℕ) where
  -- The bytes that an entry stands for.
  abbrev pub spec_length : FbInfoElementSpec → ℕ
  spec_length spec = if spec.len_override == 0 then element_length spec.name else spec.len_override

  abbrev pub spec_lengths : List FbInfoElementSpec → ℕ
  spec_lengths [] = 0
  spec_lengths (spec ∷ specs) = spec_length spec + spec_lengths specs

  -- fixbuf gives an element of the template the size that the template gives it.
  abbrev pub Agrees : IpfixIe → Type 0
  Agrees ie = element_length ie.name ≡ ie.size

  spec_lengths-append :
      (xs ys : List FbInfoElementSpec) → spec_lengths (xs ++ ys) ≡ spec_lengths xs + spec_lengths ys
  spec_lengths-append [] ys = omega arith
  spec_lengths-append (x ∷ xs) ys = omega (arith, spec_lengths-append xs ys)

  -- The padding before an element passes the assertion.
  fits :
      (curr_offset offset size : ℕ)
      → IsSize size
      → curr_offset ≤ offset
      → offset < curr_offset + size
      → (offset == curr_offset) ≡ false
      → padding_fits curr_offset offset ≡ true
  fits curr_offset offset size sized lo hi other = ground (arith, size_le size sized, lo, hi, other)

  -- A specification of the elements from an offset on.
  pub record Specified (curr_offset : ℕ) (ies : List IpfixIe) (end : ℕ) : Type 0 where
    pub specs : List FbInfoElementSpec
    pub run : element_specs curr_offset ies ≡ ok (specs, end)
    pub covers : curr_offset + spec_lengths specs ≡ end

  element_specs_lem :
      (ies : List IpfixIe) (curr_offset end : ℕ)
      → IsLayout curr_offset ies end
      → All Agrees ies
      → Specified curr_offset ies end
  unfolding element_specs
  element_specs_lem [] curr_offset end h a = record {
    specs = [];
    run = rw h refl;
    covers = omega (arith, h);
  }
  element_specs_lem (ie ∷ ies) curr_offset end (size, lo, hi, aligned, h) a =
      let rest = element_specs_lem ies (ie.offset + ie.size) end h a.1 in
      let own : FbInfoElementSpec = record { name = ie.name; len_override = 0 } in
      elim (Bool-cases (ie.offset == curr_offset)) [
        | inl same ↦ record {
          specs = own ∷ rest.specs;
          run = rw (rest.run, same) refl;
          covers = ground (arith, rest.covers, same, a.0);
        }
        | inr other ↦ record {
          specs =
              record { name = "paddingOctets"; len_override = ie.offset - curr_offset }
              ∷ own
              ∷ rest.specs;
          run = rw (rest.run, other, fits curr_offset ie.offset ie.size size lo hi other) refl;
          covers = ground (arith, rest.covers, other, a.0, lo);
        }
      ]

  -- The specification of a laid out template is made without an assertion's failing, and the
  -- lengths of its entries add up to the record size.
  pub fb_info_elem_spec_lem :
      (templ : IpfixTempl)
      → IsLaidOut templ
      → templ.next_offset < 2 ^ 64 - 64
      → All Agrees templ.arr
      → (specs : List FbInfoElementSpec) × (ipfix_get_fb_info_elem_spec templ ≡ ok specs)
        × (spec_lengths specs ≡ ipfix_templ_get_rec_size templ)
  unfolding ipfix_get_fb_info_elem_spec ipfix_templ_get_rec_size
  fb_info_elem_spec_lem templ laid small agree =
      let made = element_specs_lem templ.arr 0 templ.next_offset laid agree in
      let padding : List FbInfoElementSpec =
        if templ.next_offset % 8 == 0
        then []
        else record { name = "paddingOctets"; len_override = 8 - templ.next_offset % 8 } ∷ [] in
      (
        made.specs ++ padding,
        rw made.run refl,
        spec_lengths-append made.specs padding ∙ ground (arith, made.covers),
      )
