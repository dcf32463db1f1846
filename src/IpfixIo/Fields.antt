-- ===== src/IpfixIo/Fields.antt =====
-- The fields that a reader of an IPFIX trace (src/io-ipfix.c) finds, once they are registered in its
-- template.
use Prim.Native.String.{String}
use nfql.Prelude.{
  ◌+◌, ◌-◌, ◌^◌, ◌≤◌, ◌<◌, length, ◌≡◌, refl, ap, List, [], ◌∷◌, All, some, ok, false, ◌==◌, arith,
}
use nfql.Word.{Buffer, w64, load}
use nfql.Ipfix.{
  FbInfoElementSpec, IpfixIe, IpfixTempl, no_offset, ipfix_templ_get_ie, ipfix_templ_get_ie_offset,
  get_ipfix_type, register_all, ipfix_templ_new, empty_templ, standard_elements,
}
use nfql.Ipfix.Layout.{IsLaidOut, rec_size_lem}
use nfql.Ipfix.Types.{ipfix_ie_type_sizeof}
use nfql.Ipfix.Registered.{IsSized, IsThere, register_all_lem, find_ie-IsLayout}
use nfql.IpfixIo.{
  IpfixReader, io_ipfix_read_init, io_ipfix_read_get_field_offset, io_ipfix_read_get_record_size,
  io_ipfix_record_get_StartTS, io_ipfix_record_get_EndTS,
}

-- The reader finds the field: at an offset that is not -1, and within the record.
abbrev pub IsFound : IpfixReader → String → Type 0
IsFound reader field =
    (ie : IpfixIe) × (ipfix_templ_get_ie reader.templ_spec field ≡ some ie)
    × (io_ipfix_read_get_field_offset reader field ≡ ok ie.offset)
    × (ie.offset + ie.size ≤ io_ipfix_read_get_record_size reader)

abbrev pub reader_of : IpfixTempl → List FbInfoElementSpec → IpfixReader
reader_of templ specs = io_ipfix_read_init (record { templ_spec = templ; fb_templ = specs })

there-IsFound :
    (templ : IpfixTempl) (specs : List FbInfoElementSpec) (field : String)
    → IsLaidOut templ
    → templ.next_offset < 2 ^ 64 - 64
    → IsThere templ field
    → IsFound (reader_of templ specs) field
unfolding io_ipfix_read_init io_ipfix_read_get_field_offset io_ipfix_read_get_record_size
    ipfix_templ_get_ie_offset ipfix_templ_get_ie
there-IsFound templ specs field laid fits (ie, e) =
    let ends = find_ie-IsLayout templ.arr 0 templ.next_offset field ie laid e in
    let size = rec_size_lem templ fits in
    let known : (ie.offset == no_offset) ≡ false = ground (arith, ends.0, ends.1, fits) in
    (ie, e, rw (e, known) refl, omega (arith, ends.1, size.1))

ipfix_templ_get_ie_offset_lem :
    (templ : IpfixTempl) (name : String) (ie : IpfixIe)
    → ipfix_templ_get_ie templ name ≡ some ie
    → ipfix_templ_get_ie_offset templ name ≡ ie.offset
unfolding ipfix_templ_get_ie_offset
ipfix_templ_get_ie_offset_lem templ name ie e = rw (ipfix_templ_get_ie_offset, e) refl

start_at :
    (templ : IpfixTempl) (specs : List FbInfoElementSpec) (rec : Buffer)
    (found : IsFound (reader_of templ specs) "flowStartMilliseconds")
    → io_ipfix_record_get_StartTS (reader_of templ specs) rec
      ≡ load w64 rec (IpfixIe.offset found.0)
unfolding io_ipfix_read_init io_ipfix_record_get_StartTS
start_at templ specs rec (ie, e, _, _) =
    ap (load w64 rec) (ipfix_templ_get_ie_offset_lem templ "flowStartMilliseconds" ie e)

end_at :
    (templ : IpfixTempl) (specs : List FbInfoElementSpec) (rec : Buffer)
    (found : IsFound (reader_of templ specs) "flowEndMilliseconds")
    → io_ipfix_record_get_EndTS (reader_of templ specs) rec ≡ load w64 rec (IpfixIe.offset found.0)
unfolding io_ipfix_read_init io_ipfix_record_get_EndTS
end_at templ specs rec (ie, e, _, _) =
    ap (load w64 rec) (ipfix_templ_get_ie_offset_lem templ "flowEndMilliseconds" ie e)

All-IsFound :
    (templ : IpfixTempl) (specs : List FbInfoElementSpec) (fields : List String)
    → IsLaidOut templ
    → templ.next_offset < 2 ^ 64 - 64
    → All (IsThere templ) fields
    → All (IsFound (reader_of templ specs)) fields
All-IsFound templ specs [] laid fits h = tt
All-IsFound templ specs (field ∷ fields) laid fits h =
    (there-IsFound templ specs field laid fits h.0, All-IsFound templ specs fields laid fits h.1)

-- What registering the fields of a query comes to, and what a reader with the template finds.
pub record Readable (fields : List String) (specs : List FbInfoElementSpec) (rec : Buffer)
    : Type 0 where
  pub fresh : IpfixTempl
  pub templ : IpfixTempl
  pub made : ipfix_templ_new ≡ ok (some fresh)
  pub registered : register_all fresh fields ≡ ok (some templ)
  pub found : All (IsFound (reader_of templ specs)) fields
  pub start : IsFound (reader_of templ specs) "flowStartMilliseconds"
  pub end : IsFound (reader_of templ specs) "flowEndMilliseconds"
  pub start_is :
      io_ipfix_record_get_StartTS (reader_of templ specs) rec
      ≡ load w64 rec (IpfixIe.offset start.0)
  pub end_is :
      io_ipfix_record_get_EndTS (reader_of templ specs) rec ≡ load w64 rec (IpfixIe.offset end.0)

standard-IsSized : All IsSized standard_elements
unfolding get_ipfix_type ipfix_ie_type_sizeof
standard-IsSized = ground arith

-- For fewer than 2^32 fields whose types have a size, `ipfix_templ_new` and the registrations of the
-- fields succeed. A reader with the resulting template does not abort on any of them: it finds each at
-- an offset that is not -1, and within a record. It reads the start and the end of a record at the
-- offsets of flowStartMilliseconds and flowEndMilliseconds, which it finds as well.
pub io_ipfix_read_init_lem :
    (fields : List String) (specs : List FbInfoElementSpec) (rec : Buffer)
    → length fields < 2 ^ 32
    → All IsSized fields
    → Readable fields specs rec
unfolding ipfix_templ_new
io_ipfix_read_init_lem fields specs rec few sized =
    let first =
      register_all_lem standard_elements empty_templ refl (omega arith) standard-IsSized in
    let later =
      register_all_lem fields first.after first.laid (omega (arith, few, first.near)) sized in
    let fits : later.after.next_offset < 2 ^ 64 - 64 = omega (arith, few, first.near, later.near) in
    let there = λ (name : String) (e : IsThere first.after name).
      there-IsFound later.after specs name later.laid fits (e.0, later.keeps name e.0 e.1) in
    let start = there "flowStartMilliseconds" first.found.0 in
    let end = there "flowEndMilliseconds" first.found.1.0 in
    record {
      fresh = first.after;
      templ = later.after;
      made = first.run;
      registered = later.run;
      found = All-IsFound later.after specs fields later.laid fits later.found;
      start = start;
      end = end;
      start_is = start_at later.after specs rec start;
      end_is = end_at later.after specs rec end;
    }
