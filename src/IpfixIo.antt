-- ===== src/IpfixIo.antt =====
-- src/io-ipfix.c: the handler of IPFIX traces, as far as it is not a call of fixbuf: what it keeps of
-- the template, and how it answers for a field, a time and the next record. What fixbuf answers is
-- an argument, and its set-up calls are taken to succeed.
pub mod Fields
use Prim.Native.String.{String}
use nfql.Prelude.{
  ℕ, ◌==◌, Bool, if◌then◌else◌, List, Option, none, some, Outcome, ok, abort, err_exit, ◌>>=◌,
}
use nfql.Word.{Buffer, w64, load}
use nfql.Ipfix.{
  IpfixTempl, FbInfoElementSpec, ipfix_get_fb_info_elem_spec, no_offset, ipfix_templ_get_ie_offset,
  ipfix_templ_get_rec_size,
}

pub record IpfixCtxt : Type 0 where
  pub templ_spec : IpfixTempl
  pub fb_templ : List FbInfoElementSpec

pub record IpfixReader : Type 0 where
  pub templ_spec : IpfixTempl
  pub rec_size : ℕ
  pub first_off : ℕ
  pub last_off : ℕ

-- The template and its specification; `appended` says if fbTemplateAppendSpecArray accepts that.
unfoldable pub ipfix_io_handler : (List FbInfoElementSpec → Bool) → IpfixTempl → Outcome IpfixCtxt
ipfix_io_handler appended templ_spec = do
  ie_spec ← ipfix_get_fb_info_elem_spec templ_spec
  if appended ie_spec
      then ok (record { templ_spec = templ_spec; fb_templ = ie_spec })
      else abort err_exit

unfoldable pub io_ipfix_read_init : IpfixCtxt → IpfixReader
io_ipfix_read_init ipfix = record {
  templ_spec = ipfix.templ_spec;
  rec_size = ipfix_templ_get_rec_size ipfix.templ_spec;
  first_off = ipfix_templ_get_ie_offset ipfix.templ_spec "flowStartMilliseconds";
  last_off = ipfix_templ_get_ie_offset ipfix.templ_spec "flowEndMilliseconds";
}

-- What fBufNext may answer: a record with its size, or an error.
pub data FbufNext : Type 0 where
  next_record : Buffer → ℕ → FbufNext
  error_eof other_error : FbufNext

-- `none` is NULL, at the end of the file. A failing assertion aborts.
unfoldable pub io_ipfix_read_record : IpfixReader → FbufNext → Outcome (Option Buffer)
io_ipfix_read_record read_ctxt (next_record rec_buf rec_size) =
    if rec_size == read_ctxt.rec_size then ok (some rec_buf) else abort err_exit
io_ipfix_read_record read_ctxt error_eof = ok none
io_ipfix_read_record read_ctxt other_error = abort err_exit

-- exitOn(offset == -1)
unfoldable pub io_ipfix_read_get_field_offset : IpfixReader → String → Outcome ℕ
io_ipfix_read_get_field_offset read_ctxt field =
    let offset = ipfix_templ_get_ie_offset read_ctxt.templ_spec field in
    if offset == no_offset then abort err_exit else ok offset

unfoldable pub io_ipfix_read_get_record_size : IpfixReader → ℕ
io_ipfix_read_get_record_size read_ctxt = read_ctxt.rec_size

unfoldable pub io_ipfix_record_get_StartTS : IpfixReader → Buffer → ℕ
io_ipfix_record_get_StartTS read_ctxt rec = load w64 rec read_ctxt.first_off

unfoldable pub io_ipfix_record_get_EndTS : IpfixReader → Buffer → ℕ
io_ipfix_record_get_EndTS read_ctxt rec = load w64 rec read_ctxt.last_off
