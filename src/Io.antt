-- ===== src/Io.antt =====
-- src/io.h, `struct io_handler_s`: what the stages ask of the format's reader.
use Prim.Native.String.{String}
use nfql.Prelude.{ℕ}
use nfql.Word.{Buffer}

pub record IoHandler : Type 0 where
  -- The offset of a field of that name in a record; (size_t) -1 where there is none.
  pub io_read_get_field_offset : String → ℕ
  pub io_read_get_record_size : ℕ
  pub io_record_get_StartTS : Buffer → ℕ
  pub io_record_get_EndTS : Buffer → ℕ
