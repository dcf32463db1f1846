-- ===== src/Word.antt =====
-- Flow records as byte buffers: the reads `*(uintX_t *)(record + offset)` and writes of
-- scripts/generate-functions.py, src/utils.c and src/io-ft.c, on a little-endian machine, and the
-- 64-bit arithmetic of C.
mod Access
pub use Access.*
use nfql.Prelude.{ℕ, ◌+◌, ◌-◌, ◌%◌, ◌^◌}

abbrev pub u64_mod : ℕ
u64_mod = 2 ^ 64

-- uint64_t a + b, a - b.
unfoldable pub add64 : ℕ → ℕ → ℕ
add64 a b = (a + b) % u64_mod

unfoldable pub sub64 : ℕ → ℕ → ℕ
sub64 a b = (a + u64_mod - b) % u64_mod
