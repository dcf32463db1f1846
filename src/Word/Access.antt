-- ===== src/Word/Access.antt =====
-- Reads and writes of `uintX_t` fields in a byte buffer, and how they meet.
use nfql.Prelude.{
  ℕ, zero, suc, ◌+◌, ◌*◌, ◌/◌, ◌%◌, ◌^◌, ◌≤◌, ◌<◌, ◌≡◌, refl, ◌∙◌, List, [], ◌∷◌, arith, length,
  get_or, set, All, length-set, get_or-set_self, get_or-set_ne,
}
use native.Mathlib.Decide.{ℕ_discrete}

abbrev pub Buffer : Type 0
Buffer = List ℕ

-- uint8_t, uint16_t, uint32_t, uint64_t.
pub data Width : Type 0 where
  w8 w16 w32 w64 : Width

abbrev pub bytes : Width → ℕ
bytes w8 = 1
bytes w16 = 2
bytes w32 = 4
bytes w64 = 8

-- The values of a type of that width are below this.
abbrev pub modulus : Width → ℕ
modulus w8 = 2 ^ 8
modulus w16 = 2 ^ 16
modulus w32 = 2 ^ 32
modulus w64 = 2 ^ 64

-- A read past the end of the buffer, which C leaves undefined, gives zero bytes.
unfoldable pub load_bytes : ℕ → Buffer → ℕ → ℕ
load_bytes zero rec off = 0
load_bytes (suc n) rec off = get_or rec off 0 + 256 * load_bytes n rec (suc off)

-- A write past the end changes nothing there.
unfoldable pub store_bytes : ℕ → Buffer → ℕ → ℕ → Buffer
store_bytes zero rec off v = rec
store_bytes (suc n) rec off v = store_bytes n (set rec off (v % 256)) (suc off) (v / 256)

unfoldable pub load : Width → Buffer → ℕ → ℕ
unfolding load_bytes
load w rec off = load_bytes (bytes w) rec off

unfoldable pub store : Width → Buffer → ℕ → ℕ → Buffer
unfolding store_bytes
store w rec off v = store_bytes (bytes w) rec off v

-- Every element is a byte.
abbrev pub IsBytes : Buffer → Type 0
IsBytes rec = All (λ b. b < 256) rec

pub get_or-IsBytes : (rec : Buffer) (i : ℕ) → IsBytes rec → get_or rec i 0 < 256
get_or-IsBytes [] i h = omega arith
get_or-IsBytes (x ∷ xs) zero h = h.0
get_or-IsBytes (x ∷ xs) (suc i) h = get_or-IsBytes xs i h.1

pub load-lt-modulus :
    (w : Width) (rec : Buffer) (off : ℕ) → IsBytes rec → load w rec off < modulus w
unfolding load
load-lt-modulus w8 rec off h = omega (arith, get_or-IsBytes rec off h)
load-lt-modulus w16 rec off h =
    omega (arith, get_or-IsBytes rec off h, get_or-IsBytes rec (suc off) h)
load-lt-modulus w32 rec off h =
    let byte = λ (i : ℕ). get_or-IsBytes rec i h in
    omega (arith, byte off, byte (suc off), byte (suc (suc off)), byte (suc (suc (suc off))))
load-lt-modulus w64 rec off h =
    let byte = λ (i : ℕ). get_or-IsBytes rec i h in
    omega (
      arith,
      byte off,
      byte (suc off),
      byte (suc (suc off)),
      byte (suc (suc (suc off))),
      byte (suc (suc (suc (suc off)))),
      byte (suc (suc (suc (suc (suc off))))),
      byte (suc (suc (suc (suc (suc (suc off)))))),
      byte (suc (suc (suc (suc (suc (suc (suc off))))))),
    )

pub length-store_bytes :
    (n : ℕ) (rec : Buffer) (off v : ℕ) → length (store_bytes n rec off v) ≡ length rec
unfolding store_bytes
length-store_bytes zero rec off v = refl
length-store_bytes (suc n) rec off v = omega (
  arith,
  length-store_bytes n (set rec off (v % 256)) (suc off) (v / 256),
  length-set rec off (v % 256),
)

-- A byte before the written range, and one behind it, stays.
pub store_bytes_below :
    (n : ℕ) (rec : Buffer) (off v i : ℕ)
    → i < off
    → get_or (store_bytes n rec off v) i 0 ≡ get_or rec i 0
unfolding store_bytes
store_bytes_below zero rec off v i h = refl
store_bytes_below (suc n) rec off v i h = omega (
  arith,
  store_bytes_below n (set rec off (v % 256)) (suc off) (v / 256) i (omega arith),
  get_or-set_ne rec off i (v % 256) 0 (omega arith),
)

pub store_bytes_above :
    (n : ℕ) (rec : Buffer) (off v i : ℕ)
    → off + n ≤ i
    → get_or (store_bytes n rec off v) i 0 ≡ get_or rec i 0
unfolding store_bytes
store_bytes_above zero rec off v i h = refl
store_bytes_above (suc n) rec off v i h = omega (
  arith,
  store_bytes_above n (set rec off (v % 256)) (suc off) (v / 256) i (omega arith),
  get_or-set_ne rec off i (v % 256) 0 (omega arith),
)

pub set-IsBytes : (rec : Buffer) (i v : ℕ) → v < 256 → IsBytes rec → IsBytes (set rec i v)
set-IsBytes [] i v lt h = tt
set-IsBytes (x ∷ xs) zero v lt h = (lt, h.1)
set-IsBytes (x ∷ xs) (suc i) v lt h = (h.0, set-IsBytes xs i v lt h.1)

pub store_bytes-IsBytes :
    (n : ℕ) (rec : Buffer) (off v : ℕ) → IsBytes rec → IsBytes (store_bytes n rec off v)
unfolding store_bytes
store_bytes-IsBytes zero rec off v h = h
store_bytes-IsBytes (suc n) rec off v h =
    store_bytes-IsBytes n _ (suc off) (v / 256) (set-IsBytes rec off (v % 256) (omega arith) h)

-- Storing what was loaded at the same place copies the bytes.
pub store_bytes-load_bytes :
    (n : ℕ) (rec src : Buffer) (off i : ℕ)
    → IsBytes src
    → off + n ≤ length rec
    → off ≤ i
    → i < off + n
    → get_or (store_bytes n rec off (load_bytes n src off)) i 0 ≡ get_or src i 0
unfolding store_bytes load_bytes
store_bytes-load_bytes zero rec src off i b fits lo hi = absurd (omega arith)
store_bytes-load_bytes (suc n) rec src off i b fits lo hi =
    rw (low_byte, high_bytes)
      (elim (ℕ_discrete off i) [
        | yes e ↦ rw (← e) (
            store_bytes_below n (set rec off byte) (suc off) rest off (omega arith)
            ∙ get_or-set_self rec off byte 0 (omega arith))
        | no ne ↦
            store_bytes-load_bytes n (set rec off byte) src (suc off) i b
              (omega (arith, length-set rec off byte)) (omega arith) (omega arith)
      ])
  where
    byte : ℕ
    byte = get_or src off 0

    rest : ℕ
    rest = load_bytes n src (suc off)

    low_byte : (byte + 256 * rest) % 256 ≡ byte
    low_byte = omega (arith, get_or-IsBytes src off b)

    high_bytes : (byte + 256 * rest) / 256 ≡ rest
    high_bytes = omega (arith, get_or-IsBytes src off b)
