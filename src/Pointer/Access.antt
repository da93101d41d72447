-- ===== src/Pointer/Access.antt =====
-- Reading back what was written through a native pointer.
use mathlib.Core.Path.{subst}
use native.Mathlib.Nat.{one-le-pow}
use better_ncm.Base.{
  ℕ, zero, suc, ◌+◌, ◌^◌, ◌<◌, ◌≡◌, ◌≢◌, refl, ap, ◌∙◌, Option, List, [], ◌∷◌, arith, length, take,
  All,
}
use better_ncm.Base.Int.{ℤ, pos, wrap, to_signed, Fits, wrap-lt, to_signed-wrap}
use better_ncm.Memory.{Memory, store, write_bytes, write_bytes_at, read_bytes, read-write_bytes}
use better_ncm.Memory.Endian.{le_bytes, le_value, length-le_bytes, le_value-le_bytes}
use better_ncm.Pointer.{
  address_or_null, read_unsigned, read_signed, write_int, read_u8, read_u16, read_u32, read_u64,
  read_s8, read_s16, read_s32, read_s64, write_8, write_16, write_32, write_64, read_pointer,
  write_pointer, read_cstring, write_utf8_string,
}

pow_pos : (w : ℕ) → 0 < 256 ^ w
pow_pos w = one-le-pow w 256 (omega arith)

read_value :
    (w : ℕ) (mem : Memory) (a : ℕ) (v : ℤ)
    → le_value (read_bytes (write_int w mem a v) a w) ≡ wrap (256 ^ w) v
unfolding write_int
read_value w mem a v =
    let bytes = le_bytes w (wrap (256 ^ w) v) in
    let back : read_bytes (write_bytes mem a bytes) a w ≡ bytes =
      subst (λ n. read_bytes (write_bytes mem a bytes) a n ≡ bytes)
        (length-le_bytes w (wrap (256 ^ w) v)) (read-write_bytes mem a bytes) in
    ap le_value back ∙ le_value-le_bytes w (wrap (256 ^ w) v) (wrap-lt (256 ^ w) v (pow_pos w))

-- A signed value that fits is read back.
read_signed-write_width :
    (w : ℕ) (mem : Memory) (a : ℕ) (v : ℤ)
    → Fits (256 ^ w) v
    → read_signed w (write_int w mem a v) a ≡ v
unfolding read_signed
read_signed-write_width w mem a v h =
    ap (to_signed (256 ^ w)) (read_value w mem a v) ∙ to_signed-wrap (256 ^ w) v h

-- An unsigned read of 8, 16, 32 or 64 bits after a write of the same width gives the value modulo 2
-- to the width.
pub read_unsigned-write :
    (mem : Memory) (a : ℕ) (v : ℤ)
    → (read_u8 (write_8 mem a v) a ≡ wrap (2 ^ 8) v)
      × (read_u16 (write_16 mem a v) a ≡ wrap (2 ^ 16) v)
      × (read_u32 (write_32 mem a v) a ≡ wrap (2 ^ 32) v)
      × (read_u64 (write_64 mem a v) a ≡ wrap (2 ^ 64) v)
unfolding read_unsigned
read_unsigned-write mem a v =
    (read_value 1 mem a v, read_value 2 mem a v, read_value 4 mem a v, read_value 8 mem a v)

-- A signed read of 8, 16, 32 or 64 bits after a write of the same width gives the value, where it
-- fits.
pub read_signed-write :
    (mem : Memory) (a : ℕ) (v8 v16 v32 v64 : ℤ)
    → Fits (2 ^ 8) v8
    → Fits (2 ^ 16) v16
    → Fits (2 ^ 32) v32
    → Fits (2 ^ 64) v64
    → (read_s8 (write_8 mem a v8) a ≡ v8)
      × (read_s16 (write_16 mem a v16) a ≡ v16)
      × (read_s32 (write_32 mem a v32) a ≡ v32)
      × (read_s64 (write_64 mem a v64) a ≡ v64)
read_signed-write mem a v8 v16 v32 v64 h8 h16 h32 h64 = (
  read_signed-write_width 1 mem a v8 h8,
  read_signed-write_width 2 mem a v16 h16,
  read_signed-write_width 4 mem a v32 h32,
  read_signed-write_width 8 mem a v64 h64,
)

-- A 64-bit pointer that is written is read back, a null one as address 0.
pub read_pointer-write_pointer :
    (mem : Memory) (a : ℕ) (v : Option ℕ)
    → address_or_null v < 2 ^ 64
    → read_pointer (write_pointer mem a v) a ≡ address_or_null v
unfolding read_pointer write_pointer read_unsigned wrap
read_pointer-write_pointer mem a v h = read_value 8 mem a (pos (address_or_null v)) ∙ omega arith

-- A read after a write of the same width, 8, 16, 32 or 64 bits, gives the value modulo 2 to the
-- width if it is unsigned, and the value if it is signed and fits; a 64-bit pointer is read back, a
-- null one as address 0.
pub read-write :
    (mem : Memory) (a : ℕ) (u v8 v16 v32 v64 : ℤ) (p : Option ℕ)
    → Fits (2 ^ 8) v8
    → Fits (2 ^ 16) v16
    → Fits (2 ^ 32) v32
    → Fits (2 ^ 64) v64
    → address_or_null p < 2 ^ 64
    → (read_u8 (write_8 mem a u) a ≡ wrap (2 ^ 8) u)
      × (read_u16 (write_16 mem a u) a ≡ wrap (2 ^ 16) u)
      × (read_u32 (write_32 mem a u) a ≡ wrap (2 ^ 32) u)
      × (read_u64 (write_64 mem a u) a ≡ wrap (2 ^ 64) u)
      × (read_s8 (write_8 mem a v8) a ≡ v8)
      × (read_s16 (write_16 mem a v16) a ≡ v16)
      × (read_s32 (write_32 mem a v32) a ≡ v32)
      × (read_s64 (write_64 mem a v64) a ≡ v64)
      × (read_pointer (write_pointer mem a p) a ≡ address_or_null p)
read-write mem a u v8 v16 v32 v64 p h8 h16 h32 h64 hp =
    let (u8, u16, u32, u64) = read_unsigned-write mem a u in
    let (s8, s16, s32, s64) = read_signed-write mem a v8 v16 v32 v64 h8 h16 h32 h64 in
    (u8, u16, u32, u64, s8, s16, s32, s64, read_pointer-write_pointer mem a p hp)

-- A string without a null byte that is written is read back by `readCString` and `readUtf8String`,
-- up to the length asked for.
pub read_cstring-write_utf8_string :
    (max_length : ℕ) (mem : Memory) (a : ℕ) (str : List ℕ)
    → All (λ b. b ≢ 0) str
    → read_cstring max_length (write_utf8_string mem a str) a ≡ take max_length str
unfolding read_cstring write_utf8_string write_bytes
read_cstring-write_utf8_string zero mem a str h = refl
read_cstring-write_utf8_string (suc n) mem a [] h = ground arith
read_cstring-write_utf8_string (suc n) mem a (b ∷ bs) h =
    let at : suc (a + length bs) ≡ a + suc (length bs) = omega arith in
    let head : write_utf8_string mem a (b ∷ bs) a ≡ b =
      ground (arith, write_bytes_at (store mem a b) (suc a) bs a) in
    let rest = read_cstring-write_utf8_string n (store mem a b) (suc a) bs h.1 in
    ground (arith, at, head, rest)
