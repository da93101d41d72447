-- ===== src/Pointer.antt =====
-- src/core/bindings/native_pointer.cc on a 64-bit little-endian host: a pointer is its address
-- `$addr`, a number below 2 ^ 64. A null `shared_ptr` argument is `none`.
pub mod Arithmetic
pub mod Access
use better_ncm.Base.{
  ℕ, zero, suc, ◌+◌, ◌-◌, ◌*◌, ◌/◌, ◌%◌, ◌^◌, Bool, Option, none, some, List, [], ◌∷◌, bit_and,
  bit_or, bit_xor, ltb, ◌==◌, if◌then◌else◌, length, Outcome, ok,
}
use better_ncm.Base.Int.{ℤ, pos, negsuc, wrap, to_signed}
use better_ncm.Hex.{NumberError, stoull_hex, to_hex_addr}
use better_ncm.Memory.{Memory, store, write_bytes, read_bytes}
use better_ncm.Memory.Endian.{le_bytes, le_value}

abbrev pub address_or_null : Option ℕ → ℕ
address_or_null none = 0
address_or_null (some a) = a

-- The constructor from text; an empty text is the null pointer.
pub from_text : List ℕ → Outcome NumberError ℕ
from_text [] = ok 0
from_text (c ∷ cs) = stoull_hex (c ∷ cs)

pub to_string : ℕ → List ℕ
to_string addr = to_hex_addr addr

pub to_int32 : ℕ → ℤ
to_int32 addr = to_signed (2 ^ 32) (addr % 2 ^ 32)

pub to_uint32 : ℕ → ℕ
to_uint32 addr = addr % 2 ^ 32

pub is_null : ℕ → Bool
is_null addr = addr == 0

pub equals : ℕ → Option ℕ → Bool
equals addr none = addr == 0
equals addr (some other) = addr == other

pub compare_to : ℕ → Option ℕ → ℤ
compare_to addr other =
    let o = address_or_null other in
    if ltb addr o then negsuc 0 else if ltb o addr then pos 1 else pos 0

pub add : ℕ → ℤ → ℕ
add addr rhs = (addr + wrap (2 ^ 64) rhs) % 2 ^ 64

-- `$addr - static_cast<uint64_t>(rhs)`, modulo 2 ^ 64
pub sub : ℕ → ℤ → ℕ
sub addr rhs = (addr + 2 ^ 64 - wrap (2 ^ 64) rhs) % 2 ^ 64

pub bitwise_and : ℕ → Option ℕ → ℕ
bitwise_and addr rhs = bit_and addr (address_or_null rhs)

pub bitwise_or : ℕ → Option ℕ → ℕ
bitwise_or addr rhs = bit_or addr (address_or_null rhs)

pub bitwise_xor : ℕ → Option ℕ → ℕ
bitwise_xor addr rhs = bit_xor addr (address_or_null rhs)

-- Shifts by 0 to 63 places; C++ leaves others undefined.
pub shr : ℕ → ℕ → ℕ
shr addr n = addr / 2 ^ n

pub shl : ℕ → ℕ → ℕ
shl addr n = addr * 2 ^ n % 2 ^ 64

-- `(~$addr) & mask`, with 64 ones in the mask
pub bitwise_not : ℕ → ℕ
bitwise_not addr = bit_and (2 ^ 64 - 1 - addr) (2 ^ 64 - 1)

-- The reads of `w` bytes, unsigned and signed, and the write.
pub read_unsigned : ℕ → Memory → ℕ → ℕ
read_unsigned w mem addr = le_value (read_bytes mem addr w)

pub read_signed : ℕ → Memory → ℕ → ℤ
read_signed w mem addr = to_signed (256 ^ w) (le_value (read_bytes mem addr w))

pub write_int : ℕ → Memory → ℕ → ℤ → Memory
write_int w mem addr v = write_bytes mem addr (le_bytes w (wrap (256 ^ w) v))

abbrev pub read_u8 : Memory → ℕ → ℕ
read_u8 = read_unsigned 1

abbrev pub read_u16 : Memory → ℕ → ℕ
read_u16 = read_unsigned 2

abbrev pub read_u32 : Memory → ℕ → ℕ
read_u32 = read_unsigned 4

abbrev pub read_u64 : Memory → ℕ → ℕ
read_u64 = read_unsigned 8

abbrev pub read_s8 : Memory → ℕ → ℤ
read_s8 = read_signed 1

abbrev pub read_s16 : Memory → ℕ → ℤ
read_s16 = read_signed 2

abbrev pub read_s32 : Memory → ℕ → ℤ
read_s32 = read_signed 4

abbrev pub read_s64 : Memory → ℕ → ℤ
read_s64 = read_signed 8

-- `writeU8` and `writeS8` store the same byte, and so on for the other widths.
abbrev pub write_8 : Memory → ℕ → ℤ → Memory
write_8 = write_int 1

abbrev pub write_16 : Memory → ℕ → ℤ → Memory
write_16 = write_int 2

abbrev pub write_32 : Memory → ℕ → ℤ → Memory
write_32 = write_int 4

abbrev pub write_64 : Memory → ℕ → ℤ → Memory
write_64 = write_int 8

pub read_pointer : Memory → ℕ → ℕ
read_pointer mem addr = read_u64 mem addr

pub write_pointer : Memory → ℕ → Option ℕ → Memory
write_pointer mem addr v = write_64 mem addr (pos (address_or_null v))

pub read_byte_array : Memory → ℕ → ℕ → List ℕ
read_byte_array mem addr len = read_bytes mem addr len

pub write_byte_array : Memory → ℕ → List ℕ → Memory
write_byte_array mem addr bytes = write_bytes mem addr bytes

-- `readCString` and `readUtf8String`: up to the null byte, `maxLength` bytes at most.
pub read_cstring : ℕ → Memory → ℕ → List ℕ
read_cstring zero mem addr = []
read_cstring (suc max_length) mem addr =
    let rest = read_cstring max_length mem (suc addr) in
    if mem addr == 0 then [] else mem addr ∷ rest

pub write_utf8_string : Memory → ℕ → List ℕ → Memory
write_utf8_string mem addr str = store (write_bytes mem addr str) (addr + length str) 0
