-- ===== src/DebugRegisters.antt =====
-- The debug registers of src/core/bindings/native_hw_breakpoint.cc on x86-64 Windows and macOS, where
-- a breakpoint is one of four slots. The two platforms set and clear the same bits.
pub mod Breakpoints
pub mod Fields
pub mod Hits
pub mod Limit
pub mod Slotted
pub mod Slots
pub mod Delivery
pub mod Tied
pub mod Undo
use better_ncm.Base.{
  ℕ, zero, suc, ◌+◌, ◌-◌, ◌*◌, ◌/◌, ◌%◌, ◌^◌, Bool, true, false, Option, none, some, ◌==◌,
  if◌then◌else◌,
}
use better_ncm.Base.Int.{ℤ, pos, negsuc}
use better_ncm.PerfEvents.{HwBpType, execute, write, read_write}

-- DR0 to DR3, and DR7
pub record DebugState : Type 0 where
  pub dr0 : ℕ
  pub dr1 : ℕ
  pub dr2 : ℕ
  pub dr3 : ℕ
  pub dr7 : ℕ

-- `g_usedSlots & (1 << i)`
abbrev pub is_used : ℕ → ℕ → Bool
is_used used i = used / 2 ^ i % 2 == 1

-- `findFreeSlot`; `none` is -1.
unfoldable pub find_free_slot : ℕ → Option ℕ
find_free_slot used =
    if is_used used 0
    then if is_used used 1
      then if is_used used 2 then if is_used used 3 then none else some 3 else some 2
      else some 1
    else some 0

-- `x |= 1 << i` and `x &= ~(1 << i)`
abbrev pub set_bit : ℕ → ℕ → ℕ
set_bit i x = x + 2 ^ i * (1 - x / 2 ^ i % 2)

abbrev pub clear_bit : ℕ → ℕ → ℕ
clear_bit i x = x - 2 ^ i * (x / 2 ^ i % 2)

-- `x &= ~(3 << i); x |= v << i`, where `v` has two bits
abbrev pub put_bits : ℕ → ℕ → ℕ → ℕ
put_bits i v x = x - 2 ^ i * (x / 2 ^ i % 4) + 2 ^ i * v

-- `switch (slot)`
unfoldable pub put_address : ℕ → ℕ → DebugState → DebugState
put_address slot addr d =
    if slot == 0
    then record d { dr0 = addr }
    else if slot == 1
    then record d { dr1 = addr }
    else if slot == 2
    then record d { dr2 = addr }
    else if slot == 3
    then record d { dr3 = addr }
    else d

unfoldable pub type_val : HwBpType → ℕ
type_val execute = 0
type_val write = 1
type_val read_write = 3

unfoldable pub len_val : ℤ → ℕ
len_val (pos n) = if n == 2 then 1 else if n == 4 then 3 else if n == 8 then 2 else 0
len_val (negsuc n) = 0

-- `winSetDebugReg` and `darwinSetDebugReg`, between the reading and the writing of the registers
unfoldable pub set_debug_reg : ℕ → ℕ → HwBpType → ℤ → DebugState → DebugState
set_debug_reg slot addr type bp_size d =
    let e = put_address slot addr d in
    record e {
      dr7 =
          put_bits (18 + slot * 4) (len_val bp_size)
            (put_bits (16 + slot * 4) (type_val type) (set_bit (slot * 2) e.dr7));
    }

-- `winClearDebugReg` and `darwinClearDebugReg`; the slot becomes free in `g_usedSlots`.
unfoldable pub clear_debug_reg : ℕ → DebugState × ℕ → DebugState × ℕ
clear_debug_reg slot (d, used) =
    (put_address slot 0 (record d { dr7 = clear_bit (slot * 2) d.dr7 }), clear_bit slot used)
