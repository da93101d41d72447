-- ===== src/PerfEvents.antt =====
-- src/core/bindings/native_hw_breakpoint.cc on Linux: the types of hardware breakpoints and their
-- `perf` events.
use better_ncm.Base.{
  ℕ, ◌^◌, Bool, true, false, Option, none, some, List, [], ◌∷◌, if◌then◌else◌, insert, erase,
}
use better_ncm.Base.Int.{ℤ, wrap}
use better_ncm.Exceptions.{same_text}

pub data HwBpType : Type 0 where
  execute write read_write : HwBpType

abbrev pub execute_name : List ℕ
execute_name = b'e' ∷ b'x' ∷ b'e' ∷ b'c' ∷ b'u' ∷ b't' ∷ b'e' ∷ []

abbrev pub write_name : List ℕ
write_name = b'w' ∷ b'r' ∷ b'i' ∷ b't' ∷ b'e' ∷ []

abbrev pub read_write_name : List ℕ
read_write_name = b'r' ∷ b'e' ∷ b'a' ∷ b'd' ∷ b'w' ∷ b'r' ∷ b'i' ∷ b't' ∷ b'e' ∷ []

-- `parseType`; `none` is the exception.
unfoldable pub parse_type : List ℕ → Option HwBpType
parse_type s =
    if same_text s execute_name
    then some execute
    else if same_text s write_name
    then some write
    else if same_text s read_write_name
    then some read_write
    else none

unfoldable pub is_execute : HwBpType → Bool
is_execute execute = true
is_execute write = false
is_execute read_write = false

-- `perf_event_attr`, as far as the code sets it, and whether the event is enabled
pub record PerfEvent : Type 0 where
  pub bp_type : ℕ
  pub bp_len : ℕ
  pub bp_addr : ℕ
  pub enabled : Bool

-- The events of the process by file descriptor
abbrev pub Events : Type 0
Events = List (ℕ × PerfEvent)

-- `perf_event_open`: a file descriptor, or a failure
abbrev pub Kernel : Type 0
Kernel = Events → PerfEvent → Option ℕ

-- `HW_BREAKPOINT_X`, `_W` and `_RW`
unfoldable pub perf_type : HwBpType → ℕ
perf_type execute = 4
perf_type write = 2
perf_type read_write = 3

-- `sizeof(long)`, or the size asked for, an `int`
unfoldable pub perf_len : HwBpType → ℤ → ℕ
perf_len execute size = 8
perf_len write size = wrap (2 ^ 64) size
perf_len read_write size = wrap (2 ^ 64) size

-- The attributes that `linuxSetHwBp` sets
unfoldable pub perf_event : ℕ → HwBpType → ℤ → Bool → PerfEvent
unfolding perf_type perf_len
perf_event addr type size enabled = record {
  bp_type = perf_type type;
  bp_len = perf_len type size;
  bp_addr = addr;
  enabled = enabled;
}

-- `linuxSetHwBp`: the event is opened disabled, and then enabled.
unfoldable pub linux_set_hw_bp : Kernel → Events → ℕ → HwBpType → ℤ → Option (ℕ × Events)
linux_set_hw_bp kernel events addr type size =
    elim (kernel events (perf_event addr type size false)) [
      | none ↦ none
      | some fd ↦ some (fd, insert fd (perf_event addr type size true) events)
    ]

-- `linuxClearHwBp`
unfoldable pub linux_clear_hw_bp : Option ℕ → Events → Events
linux_clear_hw_bp none events = events
linux_clear_hw_bp (some fd) events = erase fd events
