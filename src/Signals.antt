-- ===== src/Signals.antt =====
-- The signal dispositions of the process, which native_exception_handler.cc, native_memory.cc and
-- native_memory_access_monitor.cc change through `sigaction`.
use better_ncm.Base.{ℕ}

pub data Signal : Type 0 where
  sigsegv sigbus sigtrap sigill other_signal : Signal

-- `global_handler` is `globalSignalHandler`, `safe_read_handler` is `safe_read_signal_handler`; a
-- function of the host has a number.
pub data Disposition : Type 0 where
  default_action ignored global_handler safe_read_handler : Disposition
  host_handler : ℕ → Disposition

pub record Dispositions : Type 0 where
  pub segv : Disposition
  pub bus : Disposition
  pub trap : Disposition
  pub ill : Disposition

abbrev pub all_global : Dispositions
all_global = record {
  segv = global_handler;
  bus = global_handler;
  trap = global_handler;
  ill = global_handler;
}
