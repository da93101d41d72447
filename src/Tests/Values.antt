-- ===== src/Tests/Values.antt =====
-- Pointers, strings and guarded reads on concrete values.
use better_ncm.Base.{List, ok, thrown, ℕ, ◌^◌, ◌≡◌, ◌⊎◌, Bool, true, not, some, arith, ltb}
use better_ncm.Base.Int.{pos, negsuc, wrap}
use better_ncm.Signals.{Dispositions, default_action, ignored, host_handler}
use better_ncm.Pointer.{
  read_u8, read_u16, read_u32, read_u64, read_s8, read_s16, read_s32, read_s64, write_8, write_16,
  write_32, write_64, read_pointer, write_pointer, address_or_null,
}
use better_ncm.Pointer.Access.{read-write}
use better_ncm.NativeMemory.{ReadError, safe_read_memory}
use better_ncm.NativeMemory.Effects.{Copies, Fails, PutsBack, LeavesGuard, safe_read_memory_lem}
use better_ncm.Tests.Hosts.{nops}

abbrev dispositions : Dispositions
dispositions = record {
  segv = host_handler 1;
  bus = host_handler 2;
  trap = default_action;
  ill = ignored;
}

-- Addresses below 4096 cannot be read.
abbrev readable : ℕ → Bool
readable a = not (ltb a 4096)

-- A read of sixteen bytes of which the first six fault
safe_read_memory_lem_example :
    let (result, new) = safe_read_memory nops readable (λ n. true) 4090 (pos 16) dispositions in
    ((n : ℕ) × (bytes : List ℕ) × (pos 16 ≡ pos n)
      × (result ≡ ok bytes)
      × Copies nops readable 4090 n bytes
      × PutsBack dispositions new)
    ⊎ ((e : ReadError) × (result ≡ thrown e)
        × Fails (λ n. true) (pos 16)
        × LeavesGuard dispositions new)
safe_read_memory_lem_example =
    safe_read_memory_lem nops readable (λ n. true) 4090 (pos 16) dispositions

read-write_example :
    (read_u8 (write_8 nops 64 (negsuc 0)) 64 ≡ wrap (2 ^ 8) (negsuc 0))
    × (read_u16 (write_16 nops 64 (negsuc 0)) 64 ≡ wrap (2 ^ 16) (negsuc 0))
    × (read_u32 (write_32 nops 64 (negsuc 0)) 64 ≡ wrap (2 ^ 32) (negsuc 0))
    × (read_u64 (write_64 nops 64 (negsuc 0)) 64 ≡ wrap (2 ^ 64) (negsuc 0))
    × (read_s8 (write_8 nops 64 (negsuc 127)) 64 ≡ negsuc 127)
    × (read_s16 (write_16 nops 64 (pos 300)) 64 ≡ pos 300)
    × (read_s32 (write_32 nops 64 (negsuc 0)) 64 ≡ negsuc 0)
    × (read_s64 (write_64 nops 64 (pos 7)) 64 ≡ pos 7)
    × (read_pointer (write_pointer nops 64 (some 0xBEEF)) 64 ≡ address_or_null (some 0xBEEF))
read-write_example =
    read-write nops 64 (negsuc 0) (negsuc 127) (pos 300) (negsuc 0) (pos 7) (some 0xBEEF)
      (omega arith) (omega arith) (omega arith) (omega arith) (omega arith)
