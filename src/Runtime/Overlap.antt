-- ===== src/Runtime/Overlap.antt =====
-- A hook over a software breakpoint: `cleanup` of src/core/script.cc takes the breakpoint back first.
use better_ncm.Base.{
  ℕ, ◌-◌, ◌≡◌, ap, ◌∙◌, some, List, [], arith, get_or, ok, inl, inr, erase, insert,
}
use better_ncm.Callbacks.{Callback}
use better_ncm.Memory.{
  Memory, read_bytes, write_bytes, write_bytes_at, read_bytes_at, length-read_bytes,
}
use better_ncm.Patches.{restore_all}
use better_ncm.Relocator.Code.{Host, Allocates}
use better_ncm.Relocator.{Machine, patch_size}
use better_ncm.Relocator.Effects.{Protects}
use better_ncm.PendingRing.{PendingEvent}
use better_ncm.PendingRing.Queue.{Holds}
use better_ncm.AccessMonitor.{AccessCall}
use better_ncm.Breakpoint
use better_ncm.Breakpoint.Set.{set-Outcomes}
use better_ncm.Interceptor
use better_ncm.Interceptor.{Dispatchers}
use better_ncm.Interceptor.View as Hooks
use better_ncm.Runtime.{Subsystems, cleanup}
use better_ncm.Runtime.Cleanup.{original_memory, cleanup-Clears}

-- The states that the two subsystems work on, and what is left of them
abbrev pub software_of : Subsystems → Breakpoint.State
software_of s = record s.software { machine = s.machine; registry = s.registry }

abbrev pub with_software : Breakpoint.State → Subsystems → Subsystems
with_software t s = record s { machine = t.machine; registry = t.registry; software = t }

abbrev pub interceptor_of : Subsystems → Interceptor.State
interceptor_of s = record s.interceptor { machine = s.machine }

abbrev pub with_interceptor : Interceptor.State → Subsystems → Subsystems
with_interceptor w s = record s { machine = w.machine; interceptor = w }

-- The first byte of a patch that is written back
written_back : (mem m : Memory) (a : ℕ) → write_bytes m a (read_bytes mem a patch_size) a ≡ mem a
written_back mem m a =
    let at : a - a ≡ 0 = omega arith in
    let first : get_or (read_bytes mem a patch_size) 0 0 ≡ mem a =
      read_bytes_at mem a patch_size 0 (omega arith) ∙ ap mem (omega arith) in
    ground (
      arith,
      write_bytes_at m a (read_bytes mem a patch_size) a,
      length-read_bytes mem a patch_size,
      at,
      first,
    )

trapped : (mem : Memory) (a : ℕ) → write_bytes mem a Breakpoint.int3 a ≡ 0xCC
trapped mem a = ground (arith, write_bytes_at mem a Breakpoint.int3 a)

module _ (host : Host) (laws : Allocates host) (protects : Protects host) (callback dispatch_fn : ℕ)
    (fns : Dispatchers) where
  -- A breakpoint and then a hook at the same address, where there was neither
  pub record Overlaps (s : Subsystems) (address : ℕ) (t : Breakpoint.State) (w : Interceptor.State)
      : Type 0 where
    pub no_breakpoint : s.software.by_id ≡ []
    pub no_hook : s.interceptor.by_id ≡ []
    pub on_hit : Callback
    pub on_enter : Callback
    pub on_leave : Callback
    pub bp_id : List ℕ
    pub hook_id : List ℕ
    pub set_first :
        Breakpoint.set host callback dispatch_fn address on_hit (software_of s) ≡ (ok bp_id, t)
    pub attached :
        Interceptor.attach host fns address on_enter on_leave (interceptor_of (with_software t s))
        ≡ (ok hook_id, w)

  -- `set` leaves INT3 in memory.
  set-int3 :
      (s : Subsystems) (address : ℕ) (t : Breakpoint.State) (w : Interceptor.State)
      → Overlaps s address t w
      → t.machine.mem address ≡ 0xCC
  unfolding Breakpoint.register
  set-int3 s address t w o =
      elim (set-Outcomes host laws protects callback dispatch_fn (software_of s) address o.on_hit) [
        | inl (e, u, same, q) ↦ absurd (ground (arith, q, o.set_first))
        | inr (m, e, u, same, ptr, new, q) ↦
            let here : t.machine ≡ m = ground (arith, q, o.set_first) in
            ap (λ (m : Machine). m.mem address) here
            ∙ ap (λ (mem : Memory). mem address) new.patched
            ∙ trapped u.machine.mem address
      ]

  -- The hook has saved the bytes with INT3 among them, and writes them back last.
  overlap-int3 :
      (s : Subsystems) (address : ℕ) (t : Breakpoint.State) (w : Interceptor.State)
      → Overlaps s address t w
      → original_memory (with_interceptor w (with_software t s)) address ≡ 0xCC
  unfolding Interceptor.register restore_all insert erase
  overlap-int3 s address t w o =
      elim (Hooks.attach-Registers host laws protects (interceptor_of (with_software t s)) fns
        address o.on_enter o.on_leave) [
          | inl (e, u, same, q) ↦ absurd (ground (arith, q, o.attached))
          | inr (m, e, new, q) ↦
              let made : w ≡ Interceptor.register (interceptor_of (with_software t s)) m e =
                ground (arith, q, o.attached) in
              rw (made, o.no_hook, new.at, new.saved)
                (written_back t.machine.mem _ address ∙ set-int3 s address t w o)
        ]

  -- Where a software breakpoint is set and then a hook attached at the same address, `cleanup`
  -- returns and leaves INT3 at that address: the breakpoint is taken back first, and the hook
  -- writes back what it saved. There was no breakpoint and no hook before, at most 256 accesses are
  -- pending, the JIT runtime gives addresses that are neither null nor in use, and every `mprotect`
  -- succeeds.
  pub cleanup-int3 :
      (s : Subsystems) (address : ℕ) (t : Breakpoint.State) (w : Interceptor.State)
      (q : List PendingEvent)
      → Overlaps s address t w
      → Holds s.monitor.ring q
      → (calls : List AccessCall) × (u : Subsystems) × (cleanup host
            (with_interceptor w (with_software t s))
          ≡ some (calls, ok tt, u))
        × (u.machine.mem address ≡ 0xCC)
  cleanup-int3 s address t w q o v =
      let (u, ends, clean, rights) =
        cleanup-Clears host laws protects (with_interceptor w (with_software t s)) q v in
      (_, u, ends, ap (λ (mem : Memory). mem address) clean.mem ∙ overlap-int3 s address t w o)
