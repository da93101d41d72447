-- ===== src/Runtime/Cleanup.antt =====
-- What `cleanup` and `reset` of src/core/script.cc leave.
use better_ncm.Base.{
  ℕ, ◌≡◌, refl, ap, ◌∙◌, true, false, none, lookup, some, List, [], ◌∷◌, arith, Outcome, ok, thrown,
}
use better_ncm.Memory.{Memory}
use better_ncm.Patches.{restore_all}
use better_ncm.Relocator.Code.{Host, Allocates}
use better_ncm.Relocator.{Machine, patch_size}
use better_ncm.Relocator.Effects.{Protects, release-mem}
use better_ncm.Exceptions.Lifecycle.{disable-remove_all_callbacks}
use better_ncm.PendingRing.{PendingEvent}
use better_ncm.PendingRing.Queue.{Holds, deliveries}
use better_ncm.AccessMonitor
use better_ncm.AccessMonitor.{AccessCall}
use better_ncm.AccessMonitor.Disable.{drain_pending-Holds}
use better_ncm.PerfEvents.{Events}
use better_ncm.WatchedPages.{prot_read_write}
use better_ncm.WatchedPages.Rights.{rights_at}
use better_ncm.Runtime.Released.{
  watched_by, SavesReadWrite, release_loop-rights, remove_loop-closes,
}
use better_ncm.HardwareBreakpoint
use better_ncm.HardwareBreakpoint.{HwEntry}
use better_ncm.HardwareBreakpoint.Outcomes.{maybe-Unchanged}
use better_ncm.Breakpoint.{BreakpointError, bp_insn_size}
use better_ncm.Breakpoint.Effects as Bps
use better_ncm.Breakpoint.Remove.{remove_all-unpatched}
use better_ncm.Interceptor.{HookError}
use better_ncm.Interceptor.View as Hooks
use better_ncm.Interceptor.Detach.{detach_all-unhooked}
use better_ncm.Runtime.{
  Subsystems, clean_monitor, clean_hardware, clean_software, clean_interceptor, clean_exceptions,
  after_interceptor, after_software, cleanup,
}

-- Memory after every breakpoint and then every hook is taken back
abbrev pub original_memory : Subsystems → Memory
original_memory s =
    restore_all Hooks.target_of Hooks.original_of patch_size s.interceptor.by_id
      (restore_all Bps.address_of Bps.original_of bp_insn_size s.software.by_id s.machine.mem)

-- The tables are empty, no event of a hardware breakpoint is open, and memory is that of `s` without
-- patches.
pub record Clears (s u : Subsystems) : Type 0 where
  pub monitors : u.monitor.monitors ≡ []
  pub hardware_ids : u.hardware.by_id ≡ []
  pub hardware_addresses : u.hardware.by_address ≡ []
  pub events :
      (id fd : ℕ) (e : HwEntry)
      → lookup id s.hardware.by_id ≡ some e
      → e.perf_fd ≡ some fd
      → lookup fd u.hardware.events ≡ none
  pub software_ids : u.software.by_id ≡ []
  pub software_addresses : u.software.by_address ≡ []
  pub hooks : u.interceptor.by_id ≡ []
  pub targets : u.interceptor.by_target ≡ []
  pub callbacks : u.registry.js_callbacks ≡ []
  pub off : u.registry.enabled ≡ false
  pub mem : u.machine.mem ≡ original_memory s

-- Every address that a monitor watched can be read and written.
pub GivesBack : Subsystems → Subsystems → Type 0
GivesBack s u =
    (a : ℕ)
    → watched_by a s.monitor.monitors ≡ true
    → rights_at a u.monitor.protections ≡ some prot_read_write

pub record IsClean (s u : Subsystems) : Type 0 where
  pub clears : Clears s u
  pub rights : GivesBack s u

-- `disableAll` ends, delivers the pending events, leaves no monitor and gives the rights back.
disable_all_lem :
    (s : AccessMonitor.State) (q : List PendingEvent)
    → Holds s.ring q
    → (t : AccessMonitor.State) × (AccessMonitor.disable_all s
        ≡ some (deliveries (AccessMonitor.deliver s.monitors) q, t))
      × (t.monitors ≡ [])
      × (SavesReadWrite s.monitors
          → (a : ℕ) → watched_by a s.monitors ≡ true
          → rights_at a t.protections ≡ some prot_read_write)
unfolding AccessMonitor.disable_all
disable_all_lem s q v =
    let (ring, eq, empty) = drain_pending-Holds s q v in
    let t : AccessMonitor.State = record s { ring = ring } in
    (
      record (AccessMonitor.release_loop t.monitors t) { monitors = [] },
      rw (eq, AccessMonitor.disable_all) refl,
      refl,
      λ saved a h. release_loop-rights a s.monitors t saved h,
    )

remove_loop-mem :
    (l : List (ℕ × HwEntry)) (m : Machine) (events : Events)
    → (HardwareBreakpoint.remove_loop l (m, events)).0.mem ≡ m.mem
unfolding HardwareBreakpoint.remove_loop
remove_loop-mem [] m events = refl
remove_loop-mem ((id, e) ∷ l) m events =
    remove_loop-mem l _ _ ∙ release-mem _ e.relocated_code ∙ release-mem m e.trampoline_code

-- `removeAll` leaves no hardware breakpoint and no event of one, and memory as it was.
remove_all-mem :
    (s : HardwareBreakpoint.State)
    → let t = HardwareBreakpoint.remove_all s in
      (t.by_id ≡ [])
      × (t.by_address ≡ [])
      × (t.machine.mem ≡ s.machine.mem)
      × ((id fd : ℕ) (e : HwEntry)
          → lookup id s.by_id ≡ some e
          → e.perf_fd ≡ some fd
          → lookup fd t.events ≡ none)
unfolding HardwareBreakpoint.remove_all
remove_all-mem s =
    let kept = maybe-Unchanged _ in
    (
      kept.by_id,
      kept.by_address,
      ap (λ (m : Machine). m.mem) kept.machine ∙ remove_loop-mem s.by_id s.machine s.events,
      λ id fd e h k.
          ap (lookup fd) kept.events ∙ remove_loop-closes s.by_id s.machine s.events id fd e h k,
    )

module _ (host : Host) where
  -- `cleanup` goes on behind a call that returns.
  after_interceptor-ok :
      (r : Outcome HookError (Unit {0}) × Subsystems)
      → r.0 ≡ ok tt
      → after_interceptor host r ≡ (ok tt, clean_exceptions r.1)
  unfolding after_interceptor
  after_interceptor-ok (ok _, s) q = refl
  after_interceptor-ok (thrown e, s) q = absurd (ground (arith, q))

  after_software-ok :
      (r : Outcome BreakpointError (Unit {0}) × Subsystems)
      → r.0 ≡ ok tt
      → after_software host r ≡ after_interceptor host (clean_interceptor host r.1)
  unfolding after_software
  after_software-ok (ok _, s) q = refl
  after_software-ok (thrown e, s) q = absurd (ground (arith, q))

  -- What `cleanup` leaves, whatever rights the monitors have saved
  pub cleanup-Clears :
      Allocates host
      → Protects host
      → (s : Subsystems) (q : List PendingEvent) → Holds s.monitor.ring q
      → (u : Subsystems) × (cleanup host s
          ≡ some (deliveries (AccessMonitor.deliver s.monitor.monitors) q, ok tt, u))
        × Clears s u
        × (SavesReadWrite s.monitor.monitors → GivesBack s u)
  unfolding cleanup clean_monitor clean_hardware clean_software clean_interceptor clean_exceptions
      GivesBack
  cleanup-Clears laws protects s q v =
      let monitor : AccessMonitor.State = record s.monitor { registry = s.registry } in
      let (t, ends, none_left, rights) = disable_all_lem monitor q v in
      let s1 : Subsystems = record s { registry = t.registry; monitor = t } in
      let s2 : Subsystems = clean_hardware s1 in
      let (ids, addresses, mem2, closed) =
        remove_all-mem (record s.hardware { machine = s.machine; registry = t.registry }) in
      let s3 : Subsystems = (clean_software host s2).1 in
      let (done3, ids3, addresses3, off3, mem3) =
        remove_all-unpatched host laws protects
          (record s.software { machine = s2.machine; registry = s2.registry }) in
      let s4 : Subsystems = (clean_interceptor host s3).1 in
      let (done4, hooks, targets, mem4) =
        detach_all-unhooked host laws protects (record s.interceptor { machine = s3.machine }) in
      let (callbacks, off) = disable-remove_all_callbacks s4.registry in
      (
        clean_exceptions s4,
        rw (ends, cleanup)
            (rw
              (
                after_software-ok (clean_software host s2) done3,
                after_interceptor-ok (clean_interceptor host s3) done4,
              )
              refl),
        record {
          monitors = none_left;
          events = closed;
          hardware_ids = ids;
          hardware_addresses = addresses;
          software_ids = ids3;
          software_addresses = addresses3;
          hooks = hooks;
          targets = targets;
          callbacks = callbacks;
          off = off;
          mem =
              mem4
              ∙ ap (restore_all Hooks.target_of Hooks.original_of patch_size s.interceptor.by_id) (
                  mem3
                  ∙ ap (restore_all Bps.address_of Bps.original_of bp_insn_size s.software.by_id)
                      mem2);
        },
        rights,
      )

  -- `cleanup` ends and returns, hands the pending accesses to their callbacks, empties the tables
  -- of monitors, breakpoints and hooks and the list of exception callbacks, and clears the flag of
  -- the exception handler; every address that a monitor watched can be read and written, the event
  -- of every hardware breakpoint is closed, and memory is what taking back every software
  -- breakpoint and then every hook leaves. At most 256 accesses are pending, the rights that are
  -- saved for the watched ranges are to read and write, the JIT runtime gives addresses that are
  -- neither null nor in use, and every `mprotect` succeeds.
  pub cleanup-IsClean :
      Allocates host
      → Protects host
      → (s : Subsystems) (q : List PendingEvent) → Holds s.monitor.ring q
      → SavesReadWrite s.monitor.monitors
      → (u : Subsystems) × (cleanup host s
          ≡ some (deliveries (AccessMonitor.deliver s.monitor.monitors) q, ok tt, u))
        × IsClean s u
  cleanup-IsClean laws protects s q v saved =
      let (u, ends, clears, rights) = cleanup-Clears laws protects s q v in
      (u, ends, record { clears = clears; rights = rights saved })
