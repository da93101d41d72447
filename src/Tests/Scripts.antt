-- ===== src/Tests/Scripts.antt =====
-- The runtime of scripts and the injectee on concrete states.
use better_ncm.Base.{
  ℕ, ◌≡◌, ◌≤◌, refl, true, false, none, some, List, [], ◌∷◌, ok, Bool, All, lookup, erase, insert,
}
use better_ncm.Hex.{to_hex_addr, hex_loop, hex_char}
use better_ncm.Relocator.{
  make_writable_and_patch, relocate_insn, relocate_loop, add_block, finish_relocated,
  build_trampoline, build_relocated_code,
}
use better_ncm.Disassembler.{disassemble_one, analyze_instruction}
use better_ncm.PendingRing.Queue.{deliveries}
use better_ncm.AccessMonitor.{AccessCall, deliver}
use better_ncm.Breakpoint
use better_ncm.Interceptor
use better_ncm.Runtime.{Subsystems, cleanup}
use better_ncm.Runtime.Cleanup.{IsClean, cleanup-IsClean}
use better_ncm.Runtime.Overlap.{
  software_of, with_software, interceptor_of, with_interceptor, Overlaps, cleanup-int3,
}
use better_ncm.Injectee.{Answers, watch_rounds}
use better_ncm.Injectee.Reload.{AfterReset, IsOfSome, watch_rounds-IsOfSome}
use better_ncm.Injectee.Threads.{
  World, start, running, finished, watching, in_round, ended, is_running, flag_set, done,
  begin_round, round_ends, set_flag, watch_ends, Steps, one_more, no_step, stay, go,
}
use better_ncm.Injectee.Shutdown.{leaked, IsLeaked, GoesOn, unload-ends, leaked-Steps}
use better_ncm.Tests.Hosts.{test_host, test_host-Allocates, test_host-Protects, nops, registry}
use better_ncm.Tests.Monitors.{
  no_monitors, empty_ring-Holds, event, two_pending, two_pending-Holds, two_pending-SavesReadWrite,
}
use better_ncm.Tests.Hardware.{none_set, one_set}
use better_ncm.Tests.Breakpoints.{no_breakpoints}
use better_ncm.Tests.Hooks.{fns, no_hooks}

abbrev nothing_set : Subsystems
nothing_set = record {
  machine = record { mem = nops; blocks = [] };
  registry = registry;
  monitor = no_monitors;
  hardware = none_set;
  software = no_breakpoints;
  interceptor = no_hooks;
  lifecycle = record { next_id = 1; callbacks = [] };
}

-- A breakpoint at 64, and a hook over it
abbrev with_breakpoint : Breakpoint.State
with_breakpoint = (Breakpoint.set test_host 7 0x1000 64 (some 5) (software_of nothing_set)).1

abbrev with_hook : Interceptor.State
with_hook =
    (Interceptor.attach test_host fns 64 (some 6) none
      (interceptor_of (with_software with_breakpoint nothing_set))).1

-- A monitor with two pending accesses, a hardware breakpoint, a breakpoint and a hook
abbrev all_set : Subsystems
all_set = record nothing_set {
  machine = with_hook.machine;
  monitor = two_pending;
  hardware = one_set;
  software = with_breakpoint;
  interceptor = with_hook;
}

cleanup-IsClean_example :
    (u : Subsystems) × (cleanup test_host all_set
      ≡ some (deliveries (deliver two_pending.monitors) (event 1 ∷ event 2 ∷ []), ok tt, u))
    × IsClean all_set u
cleanup-IsClean_example =
    cleanup-IsClean test_host test_host-Allocates test_host-Protects all_set
      (event 1 ∷ event 2 ∷ []) two_pending-Holds two_pending-SavesReadWrite

overlapped :
    Overlaps test_host test_host-Allocates test_host-Protects 7 0x1000 fns nothing_set 64
      with_breakpoint with_hook
unfolding Breakpoint.set Breakpoint.set_installed Breakpoint.set_relocated Breakpoint.set_built
    Breakpoint.set_patched Breakpoint.register Breakpoint.ensure_handler_installed
    Interceptor.attach Interceptor.attach_patched Interceptor.attach_built
    Interceptor.attach_relocated make_writable_and_patch relocate_insn relocate_loop add_block
    finish_relocated build_trampoline build_relocated_code disassemble_one analyze_instruction
    to_hex_addr hex_loop hex_char lookup insert erase
overlapped = record {
  no_breakpoint = refl;
  no_hook = refl;
  on_hit = some 5;
  on_enter = some 6;
  on_leave = none;
  bp_id = b'0' ∷ b'x' ∷ b'1' ∷ [];
  hook_id = b'0' ∷ b'x' ∷ b'1' ∷ [];
  set_first = refl;
  attached = refl;
}

cleanup-int3_example :
    (calls : List AccessCall) × (u : Subsystems) × (cleanup test_host
        (with_interceptor with_hook (with_software with_breakpoint nothing_set))
      ≡ some (calls, ok tt, u))
    × (u.machine.mem 64 ≡ 0xCC)
cleanup-int3_example =
    cleanup-int3 test_host test_host-Allocates test_host-Protects 7 0x1000 fns nothing_set 64
      with_breakpoint with_hook [] overlapped empty_ring-Holds

-- A file that changes at time 2, and a script that fails
abbrev answers : ℕ → Answers
answers time = record {
  open_file = λ path. some (b'x' ∷ []);
  last_write_time = λ path. ok time;
  reset_throws = none;
  eval_script = λ content name. some (b'e' ∷ []);
}

abbrev rounds : List (Bool × Answers)
rounds = (true, answers 1) ∷ (true, answers 2) ∷ []

watch_rounds-IsOfSome_example :
    let (events, last) = watch_rounds rounds (b'p' ∷ []) 1 in
    AfterReset false events × All (IsOfSome (b'p' ∷ []) rounds) events
watch_rounds-IsOfSome_example = watch_rounds-IsOfSome (b'p' ∷ []) rounds 1

-- The watcher runs, and nobody has unloaded the library.
abbrev watched : World
watched = record start { main = finished; watcher = watching; runtime = true }

abbrev unloading : World
unloading = record watched { exit = flag_set; stop_watching = true }

-- The library is unloaded while the watcher runs a script, which ends then.
unload-ends_example :
    (2 ≤ 4)
    × GoesOn (record unloading { watcher = ended })
    × (flag_set ≡ done → (is_running ended ≡ false) × (true ≡ false))
unload-ends_example =
    let running_script : World = record watched { watcher = in_round } in
    unload-ends 2 watched running_script (record unloading { watcher = in_round })
      (record unloading { watcher = ended }) refl refl
      (one_more _ _ _ (no_step watched) (begin_round watched refl refl))
      (set_flag running_script refl) (λ e. cc)
      (go _ _ _ _ (go _ _ _ _ (stay _) (round_ends (record unloading { watcher = in_round }) refl))
        (watch_ends unloading refl refl))

abbrev before_watcher : World
before_watcher = record start { main = running; runtime = true }

leaked-Steps_example :
    Steps before_watcher (leaked before_watcher) × IsLeaked before_watcher (leaked before_watcher)
leaked-Steps_example =
    leaked-Steps before_watcher (leaked before_watcher) refl refl refl (no_step _)
