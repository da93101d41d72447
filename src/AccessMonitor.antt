-- ===== src/AccessMonitor.antt =====
-- src/core/bindings/native_memory_access_monitor.cc on Linux: the monitors, the handler of the faults
-- on their pages, and the events that `drainPending` hands to the callbacks.
pub mod Faults
pub mod Disable
use better_ncm.Base.{
  ℕ, ◌+◌, ◌%◌, ◌^◌, Bool, true, false, not, Option, none, some, List, [], ◌∷◌, ◌==◌, if◌then◌else◌,
  length, Outcome, ok, thrown, lookup, insert, erase,
}
use better_ncm.Base.Int.{ℤ}
use better_ncm.Hex.{NumberError, to_hex_addr, parse_hex_addr}
use better_ncm.Callbacks.{Callback}
use better_ncm.Exceptions.{
  AccessType, read_access, write_access, execute_access, unknown_access, access_violation,
  bus_error, Context, Registry, register_handler, unregister_handler, ref_enable, ref_disable,
}
use better_ncm.PendingRing.{PendingEvent, Ring, record_event, drain}
use better_ncm.WatchedPages.{
  WatchedRange, Protection, set_protection, fire_range, watch_loop, restore_ranges,
}

pub record MonitorEntry : Type 0 where
  pub id : ℕ
  pub ranges : List WatchedRange
  pub on_access : Callback
  pub segv_handler_id : ℕ
  pub bus_handler_id : ℕ

-- The globals, with the exception registry and the calls of `mprotect`, the last one first
pub record State : Type 0 where
  pub registry : Registry
  pub next_mon_id : ℕ
  pub monitors : List (ℕ × MonitorEntry)
  pub ring : Ring
  pub protections : List Protection

-- A call of `onAccess` with its arguments. What it throws is swallowed.
pub record AccessCall : Type 0 where
  pub callback : ℕ
  pub fault_address : ℕ
  pub page_base : ℕ
  pub access_type : List ℕ
  pub range_index : ℕ

pub data MonitorError : Type 0 where
  different_lengths : MonitorError
  bad_monitor_id : NumberError → MonitorError

abbrev pub read_text : List ℕ
read_text = b'r' ∷ b'e' ∷ b'a' ∷ b'd' ∷ []

abbrev pub write_text : List ℕ
write_text = b'w' ∷ b'r' ∷ b'i' ∷ b't' ∷ b'e' ∷ []

abbrev pub execute_text : List ℕ
execute_text = b'e' ∷ b'x' ∷ b'e' ∷ b'c' ∷ b'u' ∷ b't' ∷ b'e' ∷ []

abbrev pub unknown_text : List ℕ
unknown_text = b'u' ∷ b'n' ∷ b'k' ∷ b'n' ∷ b'o' ∷ b'w' ∷ b'n' ∷ []

unfoldable pub access_code_to_string : ℕ → List ℕ
access_code_to_string code =
    if code == 1
    then read_text
    else if code == 2
    then write_text
    else if code == 3
    then execute_text
    else unknown_text

unfoldable pub access_code : AccessType → ℕ
access_code read_access = 1
access_code write_access = 2
access_code execute_access = 3
access_code unknown_access = 0

-- The outer loop, over the monitors
unfoldable pub scan_monitors :
    ℕ → List (ℕ × MonitorEntry) → Option (MonitorEntry × WatchedRange × List (ℕ × MonitorEntry))
scan_monitors fault_addr [] = none
scan_monitors fault_addr ((id, monitor) ∷ monitors) =
    let later : Option (MonitorEntry × WatchedRange × List (ℕ × MonitorEntry)) =
      elim (scan_monitors fault_addr monitors) [
        | none ↦ none
        | some (m, hit, ms) ↦ some (m, hit, (id, monitor) ∷ ms)
      ] in
    elim (fire_range fault_addr monitor.ranges) [
      | none ↦ later
      | some (hit, rs) ↦ some (monitor, hit, (id, record monitor { ranges = rs }) ∷ monitors)
    ]

pub pending_event : MonitorEntry → WatchedRange → Context → PendingEvent
unfolding access_code
pending_event monitor range ctx = record {
  monitor_id = monitor.id;
  fault_address = ctx.fault_address;
  page_base = range.page_base;
  range_index = range.range_index;
  access_type_code = access_code ctx.access_type;
}

-- `monitorSegvHandler`, once a range is found
unfoldable pub take_fault :
    State → Context → MonitorEntry → WatchedRange → List (ℕ × MonitorEntry) → State
unfolding set_protection pending_event
take_fault s ctx monitor range monitors = record s {
  monitors = monitors;
  ring = record_event (pending_event monitor range ctx) s.ring;
  protections = set_protection range.page_base range.page_size range.original_prot s.protections;
}

-- `monitorSegvHandler`; it does not change the context.
unfoldable pub monitor_segv_handler : State → Context → Bool × State
monitor_segv_handler s ctx = elim (scan_monitors ctx.fault_address s.monitors) [
  | none ↦ (false, s)
  | some (monitor, range, monitors) ↦ (true, take_fault s ctx monitor range monitors)
]

-- `enable`, once the ranges are watched; `callback` is the number of `monitorSegvHandler` among the
-- handlers.
unfoldable pub enable_watched :
    ℕ
    → Callback
    → State
    → List WatchedRange × List Protection
    → Outcome MonitorError (List ℕ) × State
enable_watched callback on_access s (ranges, calls) =
    let (segv, r1) = register_handler access_violation callback (ref_enable s.registry) in
    let (bus, r2) = register_handler bus_error callback r1 in
    let monitor : MonitorEntry = record {
      id = s.next_mon_id;
      ranges = ranges;
      on_access = on_access;
      segv_handler_id = segv;
      bus_handler_id = bus;
    } in
    (
      ok (to_hex_addr s.next_mon_id),
      record s {
        registry = r2;
        next_mon_id = (s.next_mon_id + 1) % 2 ^ 64;
        monitors = insert s.next_mon_id monitor s.monitors;
        protections = calls;
      },
    )

unfoldable pub enable :
    ℕ → ℕ → List ℕ → List ℤ → Callback → State → Outcome MonitorError (List ℕ) × State
enable callback page addresses sizes on_access s =
    if not (length addresses == length sizes)
    then (thrown different_lengths, s)
    else enable_watched callback on_access s (watch_loop page 0 addresses sizes s.protections)

-- What `drainPending` does with one event
unfoldable pub deliver : List (ℕ × MonitorEntry) → PendingEvent → List AccessCall
unfolding access_code_to_string
deliver monitors event = elim (lookup event.monitor_id monitors) [
  | none ↦ []
  | some monitor ↦ elim monitor.on_access [
    | none ↦ []
    | some f ↦
        record {
          callback = f;
          fault_address = event.fault_address;
          page_base = event.page_base;
          access_type = access_code_to_string event.access_type_code;
          range_index = event.range_index;
        }
        ∷ []
  ]
]

-- `drainPending`: the count, the calls, and the state; `none` if the loop would need more fuel.
unfoldable pub drain_pending : State → Option (ℕ × List AccessCall × State)
drain_pending s = elim (drain (deliver s.monitors) s.ring) [
  | none ↦ none
  | some (count, calls, ring) ↦ some (count, calls, record s { ring = ring })
]

-- The end of a monitor, but for its place in the map
unfoldable pub release_monitor : MonitorEntry → State → State
release_monitor monitor s = record s {
  registry = ref_disable (
      unregister_handler monitor.bus_handler_id
        (unregister_handler monitor.segv_handler_id s.registry));
  protections = restore_ranges monitor.ranges s.protections;
}

unfoldable pub disable_id : ℕ → State → State
disable_id id s = elim (lookup id s.monitors) [
  | none ↦ s
  | some monitor ↦ let t = release_monitor monitor s in record t { monitors = erase id s.monitors }
]

-- `disable`, from the drained ring on
unfoldable pub disable_drained : List ℕ → State → Outcome MonitorError (Unit {0}) × State
disable_drained text s = elim (parse_hex_addr text) [
  | thrown e ↦ (thrown (bad_monitor_id e), s)
  | ok id ↦ (ok tt, disable_id id s)
]

unfoldable pub disable :
    List ℕ → State → Option (List AccessCall × Outcome MonitorError (Unit {0}) × State)
disable text s = elim (drain_pending s) [
  | none ↦ none
  | some (count, calls, t) ↦ let (result, u) = disable_drained text t in some (calls, result, u)
]

unfoldable pub release_loop : List (ℕ × MonitorEntry) → State → State
release_loop [] s = s
release_loop ((id, monitor) ∷ rest) s = release_loop rest (release_monitor monitor s)

unfoldable pub disable_all : State → Option (List AccessCall × State)
disable_all s = elim (drain_pending s) [
  | none ↦ none
  | some (count, calls, t) ↦ some (calls, record (release_loop t.monitors t) { monitors = [] })
]
