-- ===== src/Tests/Monitors.antt =====
-- The ring of events and the access monitor on concrete states.
use better_ncm.Base.{
  ℕ, zero, suc, ◌+◌, ◌<◌, ◌≡◌, refl, ap, true, false, some, List, [], ◌∷◌, ◌++◌, arith, length, ok,
  lookup, insert, erase,
}
use better_ncm.Base.Int.{pos}
use better_ncm.Hex.{to_hex_addr}
use better_ncm.Exceptions.{Context, access_violation, write_access}
use better_ncm.PendingRing.{PendingEvent, Entry, Ring, record_event, drain}
use better_ncm.PendingRing.Queue.{Queued, Holds, deliveries, record_event-Holds}
use better_ncm.PendingRing.Refine.{
  Command, fault, drain_all, run_ring, run_queue, run_ring-run_queue,
}
use better_ncm.PendingRing.Overflow.{record_all, drain-overflow}
use better_ncm.WatchedPages.{watched_range}
use better_ncm.WatchedPages.Bounds.{Covers, watched_range-Covers}
use better_ncm.AccessMonitor.{State, AccessCall, enable, enable_watched, disable}
use better_ncm.AccessMonitor.Disable.{IsUndone, disable-enable}
use better_ncm.Runtime.Released.{SavesReadWrite}
use better_ncm.WatchedPages.Rights.{watch_loop-IsReadWrite}
use better_ncm.Tests.Hosts.{registry}

abbrev pub event : ℕ → PendingEvent
event n = record {
  monitor_id = 1;
  fault_address = 0x2000 + n;
  page_base = 0x2000;
  range_index = n;
  access_type_code = 2;
}

abbrev pub empty_ring : Ring
empty_ring = record {
  entries = λ i. record { ready = false; event = event 0 };
  write_idx = 0;
  read_idx = 0;
}

pub empty_ring-Holds : Holds empty_ring []
empty_ring-Holds = record { read_lt = omega arith; write = refl; fits = omega arith; queued = tt }

abbrev index_of : PendingEvent → List ℕ
index_of e = e.range_index ∷ []

abbrev commands : List Command
commands = fault (event 1) ∷ fault (event 2) ∷ drain_all ∷ fault (event 3) ∷ []

run_ring-run_queue_example :
    (t : Ring) × (run_ring index_of commands empty_ring
      ≡ some ((run_queue index_of commands []).0, t))
    × Holds t (run_queue index_of commands []).1
run_ring-run_queue_example =
    run_ring-run_queue index_of commands empty_ring [] empty_ring-Holds
      (omega arith, (omega arith, (omega arith, tt)))

abbrev copies : ℕ → List PendingEvent
copies zero = []
copies (suc n) = event 1 ∷ copies n

length-copies : (n : ℕ) → length (copies n) ≡ n
length-copies zero = refl
length-copies (suc n) = ap suc (length-copies n)

-- Every entry holds the same event.
abbrev all_ready : ℕ → Entry
all_ready i = record { ready = true; event = event 1 }

all_ready-Queued : (i n : ℕ) → Queued all_ready i (copies n)
all_ready-Queued i zero = tt
all_ready-Queued i (suc n) = (refl, all_ready-Queued (suc i) n)

abbrev full_ring : Ring
full_ring = record { entries = all_ready; write_idx = 256; read_idx = 0 }

full_ring-Holds : Holds full_ring (event 1 ∷ copies 255)
full_ring-Holds = record {
  read_lt = omega arith;
  write = omega (arith, length-copies 255);
  fits = omega (arith, length-copies 255);
  queued = (refl, all_ready-Queued 1 255);
}

drain-overflow_example :
    (t : Ring) × (drain index_of (record_event (event 9) full_ring)
      ≡ some (256, index_of (event 9) ++ deliveries index_of (copies 255), t))
    × ((faults : List PendingEvent)
        → length faults < 256
        → drain index_of (record_all faults t) ≡ some (0, [], record_all faults t))
drain-overflow_example =
    drain-overflow index_of (event 9) (event 1) full_ring (copies 255) full_ring-Holds
      (length-copies 255)

watched_range-Covers_example :
    let r = watched_range 4096 0 0x2010 (pos 5000) in
    Covers 4096 0x2010 5000 r.page_base r.page_size
watched_range-Covers_example = watched_range-Covers 4096 0 0x2010 5000 (omega arith) (omega arith)

abbrev pub no_monitors : State
no_monitors = record {
  registry = registry;
  next_mon_id = 1;
  monitors = [];
  ring = empty_ring;
  protections = [];
}

-- A monitor of the page at 0x2000
abbrev one_monitor : State
one_monitor = (enable 5 4096 (0x2010 ∷ []) (pos 8 ∷ []) (some 3) no_monitors).1

abbrev write_fault : Context
write_fault = record {
  type = access_violation;
  fault_address = 0x2018;
  access_type = write_access;
  pc = 64;
  flags = 0;
}

-- Two events of the monitor are pending.
abbrev pub two_pending : State
two_pending = record one_monitor {
  ring = record_event (event 2) (record_event (event 1) empty_ring);
}

pub two_pending-SavesReadWrite : SavesReadWrite two_pending.monitors
unfolding enable enable_watched insert erase
two_pending-SavesReadWrite =
    (watch_loop-IsReadWrite 4096 0 (0x2010 ∷ []) (pos 8 ∷ []) no_monitors.protections, tt)

pub two_pending-Holds : Holds two_pending.ring (event 1 ∷ event 2 ∷ [])
two_pending-Holds =
    record_event-Holds (event 2) (record_event (event 1) empty_ring) (event 1 ∷ [])
      (record_event-Holds (event 1) empty_ring [] empty_ring-Holds (omega arith)) (omega arith)

disable-enable_example :
    let (result, t) = enable 5 4096 (0x2010 ∷ []) (pos 8 ∷ []) (some 3) no_monitors in
    (result ≡ ok (to_hex_addr 1))
    × ((calls : List AccessCall) × (u : State) × (disable (to_hex_addr 1) t
          ≡ some (calls, ok tt, u))
        × IsUndone 5 4096 (0x2010 ∷ []) (pos 8 ∷ []) (some 3) no_monitors u)
unfolding lookup
disable-enable_example =
    disable-enable 5 4096 (0x2010 ∷ []) (pos 8 ∷ []) (some 3) no_monitors refl (omega arith) refl tt
      (omega arith) (omega arith) (omega arith)
