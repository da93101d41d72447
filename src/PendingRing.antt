-- ===== src/PendingRing.antt =====
-- The ring of pending events of src/core/bindings/native_memory_access_monitor.cc: written by the
-- signal handler, read by `drainPending`.
pub mod Queue
pub mod Refine
pub mod Overflow
use better_ncm.Base.{
  ℕ, zero, suc, ◌+◌, ◌-◌, ◌%◌, ◌^◌, Bool, true, false, Option, none, some, List, [], ◌++◌, ◌==◌,
  if◌then◌else◌,
}

-- What an `Entry` holds besides `ready`
pub record PendingEvent : Type 0 where
  pub monitor_id : ℕ
  pub fault_address : ℕ
  pub page_base : ℕ
  pub range_index : ℕ
  pub access_type_code : ℕ

pub record Entry : Type 0 where
  pub ready : Bool
  pub event : PendingEvent

-- `PendingRing`; the indices are `uint32_t`.
pub record Ring : Type 0 where
  pub entries : ℕ → Entry
  pub write_idx : ℕ
  pub read_idx : ℕ

abbrev pub max_pending : ℕ
max_pending = 256

unfoldable pub set_entry : (ℕ → Entry) → ℕ → Entry → ℕ → Entry
set_entry entries i entry j = if i == j then entry else entries j

-- The handler's write
unfoldable pub record_event : PendingEvent → Ring → Ring
record_event event r = record r {
  entries =
      set_entry r.entries (r.write_idx % max_pending) (record { ready = true; event = event });
  write_idx = (r.write_idx + 1) % 2 ^ 32;
}

-- The end of a round of the loop of `drainPending`
unfoldable pub release_front : Ring → Ring
release_front r = record r {
  entries =
      set_entry r.entries (r.read_idx % max_pending)
        (record (r.entries (r.read_idx % max_pending)) { ready = false });
  read_idx = (r.read_idx + 1) % 2 ^ 32;
}

module _ {ℓ} {A : Type ℓ} (deliver : PendingEvent → List A) where
  unfoldable pub counted : List A → Option (ℕ × List A × Ring) → Option (ℕ × List A × Ring)
  counted xs none = none
  counted xs (some (n, ys, r)) = some (suc n, xs ++ ys, r)

  -- The loop of `drainPending` on fuel, up to the write index that it has read before the first
  -- round: the number of events, what their delivery does, and the ring.
  unfoldable pub drain_loop : ℕ → ℕ → Ring → Option (ℕ × List A × Ring)
  drain_loop zero write_idx r = if r.read_idx == write_idx then some (0, [], r) else none
  drain_loop (suc fuel) write_idx r =
      let entry = r.entries (r.read_idx % max_pending) in
      let rest = drain_loop fuel write_idx (release_front r) in
      if r.read_idx == write_idx
      then some (0, [], r)
      else if entry.ready
      then counted (deliver entry.event) rest
      else some (0, [], r)

  -- Every round moves the read index on by one.
  unfoldable pub drain : Ring → Option (ℕ × List A × Ring)
  drain r = drain_loop ((r.write_idx + 2 ^ 32 - r.read_idx) % 2 ^ 32) r.write_idx r
