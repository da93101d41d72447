-- ===== src/AccessMonitor/Disable.antt =====
-- `disable`, `disableAll` and `drainPending`: what is taken back, and what is delivered.
use better_ncm.Base.{
  ℕ, ◌+◌, ◌^◌, ◌<◌, ◌≡◌, refl, ap, ◌∙◌, Bool, true, none, some, List, [], arith, ◌==◌, length, ok,
  lookup, lookup-insert_self, erase-insert, Option-cases, inl, inr,
}
use better_ncm.Base.Int.{ℤ}
use better_ncm.Hex.{to_hex_addr}
use better_ncm.Hex.RoundTrip.{parse_hex_addr-to_hex_addr}
use better_ncm.Callbacks.{Callback}
use better_ncm.Exceptions.{access_violation, bus_error}
use better_ncm.Exceptions.Dispatch.{HasOldIds}
use better_ncm.Exceptions.Pairs.{ref_two}
use better_ncm.PendingRing.{PendingEvent, Ring, drain}
use better_ncm.PendingRing.Queue.{Holds, deliveries, drain-Holds, drain-Ends}
use better_ncm.WatchedPages.{prot_none, prot_read_write, watch_loop}
use better_ncm.WatchedPages.Rights.{
  rights_at, is_covered, watch_loop-IsReadWrite, watch_loop-rights, restore_ranges-rights,
}
use better_ncm.AccessMonitor.{
  State, AccessCall, enable_watched, enable, deliver, drain_pending, release_monitor, disable_id,
  disable_drained, disable,
}

-- Where at most 256 events are pending, `drainPending` ends, hands each of them once and the oldest
-- first to the callback of its monitor, returns their number and leaves none.
pub drain_pending-Holds :
    (s : State) (q : List PendingEvent)
    → Holds s.ring q
    → (t : Ring) × (drain_pending s
        ≡ some (length q, deliveries (deliver s.monitors) q, record s { ring = t }))
      × Holds t []
unfolding drain_pending
drain_pending-Holds s q v =
    let (t, eq, empty) = drain-Holds (deliver s.monitors) s.ring q v in
    (t, rw (eq, drain_pending) refl, empty)

module _ (callback page : ℕ) (addresses : List ℕ) (sizes : List ℤ) (on_access : Callback)
    (s : State) where
  -- An address is watched by the monitor that `enable` makes.
  pub is_watched : ℕ → Bool
  is_watched a = is_covered a (watch_loop page 0 addresses sizes s.protections).0

  -- No access to a watched address is allowed after `enable`.
  pub enable-rights :
      (a : ℕ)
      → length addresses ≡ length sizes
      → is_watched a ≡ true
      → rights_at a (enable callback page addresses sizes on_access s).1.protections
        ≡ some prot_none
  unfolding is_watched enable enable_watched watch_loop
  enable-rights a lengths h =
      let same : (length addresses == length sizes) ≡ true = ground arith in
      rw same (watch_loop-rights a page 0 addresses sizes s.protections h)

  -- What `disable` leaves of a monitor
  pub record IsUndone (u : State) : Type 0 where
    pub monitors : u.monitors ≡ s.monitors
    pub handlers : u.registry.handlers ≡ s.registry.handlers
    pub rights : (a : ℕ) → is_watched a ≡ true → rights_at a u.protections ≡ some prot_read_write

  enable-watched :
      length addresses ≡ length sizes
      → enable callback page addresses sizes on_access s
        ≡ enable_watched callback on_access s (watch_loop page 0 addresses sizes s.protections)
  unfolding enable
  enable-watched lengths =
      let same : (length addresses == length sizes) ≡ true = ground arith in rw same refl

  disable_id-enable :
      (ring : Ring)
      → lookup s.next_mon_id s.monitors ≡ none
      → HasOldIds s.registry
      → s.registry.next_id + 1 < 2 ^ 64
      → let t =
          (enable_watched callback on_access s
            (watch_loop page 0 addresses sizes s.protections)).1 in
        IsUndone (disable_id s.next_mon_id (record t { ring = ring }))
  unfolding is_watched enable_watched disable_id release_monitor
  disable_id-enable ring fresh old small =
      rw (lookup-insert_self s.next_mon_id, disable_id)
        (record {
          monitors = erase-insert s.next_mon_id _ s.monitors fresh;
          handlers = ref_two access_violation bus_error callback s.registry old small;
          rights = λ a h.
              restore_ranges-rights a _ _
                (watch_loop-IsReadWrite page 0 addresses sizes s.protections) h;
        })

  -- `disable` on any state that has a bounded ring
  disable-drained :
      (text : List ℕ) (t : State)
      → t.ring.read_idx < 2 ^ 32
      → t.ring.write_idx < 2 ^ 32
      → (calls : List AccessCall) × (ring : Ring) × (disable text t ≡ (
          let (result, u) = disable_drained text (record t { ring = ring }) in
          some (calls, result, u)))
  unfolding disable drain_pending
  disable-drained text t hr hw = elim (Option-cases (drain (deliver t.monitors) t.ring)) [
    | inl q ↦ absurd (drain-Ends (deliver t.monitors) t.ring hr hw q)
    | inr ((n, calls, ring), q) ↦ (calls, ring, rw (q, drain_pending, disable) refl)
  ]

  -- `disable` with the id that `enable` returned returns and undoes the call: the monitors and the
  -- exception handlers are as they were, and every address that was watched can be read and
  -- written. As many sizes as addresses are given, the next id is free and below 2^64, the ids of
  -- the registry are below its counter, which does not wrap round, and the indices of the ring are
  -- 32-bit numbers.
  pub disable-enable :
      length addresses ≡ length sizes
      → s.next_mon_id < 2 ^ 64
      → lookup s.next_mon_id s.monitors ≡ none
      → HasOldIds s.registry
      → s.registry.next_id + 1 < 2 ^ 64
      → s.ring.read_idx < 2 ^ 32
      → s.ring.write_idx < 2 ^ 32
      → let (result, t) = enable callback page addresses sizes on_access s in
        (result ≡ ok (to_hex_addr s.next_mon_id))
        × ((calls : List AccessCall) × (u : State) × (disable (to_hex_addr s.next_mon_id) t
              ≡ some (calls, ok tt, u))
            × IsUndone u)
  unfolding enable_watched disable_drained
  disable-enable lengths id fresh old small hr hw =
      let t : State =
        (enable_watched callback on_access s (watch_loop page 0 addresses sizes s.protections)).1 in
      let (calls, ring, eq) = disable-drained (to_hex_addr s.next_mon_id) t hr hw in
      let u = disable_id s.next_mon_id (record t { ring = ring }) in
      let done : disable_drained (to_hex_addr s.next_mon_id) (record t { ring = ring })
          ≡ (ok tt, u) =
        rw (parse_hex_addr-to_hex_addr s.next_mon_id id, disable_drained) refl in
      rw (enable-watched lengths) (
        refl,
        (
          calls,
          u,
          eq ∙ ap (λ p. some (calls, p.0, p.1)) done,
          disable_id-enable ring fresh old small,
        ),
      )
