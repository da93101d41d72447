-- ===== src/PendingRing/Overflow.antt =====
-- A fault while 256 events are pending.
use mathlib.Core.Path.{subst}
use better_ncm.Base.{
  ℕ, zero, suc, ◌+◌, ◌-◌, ◌%◌, ◌^◌, ◌<◌, ◌≤◌, ◌≡◌, refl, ap, ◌∙◌, Bool, true, false, some, List, [],
  ◌∷◌, ◌++◌, arith, ◌==◌, if◌then◌else◌, length,
}
use better_ncm.PendingRing.{
  PendingEvent, Entry, Ring, set_entry, record_event, release_front, counted, drain_loop, drain,
}
use better_ncm.PendingRing.Queue.{
  Queued, Holds, Queued-set_entry, Queued-mod, drain_loop-round, deliveries,
}

full-at :
    (e x : PendingEvent) (r : Ring) (q : List PendingEvent)
    → Holds r (x ∷ q)
    → length q ≡ 255
    → (r.write_idx % 256) ≡ r.read_idx % 256
full-at e x r q v full = omega (arith, v.write, v.read_lt)

-- From the read index on the ring holds `q`, then an entry that is not ready, and the write index is
-- further on.
pub record Blocked (r : Ring) (q : List PendingEvent) (write_idx : ℕ) : Type 0 where
  pub read_lt : r.read_idx < 2 ^ 32
  pub fits : length q < 256
  pub queued : Queued r.entries r.read_idx q
  pub not_ready : (r.entries ((r.read_idx + length q) % 256)).ready ≡ false
  pub beyond : write_idx ≡ (r.read_idx + length q + 1) % 2 ^ 32

release_front-Blocked :
    (e : PendingEvent) (r : Ring) (q : List PendingEvent) (w : ℕ)
    → Blocked r (e ∷ q) w
    → Blocked (release_front r) q w
unfolding release_front set_entry
release_front-Blocked e r q w v =
    let old : Entry = record (r.entries (r.read_idx % 256)) { ready = false } in
    let len : suc (length q) < 256 = v.fits in
    let lt = v.read_lt in
    let at : ((r.read_idx + 1) % 2 ^ 32 + length q) % 256 ≡ (r.read_idx + suc (length q)) % 256 =
      omega arith in
    let other : ((r.read_idx % 256) == ((r.read_idx + suc (length q)) % 256)) ≡ false =
      ground arith in
    record {
      read_lt = omega arith;
      fits = omega arith;
      queued =
          Queued-mod (set_entry r.entries (r.read_idx % 256) old) (suc r.read_idx)
            ((r.read_idx + 1) % 2 ^ 32) q (omega arith)
            (Queued-set_entry r.entries old (suc r.read_idx) (r.read_idx % 256) (255 - length q) q
              (omega arith) (omega arith) v.queued.1);
      not_ready = rw (at, other) v.not_ready;
      beyond = omega (arith, v.beyond);
    }

-- Faults one after another
pub record_all : List PendingEvent → Ring → Ring
record_all [] r = r
record_all (f ∷ faults) r = record_all faults (record_event f r)

-- The entry at the read index is not ready, and the write index is `d` further on.
record Waits (r : Ring) (d : ℕ) : Type 0 where
  read_lt : r.read_idx < 2 ^ 32
  not_ready : (r.entries (r.read_idx % 256)).ready ≡ false
  write : r.write_idx ≡ (r.read_idx + d) % 2 ^ 32

Blocked-Waits : (t : Ring) (w : ℕ) → t.write_idx ≡ w → Blocked t [] w → Waits t 1
Blocked-Waits t w still v =
    let at : t.read_idx + 0 ≡ t.read_idx = omega arith in
    let beyond = v.beyond in
    record { read_lt = v.read_lt; not_ready = rw at at v.not_ready; write = omega arith }

-- Fewer than 256 faults do not reach that entry.
record_event-Waits :
    (f : PendingEvent) (r : Ring) (d : ℕ)
    → Waits r (suc d)
    → suc d < 256
    → Waits (record_event f r) (suc (suc d))
unfolding record_event set_entry
record_event-Waits f r d v small =
    let lt = v.read_lt in
    let ahead = v.write in
    let other : ((r.write_idx % 256) == (r.read_idx % 256)) ≡ false = ground arith in
    record { read_lt = lt; not_ready = rw other v.not_ready; write = omega arith }

record_all-Waits :
    (faults : List PendingEvent) (r : Ring) (d : ℕ)
    → Waits r (suc d)
    → d + length faults < 256
    → Waits (record_all faults r) (suc (d + length faults))
unfolding record_all
record_all-Waits [] r d v small = subst (λ n. Waits r (suc n)) (omega arith) v
record_all-Waits (f ∷ faults) r d v small =
    subst (λ n. Waits (record_all faults (record_event f r)) (suc n)) (omega arith)
      (record_all-Waits faults (record_event f r) (suc d) (record_event-Waits f r d v (omega arith))
        (omega arith))

module _ {ℓ} {A : Type ℓ} (deliver : PendingEvent → List A) where
  -- The loop stops in front of the entry that is not ready.
  drain_loop-Blocked :
      (r : Ring) (q : List PendingEvent) (fuel w : ℕ)
      → Blocked r q w
      → length q < fuel
      → (t : Ring) × (drain_loop deliver fuel w r ≡ some (length q, deliveries deliver q, t))
        × (t.write_idx ≡ r.write_idx)
        × Blocked t [] w
  unfolding drain_loop counted deliveries release_front
  drain_loop-Blocked r q zero w v h = absurd (omega arith)
  drain_loop-Blocked r [] (suc fuel) w v h =
      let at : r.read_idx + 0 ≡ r.read_idx = omega arith in
      let more : (r.read_idx == w) ≡ false = ground (arith, v.beyond, v.read_lt) in
      let late : (r.entries (r.read_idx % 256)).ready ≡ false = rw at at v.not_ready in
      (r, rw (more, late) refl, refl, v)
  drain_loop-Blocked r (e ∷ q) (suc fuel) w v h =
      let more : (r.read_idx == w) ≡ false = ground (arith, v.beyond, v.read_lt, v.fits) in
      let (t, eq, same, last) =
        drain_loop-Blocked (release_front r) q fuel w (release_front-Blocked e r q w v)
          (omega arith) in
      (
        t,
        drain_loop-round deliver r e fuel w more v.queued.0 ∙ ap (counted deliver (deliver e)) eq,
        same,
        last,
      )

  -- The first round on a ring in which a 257th event has taken the place of the first
  overwritten :
      (e x : PendingEvent) (r : Ring) (q : List PendingEvent)
      → Holds r (x ∷ q)
      → length q ≡ 255
      → ((record_event e r).entries (r.read_idx % 256) ≡ record { ready = true; event = e })
        × Blocked (release_front (record_event e r)) q (record_event e r).write_idx
  unfolding record_event release_front set_entry
  overwritten e x r q v full =
      let new : Entry = record { ready = true; event = e } in
      let old : Entry = record { ready = false; event = e } in
      let at : r.write_idx % 256 ≡ r.read_idx % 256 = full-at e x r q v full in
      let hit : ((r.write_idx % 256) == (r.read_idx % 256)) ≡ true = ground arith in
      let lt = v.read_lt in
      let last : ((r.read_idx + 1) % 2 ^ 32 + length q) % 256 ≡ r.read_idx % 256 = omega arith in
      let same : ((r.read_idx % 256) == (r.read_idx % 256)) ≡ true = ground arith in
      let one = set_entry r.entries (r.write_idx % 256) new in
      let two =
        set_entry one (r.read_idx % 256) (record (one (r.read_idx % 256)) { ready = false }) in
      (
        rw hit refl,
        record {
          read_lt = omega arith;
          fits = omega arith;
          queued = Queued-mod two (suc r.read_idx) ((r.read_idx + 1) % 2 ^ 32) q (omega arith) (
              Queued-set_entry one _ (suc r.read_idx) (r.read_idx % 256) 0 q (omega arith)
                (omega arith)
                (Queued-set_entry r.entries new (suc r.read_idx) (r.write_idx % 256) 0 q
                  (omega arith) (omega (arith, at)) v.queued.1));
          not_ready = rw (last, same) refl;
          beyond = omega (arith, v.write);
        },
      )

  late :
      (r : Ring) (fuel w : ℕ)
      → (r.read_idx == w) ≡ false
      → (r.entries (r.read_idx % 256)).ready ≡ false
      → drain_loop deliver (suc fuel) w r ≡ some (0, [], r)
  unfolding drain_loop
  late r fuel w more wait =
      let entry = r.entries (r.read_idx % 256) in
      let rest = drain_loop deliver fuel w (release_front r) in
      let round = λ (b c : Bool).
        if b
        then some (0, [], r)
        else if c
        then counted deliver (deliver entry.event) rest
        else some (0, [], r) in
      ap (λ b. round b entry.ready) more ∙ ap (round false) wait

  Waits-drain :
      (r : Ring) (d : ℕ) → Waits r (suc d) → suc d ≤ 256 → drain deliver r ≡ some (0, [], r)
  unfolding drain
  Waits-drain r d v small =
      let lt = v.read_lt in
      let ahead = v.write in
      let fuel : (r.write_idx + 2 ^ 32 - r.read_idx) % 2 ^ 32 ≡ suc d = omega arith in
      let more : (r.read_idx == r.write_idx) ≡ false = ground arith in
      ap (λ n. drain_loop deliver n r.write_idx r) fuel ∙ late r d r.write_idx more v.not_ready

  -- A fault while 256 events are pending takes the place of the oldest of them: the next drain
  -- delivers the new event first and loses the oldest, and after it, as long as fewer than 256
  -- faults have followed, a drain delivers none of their events and leaves the ring as it is.
  pub drain-overflow :
      (e x : PendingEvent) (r : Ring) (q : List PendingEvent)
      → Holds r (x ∷ q)
      → length q ≡ 255
      → (t : Ring) × (drain deliver (record_event e r)
          ≡ some (256, deliver e ++ deliveries deliver q, t))
        × ((faults : List PendingEvent)
            → length faults < 256
            → drain deliver (record_all faults t) ≡ some (0, [], record_all faults t))
  unfolding drain counted record_event release_front
  drain-overflow e x r q v full =
      let s = record_event e r in
      let (front, rest) = overwritten e x r q v full in
      let lt = v.read_lt in
      let w = s.write_idx in
      let wrote : w ≡ (r.read_idx + 257) % 2 ^ 32 = recorded in
      let fuel : (w + 2 ^ 32 - r.read_idx) % 2 ^ 32 ≡ suc 256 = omega arith in
      let more : (r.read_idx == w) ≡ false = ground (arith, wrote) in
      let (t, eq, same, last) = drain_loop-Blocked (release_front s) q 256 w rest (omega arith) in
      let still : t.write_idx ≡ w = same in
      (
        t,
        ap (λ n. drain_loop deliver n w s) fuel
            ∙ drain_loop-round deliver s e 256 w more front
            ∙ ap (counted deliver (deliver e)) eq
            ∙ ap (λ n. some (suc n, deliver e ++ deliveries deliver q, t)) full,
        λ faults few.
            Waits-drain (record_all faults t) (length faults)
              (subst (λ n. Waits (record_all faults t) (suc n)) (omega arith)
                (record_all-Waits faults t 0 (Blocked-Waits t w still last) (omega arith)))
              (omega arith),
      )
    where
      recorded : (record_event e r).write_idx ≡ (r.read_idx + 257) % 2 ^ 32
      recorded = omega (arith, v.write, full)
