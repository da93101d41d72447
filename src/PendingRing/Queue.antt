-- ===== src/PendingRing/Queue.antt =====
-- The ring as a queue: what is pending, and the runs of a queue of at most 256 events.
use better_ncm.Base.{
  ℕ, zero, suc, ◌+◌, ◌-◌, ◌%◌, ◌^◌, ◌<◌, ◌≤◌, ◌≡◌, ◌≢◌, refl, sym, ap, ◌∙◌, Bool, true, false,
  Option, none, some, List, [], ◌∷◌, ◌++◌, arith, ◌==◌, if◌then◌else◌, length, length-append,
  Bool-cases, inl, inr,
}
use better_ncm.PendingRing.{
  PendingEvent, Entry, Ring, set_entry, record_event, release_front, counted, drain_loop, drain,
}

-- From index `i` on, the ring holds the events `q`.
abbrev pub Queued : (ℕ → Entry) → ℕ → List PendingEvent → Type 0
Queued entries i [] = Unit {0}
Queued entries i (e ∷ q) =
    (entries (i % 256) ≡ record { ready = true; event = e }) × Queued entries (suc i) q

-- The events pending in a ring are `q`, the oldest first.
pub record Holds (r : Ring) (q : List PendingEvent) : Type 0 where
  pub read_lt : r.read_idx < 2 ^ 32
  pub write : r.write_idx ≡ (r.read_idx + length q) % 2 ^ 32
  pub fits : length q ≤ 256
  pub queued : Queued r.entries r.read_idx q

-- A write to an entry `d` places behind the queue does not change it.
pub Queued-set_entry :
    (entries : ℕ → Entry) (entry : Entry) (i j d : ℕ) (q : List PendingEvent)
    → length q + d < 256
    → j ≡ (i + length q + d) % 256
    → Queued entries i q
    → Queued (set_entry entries j entry) i q
unfolding set_entry
Queued-set_entry entries entry i j d [] h e v = tt
Queued-set_entry entries entry i j d (x ∷ q) h e v =
    let other : (j == (i % 256)) ≡ false = ground arith in
    (rw other v.0, Queued-set_entry entries entry (suc i) j d q (omega arith) (omega arith) v.1)

-- Only the index modulo 256 counts.
pub Queued-mod :
    (entries : ℕ → Entry) (i j : ℕ) (q : List PendingEvent)
    → i % 256 ≡ j % 256
    → Queued entries i q
    → Queued entries j q
Queued-mod entries i j [] e v = tt
Queued-mod entries i j (x ∷ q) e v =
    (rw (sym e) v.0, Queued-mod entries (suc i) (suc j) q (omega arith) v.1)

Queued-append :
    (entries : ℕ → Entry) (i : ℕ) (q : List PendingEvent) (e : PendingEvent)
    → Queued entries i q
    → entries ((i + length q) % 256) ≡ record { ready = true; event = e }
    → Queued entries i (q ++ e ∷ [])
Queued-append entries i [] e v h = let at : i + 0 ≡ i = omega arith in (rw at at h, tt)
Queued-append entries i (x ∷ q) e v h =
    let at : i + suc (length q) ≡ suc i + length q = omega arith in
    (v.0, Queued-append entries (suc i) q e v.1 (rw at at h))

-- While fewer than 256 events are pending, the handler's write adds one at the end.
pub record_event-Holds :
    (e : PendingEvent) (r : Ring) (q : List PendingEvent)
    → Holds r q
    → length q < 256
    → Holds (record_event e r) (q ++ e ∷ [])
unfolding record_event set_entry
record_event-Holds e r q v room =
    let new : Entry = record { ready = true; event = e } in
    let slot : r.write_idx % 256 ≡ (r.read_idx + length q) % 256 = omega (arith, v.write) in
    let hit : ((r.write_idx % 256) == ((r.read_idx + length q) % 256)) ≡ true = ground arith in
    let there : set_entry r.entries (r.write_idx % 256) new ((r.read_idx + length q) % 256) ≡ new =
      rw hit refl in
    record {
      read_lt = v.read_lt;
      write = omega (arith, v.write, length-append q (e ∷ []));
      fits = omega (arith, length-append q (e ∷ []));
      queued =
          Queued-append (set_entry r.entries (r.write_idx % 256) new) r.read_idx q e
            (Queued-set_entry r.entries new r.read_idx (r.write_idx % 256) 0 q (omega arith)
              (omega arith) v.queued)
            there;
    }

-- Releasing the front of the queue leaves the rest.
release_front-Holds :
    (e : PendingEvent) (r : Ring) (q : List PendingEvent)
    → Holds r (e ∷ q)
    → Holds (release_front r) q
unfolding release_front
release_front-Holds e r q v =
    let old : Entry = record (r.entries (r.read_idx % 256)) { ready = false } in
    let len : length q < 256 = omega (arith, v.fits) in
    record {
      read_lt = omega arith;
      write = omega (arith, v.write, v.read_lt);
      fits = omega (arith, v.fits);
      queued =
          Queued-mod (set_entry r.entries (r.read_idx % 256) old) (suc r.read_idx)
            ((r.read_idx + 1) % 2 ^ 32) q (omega arith)
            (Queued-set_entry r.entries old (suc r.read_idx) (r.read_idx % 256) (255 - length q) q
              (omega arith) (omega arith) v.queued.1);
    }

module _ {ℓ} {A : Type ℓ} (deliver : PendingEvent → List A) where
  unfoldable pub deliveries : List PendingEvent → List A
  deliveries [] = []
  deliveries (e ∷ q) = deliver e ++ deliveries q

  -- One round on an entry that is ready
  pub drain_loop-round :
      (r : Ring) (e : PendingEvent) (fuel write_idx : ℕ)
      → (r.read_idx == write_idx) ≡ false
      → r.entries (r.read_idx % 256) ≡ record { ready = true; event = e }
      → drain_loop deliver (suc fuel) write_idx r
        ≡ counted deliver (deliver e) (drain_loop deliver fuel write_idx (release_front r))
  unfolding drain_loop
  drain_loop-round r e fuel write_idx more front =
      let rest = drain_loop deliver fuel write_idx (release_front r) in
      let round = λ (b : Bool) (n : Entry).
        if b
        then some (0, [], r)
        else if n.ready
        then counted deliver (deliver n.event) rest
        else some (0, [], r) in
      ap (λ b. round b (r.entries (r.read_idx % 256))) more ∙ ap (round false) front

  -- The loop on a ring that holds `q`
  drain_loop-Holds :
      (r : Ring) (q : List PendingEvent) (fuel : ℕ)
      → Holds r q
      → length q ≤ fuel
      → (t : Ring) × (drain_loop deliver fuel r.write_idx r ≡ some (length q, deliveries q, t))
        × Holds t []
  unfolding drain_loop counted deliveries release_front
  drain_loop-Holds r [] zero v h =
      let done : (r.read_idx == r.write_idx) ≡ true = ground (arith, v.write, v.read_lt) in
      (r, rw done refl, v)
  drain_loop-Holds r [] (suc fuel) v h =
      let done : (r.read_idx == r.write_idx) ≡ true = ground (arith, v.write, v.read_lt) in
      (r, rw done refl, v)
  drain_loop-Holds r (e ∷ q) zero v h = absurd (omega arith)
  drain_loop-Holds r (e ∷ q) (suc fuel) v h =
      let more : (r.read_idx == r.write_idx) ≡ false = ground (arith, v.write, v.read_lt, v.fits) in
      let (t, eq, last) =
        drain_loop-Holds (release_front r) q fuel (release_front-Holds e r q v) (omega arith) in
      (
        t,
        drain_loop-round r e fuel r.write_idx more v.queued.0 ∙ ap (counted deliver (deliver e)) eq,
        last,
      )

  -- On a ring that holds `q`, `drainPending` delivers the events of `q`, each once and the oldest
  -- first, returns their number and leaves nothing pending.
  pub drain-Holds :
      (r : Ring) (q : List PendingEvent)
      → Holds r q
      → (t : Ring) × (drain deliver r ≡ some (length q, deliveries q, t)) × Holds t []
  unfolding drain
  drain-Holds r q v =
      drain_loop-Holds r q ((r.write_idx + 2 ^ 32 - r.read_idx) % 2 ^ 32) v
        (omega (arith, v.write, v.read_lt, v.fits))

  counted-Ends :
      (xs : List A) (o : Option (ℕ × List A × Ring)) → o ≢ none → counted deliver xs o ≢ none
  unfolding counted
  counted-Ends xs none h e = h refl
  counted-Ends xs (some (n, ys, r)) h e = ground arith

  -- Enough fuel for the loop to end, whatever the entries hold
  drain_loop-Ends :
      (fuel write_idx : ℕ) (r : Ring)
      → r.read_idx < 2 ^ 32
      → write_idx < 2 ^ 32
      → (write_idx + 2 ^ 32 - r.read_idx) % 2 ^ 32 ≤ fuel
      → drain_loop deliver fuel write_idx r ≢ none
  unfolding drain_loop release_front counted
  drain_loop-Ends zero write_idx r hr hw h = ground arith
  drain_loop-Ends (suc fuel) write_idx r hr hw h =
      let entry = r.entries (r.read_idx % 256) in
      elim (Bool-cases (r.read_idx == write_idx)) [
        | inl e ↦ rw (e, drain_loop) (λ q. ground arith)
        | inr e ↦ elim (Bool-cases entry.ready) [
          | inr late ↦ rw (e, late, drain_loop) (λ q. ground arith)
          | inl on_time ↦
              rw (e, on_time, drain_loop)
                (counted-Ends (deliver entry.event) _ (
                  drain_loop-Ends fuel write_idx (release_front r) (omega arith) hw (ground arith)))
        ]
      ]

  -- Where the indices are 32-bit numbers, the loop of `drainPending` ends within its fuel, whatever
  -- the entries hold.
  pub drain-Ends : (r : Ring) → r.read_idx < 2 ^ 32 → r.write_idx < 2 ^ 32 → drain deliver r ≢ none
  unfolding drain
  drain-Ends r hr hw =
      drain_loop-Ends ((r.write_idx + 2 ^ 32 - r.read_idx) % 2 ^ 32) r.write_idx r hr hw
        (omega arith)
