-- ===== src/PendingRing/Refine.antt =====
-- The ring refines a queue of events, over any sequence of faults and calls of `drainPending`.
use better_ncm.Base.{◌<◌, ◌≡◌, refl, Option, none, some, List, [], ◌∷◌, ◌++◌, length}
use better_ncm.PendingRing.{PendingEvent, Ring, max_pending, record_event, drain}
use better_ncm.PendingRing.Queue.{Holds, record_event-Holds, deliveries, drain-Holds}

-- What happens to the ring: a fault, or a call of `drainPending`
pub data Command : Type 0 where
  fault : PendingEvent → Command
  drain_all : Command

module _ {ℓ} {A : Type ℓ} (deliver : PendingEvent → List A) where
  and_then : List A → Option (List A × Ring) → Option (List A × Ring)
  and_then xs none = none
  and_then xs (some (ys, r)) = some (xs ++ ys, r)

  -- What the ring delivers over a sequence of commands
  unfoldable pub run_ring : List Command → Ring → Option (List A × Ring)
  unfolding and_then
  run_ring [] r = some ([], r)
  run_ring (fault e ∷ rest) r = run_ring rest (record_event e r)
  run_ring (drain_all ∷ rest) r = elim (drain deliver r) [
    | none ↦ none
    | some (n, xs, t) ↦ and_then xs (run_ring rest t)
  ]

  -- The specification: a queue that is emptied by each `drain_all`. What is delivered, and what is
  -- left.
  unfoldable pub run_queue : List Command → List PendingEvent → List A × List PendingEvent
  run_queue [] q = ([], q)
  run_queue (fault e ∷ rest) q = run_queue rest (q ++ e ∷ [])
  run_queue (drain_all ∷ rest) q =
      let (ys, last) = run_queue rest [] in (deliveries deliver q ++ ys, last)

  -- At each fault there is room in a queue of 256.
  abbrev pub HasRoom : List Command → List PendingEvent → Type 0
  HasRoom [] q = Unit {0}
  HasRoom (fault e ∷ rest) q = (length q < max_pending) × HasRoom rest (q ++ e ∷ [])
  HasRoom (drain_all ∷ rest) q = HasRoom rest []

  -- Over any sequence of faults and calls of `drainPending`, a ring that holds a queue delivers
  -- what a first-in first-out queue delivers, in that order, and holds the events that are left in
  -- the queue. At each fault fewer than 256 events are pending.
  pub run_ring-run_queue :
      (cs : List Command) (r : Ring) (q : List PendingEvent)
      → Holds r q
      → HasRoom cs q
      → (t : Ring) × (run_ring cs r ≡ some ((run_queue cs q).0, t)) × Holds t (run_queue cs q).1
  unfolding run_ring run_queue and_then
  run_ring-run_queue [] r q v room = (r, refl, v)
  run_ring-run_queue (fault e ∷ rest) r q v room =
      run_ring-run_queue rest (record_event e r) (q ++ e ∷ []) (record_event-Holds e r q v room.0)
        room.1
  run_ring-run_queue (drain_all ∷ rest) r q v room =
      let (m, eq, empty) = drain-Holds deliver r q v in
      let (t, later, last) = run_ring-run_queue rest m [] empty room in
      (t, rw (eq, run_ring) (rw later refl), last)
