-- ===== src/ScriptLifecycle.antt =====
-- src/core/bindings/script_lifecycle.cc: the callbacks that run when the script ends. They run without
-- the lock and may register others, so a run is a state change too.
pub mod Effects
use better_ncm.Base.{
  ℕ, ◌+◌, ◌%◌, ◌^◌, ◌<◌, ◌≡◌, refl, ap, ◌∙◌, true, List, [], ◌∷◌, ◌++◌, map, arith, ◌==◌, Outcome,
  ok, thrown, insert, erase, erase_fresh, IsFresh-of_Below, Below,
}
use better_ncm.Hex.{NumberError, to_hex_addr, parse_hex_addr}
use better_ncm.Hex.RoundTrip.{parse_hex_addr-to_hex_addr}
use better_ncm.Callbacks.{
  CallResult, returned, threw_unknown, threw_exception, Event, called, after_call,
}

-- `g_nextId` and `g_callbacks`; a callback is the number of a function.
pub record Lifecycle : Type 0 where
  pub next_id : ℕ
  pub callbacks : List (ℕ × ℕ)

pub on_dispose : ℕ → Lifecycle → List ℕ × Lifecycle
on_dispose callback s = (
  to_hex_addr s.next_id,
  record { next_id = (s.next_id + 1) % 2 ^ 64; callbacks = insert s.next_id callback s.callbacks },
)

pub remove_dispose_callback : List ℕ → Lifecycle → Outcome NumberError (Unit {0}) × Lifecycle
remove_dispose_callback text s = elim (parse_hex_addr text) [
  | thrown e ↦ (thrown e, s)
  | ok id ↦ (ok tt, record s { callbacks = erase id s.callbacks })
]

pub remove_all_dispose_callbacks : Lifecycle → Lifecycle
remove_all_dispose_callbacks s = record s { callbacks = [] }

-- The loop over the copy of the callbacks. A callback returns or throws, and leaves the program in
-- another state.
pub call_loop {ℓ} : {S : Type ℓ} → (ℕ → S → CallResult × S) → List (ℕ × ℕ) → S → List Event × S
call_loop run [] s = ([], s)
call_loop run ((id, f) ∷ rest) s =
    let (result, s') = run f s in
    let (events, last) = call_loop run rest s' in
    (called f [] ∷ (after_call result ++ events), last)

pub call_dispose_callbacks :
    (ℕ → Lifecycle → CallResult × Lifecycle) → Lifecycle → List Event × Lifecycle
call_dispose_callbacks run s =
    let (events, last) = call_loop run s.callbacks s in (events, remove_all_dispose_callbacks last)
