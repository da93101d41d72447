-- ===== src/ScriptLifecycle/Effects.antt =====
-- Running and removing dispose callbacks.
use better_ncm.Base.{
  ℕ, ◌^◌, ◌<◌, ◌≡◌, refl, ap, ◌∙◌, true, List, [], ◌∷◌, ◌++◌, map, arith, ◌==◌, insert, erase,
  erase_fresh, IsFresh-of_Below, Below,
}
use better_ncm.Hex.RoundTrip.{parse_hex_addr-to_hex_addr}
use better_ncm.Callbacks.{
  CallResult, returned, threw_unknown, threw_exception, Event, called, after_call,
}
use better_ncm.ScriptLifecycle.{
  Lifecycle, on_dispose, remove_dispose_callback, remove_all_dispose_callbacks, call_loop,
  call_dispose_callbacks,
}

-- The functions that were called, in order.
abbrev pub calls_of : List Event → List ℕ
calls_of [] = []
calls_of (called f args ∷ es) = f ∷ calls_of es
calls_of (_ ∷ es) = calls_of es

calls_of-after : (r : CallResult) (es : List Event) → calls_of (after_call r ++ es) ≡ calls_of es
unfolding after_call
calls_of-after returned es = refl
calls_of-after threw_unknown es = refl
calls_of-after (threw_exception what) es = refl

pub call_loop-calls {ℓ} :
    {S : Type ℓ} (run : ℕ → S → CallResult × S) (l : List (ℕ × ℕ)) (s : S)
    → calls_of (call_loop run l s).0 ≡ map (λ (p : ℕ × ℕ). p.1) l
unfolding call_loop
call_loop-calls run [] s = refl
call_loop-calls run ((id, f) ∷ l) s =
    ap (λ fs. f ∷ fs) (calls_of-after (run f s).0 _ ∙ call_loop-calls run l (run f s).1)

-- `_callDisposeCallbacks` calls every callback that is registered once, in the order of the map,
-- whatever the others throw or register, and none is left.
pub call_dispose_callbacks-calls :
    (run : ℕ → Lifecycle → CallResult × Lifecycle) (s : Lifecycle)
    → let (events, last) = call_dispose_callbacks run s in
      (calls_of events ≡ map (λ (p : ℕ × ℕ). p.1) s.callbacks) × (last.callbacks ≡ [])
unfolding call_dispose_callbacks remove_all_dispose_callbacks
call_dispose_callbacks-calls run s = (call_loop-calls run s.callbacks s, refl)

-- Removing the id that `onDispose` returned leaves the callbacks as they were, where their ids are
-- below the counter and the counter is below 2^64.
pub remove_dispose_callback-on_dispose :
    (callback : ℕ) (s : Lifecycle)
    → Below s.next_id s.callbacks
    → s.next_id < 2 ^ 64
    → let (id, t) = on_dispose callback s in
      (remove_dispose_callback id t).1.callbacks ≡ s.callbacks
unfolding remove_dispose_callback on_dispose insert erase
remove_dispose_callback-on_dispose callback s below small =
    let gone : erase s.next_id s.callbacks ≡ s.callbacks =
      erase_fresh s.next_id s.callbacks
        (IsFresh-of_Below s.next_id s.next_id s.callbacks (omega arith) below) in
    let same : (s.next_id == s.next_id) ≡ true = ground arith in
    rw (parse_hex_addr-to_hex_addr s.next_id small, remove_dispose_callback, same, gone, gone)
