-- ===== src/Exceptions/Pairs.antt =====
-- Two handlers that a sub-system registers one after the other.
use better_ncm.Base.{
  ℕ, ◌+◌, ◌%◌, ◌^◌, ◌<◌, ◌≡◌, ◌≢◌, refl, ◌∙◌, List, [], ◌∷◌, ◌++◌, All, All-imp, arith,
}
use better_ncm.Exceptions.{
  ExceptionType, HandlerEntry, Registry, register_handler, without, unregister_handler, ref_enable,
  ref_disable, install_handlers,
}
use better_ncm.Exceptions.Dispatch.{HasOldIds, without-append}

ref_enable-handlers : (r : Registry) → (ref_enable r).handlers ≡ r.handlers
unfolding ref_enable install_handlers
ref_enable-handlers r = ground arith

ref_enable-next_id : (r : Registry) → (ref_enable r).next_id ≡ r.next_id
unfolding ref_enable install_handlers
ref_enable-next_id r = ground arith

HasOldIds-ref_enable : (r : Registry) → HasOldIds r → HasOldIds (ref_enable r)
HasOldIds-ref_enable r old = rw (ref_enable-handlers r, ref_enable-next_id r) old

without-middle :
    (id : ℕ) (hs : List HandlerEntry) (e f : HandlerEntry)
    → All (λ h. h.id < id) hs
    → e.id ≡ id
    → f.id ≢ id
    → without id ((hs ++ e ∷ []) ++ f ∷ []) ≡ hs ++ f ∷ []
unfolding without
without-middle id [] e f old q n = ground arith
without-middle id (h ∷ hs) e f old q n = ground (arith, without-middle id hs e f old.1 q n)

-- Of two handlers registered one after the other, unregistering the first leaves the second,
unregister_first :
    (t u : ExceptionType) (callback : ℕ) (r : Registry)
    → HasOldIds r
    → r.next_id + 1 < 2 ^ 64
    → let (id, r1) = register_handler t callback r in
      let (id2, r2) = register_handler u callback r1 in
      (unregister_handler id r2).handlers
      ≡ r.handlers ++ record { id = r.next_id + 1; type = u; callback = callback } ∷ []
unfolding unregister_handler register_handler
unregister_first t u callback r old small =
    let next : (r.next_id + 1) % 2 ^ 64 ≡ r.next_id + 1 = omega arith in
    rw next (without-middle r.next_id r.handlers _ _ old refl (λ e. omega arith))

-- and unregistering both leaves what there was.
unregister_two :
    (t u : ExceptionType) (callback : ℕ) (r : Registry)
    → HasOldIds r
    → r.next_id + 1 < 2 ^ 64
    → let (id, r1) = register_handler t callback r in
      let (id2, r2) = register_handler u callback r1 in
      (unregister_handler id2 (unregister_handler id r2)).handlers ≡ r.handlers
unfolding unregister_handler register_handler without
unregister_two t u callback r old small =
    let next : (r.next_id + 1) % 2 ^ 64 ≡ r.next_id + 1 = omega arith in
    let first =
      without-middle r.next_id r.handlers (record { id = r.next_id; type = t; callback = callback })
        (record { id = r.next_id + 1; type = u; callback = callback }) old refl
        (λ e. omega arith) in
    rw (next, first)
      (without-append (r.next_id + 1) r.handlers _
        (All-imp _ _ r.handlers (λ h b. omega (arith, b)) old) refl)

-- The same with the reference counts
pub ref_first :
    (t u : ExceptionType) (callback : ℕ) (r : Registry)
    → HasOldIds r
    → r.next_id + 1 < 2 ^ 64
    → let (id, r1) = register_handler t callback (ref_enable r) in
      let (id2, r2) = register_handler u callback r1 in
      (ref_disable (unregister_handler id r2)).handlers
      ≡ r.handlers ++ record { id = r.next_id + 1; type = u; callback = callback } ∷ []
unfolding ref_disable
ref_first t u callback r old small =
    let same : (ref_enable r).handlers
          ++ record { id = (ref_enable r).next_id + 1; type = u; callback = callback } ∷ []
        ≡ r.handlers ++ record { id = r.next_id + 1; type = u; callback = callback } ∷ [] =
      rw (ref_enable-handlers r, ref_enable-next_id r) refl in
    unregister_first t u callback (ref_enable r) (HasOldIds-ref_enable r old)
      (rw (ref_enable-next_id r) small)
    ∙ same

pub ref_two :
    (t u : ExceptionType) (callback : ℕ) (r : Registry)
    → HasOldIds r
    → r.next_id + 1 < 2 ^ 64
    → let (id, r1) = register_handler t callback (ref_enable r) in
      let (id2, r2) = register_handler u callback r1 in
      (ref_disable (unregister_handler id2 (unregister_handler id r2))).handlers ≡ r.handlers
unfolding ref_disable
ref_two t u callback r old small =
    unregister_two t u callback (ref_enable r) (HasOldIds-ref_enable r old)
      (rw (ref_enable-next_id r) small)
    ∙ ref_enable-handlers r
