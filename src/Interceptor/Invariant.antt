-- ===== src/Interceptor/Invariant.antt =====
-- Every operation of native_interceptor.cc keeps the two maps linked.
use better_ncm.Base.{
  ℕ, ◌+◌, ◌^◌, ◌<◌, ◌≡◌, refl, none, some, List, arith, Outcome, ok, thrown, lookup, erase,
  Option-cases, inl, inr,
}
use better_ncm.Hex.{NumberError, parse_hex_addr}
use better_ncm.Relocator.Code.{Host}
use better_ncm.Callbacks.{Callback}
use better_ncm.Relocator.{Machine, CodeError}
use better_ncm.Interceptor.{
  HookEntry, State, Dispatchers, attach_patched, attach_built, attach_relocated, attach,
  replace_patched, replace_relocated, detach_restored, revert_restored, erase_ptr, detach_all_done,
  HookError, replace, detach_id, detach, detach_all, revert,
}
use better_ncm.Interceptor.Maps.{
  Linked, register-Linked, unregister-Linked, erase_ptr-eq-erase, keep-Linked, move-Linked,
}

-- Every way out of the operations leaves one of these states.
module _ (host : Host) (s : State) (v : Linked s) where
  patched_attach :
      (entry : HookEntry) (r : Outcome CodeError (Unit {0}) × Machine)
      → lookup entry.target s.by_target ≡ none
      → entry.ptr ≡ s.next_ptr
      → s.next_hook_id + 1 < 2 ^ 64
      → (fns : Dispatchers) → Linked (attach_patched host fns s entry r).1
  unfolding attach_patched
  patched_attach entry (thrown e, m) free p small fns = keep-Linked s m v
  patched_attach entry (ok _, m) free p small fns = register-Linked s m entry v free p small

  built_attach :
      (fns : Dispatchers) (target : ℕ) (f g : Callback) (code : ℕ)
      (r : Outcome CodeError ℕ × Machine)
      → lookup target s.by_target ≡ none
      → s.next_hook_id + 1 < 2 ^ 64
      → Linked (attach_built host fns s target f g code r).1
  unfolding attach_built
  built_attach fns target f g code (thrown e, m) free small = keep-Linked s _ v
  built_attach fns target f g code (ok t, m) free small = patched_attach _ _ free refl small fns

  relocated_attach :
      (fns : Dispatchers) (target : ℕ) (f g : Callback) (r : Outcome CodeError (ℕ × ℕ) × Machine)
      → lookup target s.by_target ≡ none
      → s.next_hook_id + 1 < 2 ^ 64
      → Linked (attach_relocated host fns s target f g r).1
  unfolding attach_relocated
  relocated_attach fns target f g (thrown e, m) free small = keep-Linked s m v
  relocated_attach fns target f g (ok (code, n), m) free small =
      built_attach fns target f g code _ free small

  -- `attach` keeps the two maps linked, whether it returns or throws, where they were linked and
  -- the next id does not wrap round.
  pub attach-Linked :
      (fns : Dispatchers) (target : ℕ) (f g : Callback)
      → s.next_hook_id + 1 < 2 ^ 64
      → Linked (attach host fns target f g s).1
  unfolding attach
  attach-Linked fns target f g small = elim (Option-cases (lookup target s.by_target)) [
    | inr (_, e) ↦ rw (e, attach) v
    | inl free ↦ rw (free, attach) (relocated_attach fns target f g _ free small)
  ]

  patched_replace :
      (entry : HookEntry) (r : Outcome CodeError (Unit {0}) × Machine)
      → lookup entry.target s.by_target ≡ none
      → entry.ptr ≡ s.next_ptr
      → s.next_hook_id + 1 < 2 ^ 64
      → Linked (replace_patched host s entry r).1
  unfolding replace_patched
  patched_replace entry (thrown e, m) free p small = keep-Linked s m v
  patched_replace entry (ok _, m) free p small = register-Linked s m entry v free p small

  relocated_replace :
      (target replacement : ℕ) (r : Outcome CodeError (ℕ × ℕ) × Machine)
      → lookup target s.by_target ≡ none
      → s.next_hook_id + 1 < 2 ^ 64
      → Linked (replace_relocated host s target replacement r).1
  unfolding replace_relocated
  relocated_replace target replacement (thrown e, m) free small = keep-Linked s m v
  relocated_replace target replacement (ok (code, n), m) free small =
      patched_replace _ _ free refl small

  -- `replace` keeps the two maps linked, whether it returns or throws, where they were linked and
  -- the next id does not wrap round.
  pub replace-Linked :
      (target replacement : ℕ)
      → s.next_hook_id + 1 < 2 ^ 64
      → Linked (replace host target replacement s).1
  unfolding replace
  replace-Linked target replacement small = elim (Option-cases (lookup target s.by_target)) [
    | inr (_, e) ↦ rw (e, replace) v
    | inl free ↦ rw (free, replace) (relocated_replace target replacement _ free small)
  ]

  restored_detach :
      (id : ℕ) (entry : HookEntry) (r : Outcome CodeError (Unit {0}) × Machine)
      → lookup id s.by_id ≡ some entry
      → Linked (detach_restored host s id entry r).1
  unfolding detach_restored
  restored_detach id entry (thrown e, m) found = move-Linked s m v
  restored_detach id entry (ok _, m) found = unregister-Linked s _ id entry v found

  pub detach_id-Linked : (id : ℕ) → Linked (detach_id host id s).1
  unfolding detach_id
  detach_id-Linked id = elim (Option-cases (lookup id s.by_id)) [
    | inl e ↦ rw (e, detach_id) v
    | inr (entry, e) ↦ rw (e, detach_id) (restored_detach id entry _ e)
  ]

  -- `detach` keeps the two maps linked, where they were linked, for every text it is given and
  -- whether it returns or throws.
  pub detach-Linked : (text : List ℕ) → Linked (detach host text s).1
  unfolding detach
  detach-Linked text = go (parse_hex_addr text) refl
    where
      go : (r : Outcome NumberError ℕ) → parse_hex_addr text ≡ r → Linked (detach host text s).1
      go (thrown e) p = rw (p, detach) v
      go (ok id) p = rw (p, detach) (detach_id-Linked id)

  restored_revert :
      (target : ℕ) (entry : HookEntry) (r : Outcome CodeError (Unit {0}) × Machine)
      → lookup target s.by_target ≡ some entry
      → Linked (revert_restored host s target entry r).1
  unfolding revert_restored
  restored_revert target entry (thrown e, m) found = move-Linked s m v
  restored_revert target entry (ok _, m) found =
      let home = v.backward target entry found in
      let same : erase_ptr entry.ptr s.by_id ≡ erase home.1 s.by_id =
        erase_ptr-eq-erase s.by_id home.1 entry.ptr entry v.unique home.2 refl
          (λ j d h q. v.distinct j home.1 d entry h home.2 q) in
      rw (same, home.0) (unregister-Linked s _ home.1 entry v home.2)

  -- `revert` keeps the two maps linked, where they were linked, whether it returns or throws.
  pub revert-Linked : (target : ℕ) → Linked (revert host target s).1
  unfolding revert
  revert-Linked target = elim (Option-cases (lookup target s.by_target)) [
    | inl e ↦ rw (e, revert) v
    | inr (entry, e) ↦ rw (e, revert) (restored_revert target entry _ e)
  ]

  done_detach_all :
      (r : Outcome HookError (Unit {0}) × Machine × List ℕ)
      → (detach_all_done host s r).0 ≡ ok tt
      → Linked (detach_all_done host s r).1
  unfolding detach_all_done lookup
  done_detach_all (thrown e, m, gone) q = absurd (ground (arith, q))
  done_detach_all (ok _, m, gone) q = record {
    forward = λ id e h. cc;
    backward = λ t e h. absurd (ground arith);
    distinct = λ i j d e h k q. cc;
    unique = tt;
    fresh_ids = λ id e h. absurd (ground arith);
    fresh_ptrs = λ id e h. absurd (ground arith);
  }

  -- `detachAll` keeps the two maps linked where it returns. Where it throws, they hold entries that
  -- it has deleted.
  pub detach_all-Linked : (detach_all host s).0 ≡ ok tt → Linked (detach_all host s).1
  unfolding detach_all
  detach_all-Linked = done_detach_all _
