-- ===== src/Interceptor/Detach.antt =====
-- Hooks and memory: what `attach`, `replace`, `detach` and `detachAll` leave.
use better_ncm.Base.{
  ℕ, ◌^◌, ◌<◌, ◌≡◌, refl, ◌∙◌, ap, none, some, List, [], ◌∷◌, arith, Outcome, ok, thrown, lookup,
  erase, erase-insert, lookup-insert_self, Option-cases, inl, inr,
}
use better_ncm.Hex.{to_hex_addr}
use better_ncm.Hex.RoundTrip.{parse_hex_addr-to_hex_addr}
use better_ncm.Memory.{Memory, write_bytes, write-read_undo}
use better_ncm.Patches.{restore_all, IsApart, IsSized, lookup-IsSized, restore_all-erase}
use better_ncm.Callbacks.{Callback}
use better_ncm.Relocator.Code.{Host, Allocates}
use better_ncm.Relocator.{
  Machine, CodeError, patch_size, generate_patch_bytes, make_writable_and_patch, release_code,
}
use better_ncm.Relocator.Effects.{Protects, length-generate_patch_bytes, patch_ok, release-mem}
use better_ncm.Interceptor.{
  HookEntry, State, HookError, Dispatchers, register, attach, replace, release_entry,
  detach_restored, detach_id, detach, detach_loop, detach_all_done, detach_all,
}
use better_ncm.Interceptor.Maps.{Linked}
use better_ncm.Interceptor.View.{
  unhooked, target_of, original_of, Hooks, attach-Registers, replace-Registers, Registers-unhooked,
}

new_id : {s : State} → Linked s → lookup s.next_hook_id s.by_id ≡ none
new_id {s} v = elim (Option-cases (lookup s.next_hook_id s.by_id)) [
  | inl e ↦ e
  | inr (e, h) ↦ absurd (omega (arith, v.fresh_ids s.next_hook_id e h))
]

-- The hooks of the table share no byte, and each has saved `PATCH_SIZE` bytes.
pub record IsSpread (s : State) : Type 0 where
  pub apart : IsApart target_of original_of patch_size s.by_id
  pub sized : IsSized target_of original_of patch_size s.by_id

module _ (host : Host) (laws : Allocates host) (protects : Protects host) where
  -- `attach`, whether it returns or throws, leaves what memory is without hooks as it was. The maps
  -- are linked, the JIT runtime gives addresses that are neither null nor in use, and every
  -- `mprotect` succeeds.
  pub attach-unhooked :
      (fns : Dispatchers) (s : State) (target : ℕ) (f g : Callback)
      → Linked s
      → unhooked (attach host fns target f g s).1 ≡ unhooked s
  attach-unhooked fns s target f g v =
      Registers-unhooked s target _ _ (new_id v)
        (attach-Registers host laws protects s fns target f g)

  -- `replace`, whether it returns or throws, leaves what memory is without hooks as it was. The
  -- maps are linked, the JIT runtime gives addresses that are neither null nor in use, and every
  -- `mprotect` succeeds.
  pub replace-unhooked :
      (s : State) (target replacement : ℕ)
      → Linked s
      → unhooked (replace host target replacement s).1 ≡ unhooked s
  replace-unhooked s target replacement v =
      Registers-unhooked s target _ _ (new_id v)
        (replace-Registers host laws protects s target replacement)

  -- A hook that is taken back.
  detach_found :
      (s : State) (id : ℕ) (e : HookEntry)
      → lookup id s.by_id ≡ some e
      → detach_id host id s ≡ (
        ok tt,
        record s {
          machine =
              release_entry
                (record s.machine { mem = write_bytes s.machine.mem e.target e.original_bytes })
                e;
          by_id = erase id s.by_id;
          by_target = erase e.target s.by_target;
        },
      )
  unfolding detach_id detach_restored
  detach_found s id e h =
      rw (h, detach_id, patch_ok host s.machine e.target e.original_bytes protects, detach_restored)
        refl

  release_entry-mem : (m : Machine) (e : HookEntry) → (release_entry m e).mem ≡ m.mem
  release_entry-mem m e =
      release-mem (release_code m e.trampoline_code) e.relocated_code
      ∙ release-mem m e.trampoline_code

  -- Taking one hook back by its id, in any order, leaves what memory is without hooks as it was; so
  -- does an id that is not there. The maps are linked, no two hooks share a byte and each has saved
  -- `PATCH_SIZE` bytes, the JIT runtime gives addresses that are neither null nor in use, and every
  -- `mprotect` succeeds.
  pub detach_id-unhooked :
      (s : State) (id : ℕ) → Linked s → IsSpread s → unhooked (detach_id host id s).1 ≡ unhooked s
  unfolding detach_id
  detach_id-unhooked s id v a = elim (Option-cases (lookup id s.by_id)) [
    | inl none_there ↦ rw (none_there, detach_id)
    | inr (e, h) ↦
        rw (detach_found s id e h, release_entry-mem)
          (restore_all-erase target_of original_of patch_size id s.by_id e s.machine.mem v.unique
            a.apart a.sized (lookup-IsSized target_of original_of patch_size id s.by_id e a.sized h)
            h)
  ]

  -- The state after a detach is the state before the attach, but for the counters.
  abbrev pub Restores : State → Outcome HookError (Unit {0}) × State → Type 0
  Restores s r =
      (r.0 ≡ ok tt)
      × (r.1.machine ≡ s.machine)
      × (r.1.by_id ≡ s.by_id)
      × (r.1.by_target ≡ s.by_target)

  register-Restores :
      (s : State) (target : ℕ) (m : Machine) (e : HookEntry)
      → Linked s
      → Hooks s target m e
      → Restores s (detach_id host s.next_hook_id (register s m e))
  unfolding register
  register-Restores s target m e v new =
      rw
        (detach_found (register s m e) s.next_hook_id e
          (lookup-insert_self s.next_hook_id e s.by_id))
        (
          refl,
          machine,
          erase-insert s.next_hook_id e s.by_id (new_id v),
          erase-insert e.target e s.by_target (ap (λ a. lookup a s.by_target) new.at ∙ new.free),
        )
    where
      undone : write_bytes m.mem e.target e.original_bytes ≡ s.machine.mem
      undone =
          rw (new.at, new.saved, new.patched, ← length-generate_patch_bytes new.jump)
            (write-read_undo s.machine.mem target (generate_patch_bytes new.jump))

      machine :
          release_entry (record m { mem = write_bytes m.mem e.target e.original_bytes }) e
          ≡ s.machine
      machine =
          new.released (write_bytes m.mem e.target e.original_bytes)
          ∙ ap (λ (mem : Memory). record { mem = mem; blocks = s.machine.blocks }) undone

  parsed_id :
      (id : ℕ) (u : State) → id < 2 ^ 64 → detach host (to_hex_addr id) u ≡ detach_id host id u
  unfolding detach
  parsed_id id u small = rw (parse_hex_addr-to_hex_addr id small, detach) refl

  detach-Restores :
      (s t : State) (text : List ℕ) (u : State)
      → text ≡ to_hex_addr s.next_hook_id
      → t ≡ u
      → s.next_hook_id < 2 ^ 64
      → Restores s (detach_id host s.next_hook_id u)
      → Restores s (detach host text t)
  detach-Restores s t text u here there small r =
      let same : detach host text t ≡ detach_id host s.next_hook_id u =
        ap (λ (x : List ℕ). detach host x t) here
        ∙ ap (λ (x : State). detach host (to_hex_addr s.next_hook_id) x) there
        ∙ parsed_id s.next_hook_id u small in
      rw same r

  -- `detach` with the id that `attach` returned undoes the call: it returns, and memory, the live
  -- blocks and both maps are as they were. The maps are linked, the id is below 2^64, the JIT
  -- runtime gives addresses that are neither null nor in use, and every `mprotect` succeeds.
  pub detach-attach :
      (fns : Dispatchers) (s : State) (target : ℕ) (f g : Callback) (text : List ℕ) (t : State)
      → Linked s
      → s.next_hook_id < 2 ^ 64
      → attach host fns target f g s ≡ (ok text, t)
      → Restores s (detach host text t)
  detach-attach fns s target f g text t v small h =
      elim (attach-Registers host laws protects s fns target f g) [
        | inl (e, u, same, q) ↦ absurd (ground (arith, q))
        | inr (m, e, new, q) ↦
            detach-Restores s t text (register s m e) (ground (arith, q)) (ground (arith, q)) small
              (register-Restores s target m e v new)
      ]

  -- The loop of `detachAll` takes every hook back.
  detach_loop-ok :
      (l : List (ℕ × HookEntry)) (m : Machine) (gone : List ℕ)
      → ((detach_loop host l m gone).0 ≡ ok tt)
        × ((detach_loop host l m gone).1.mem ≡ restore_all target_of original_of patch_size l m.mem)
  unfolding detach_loop restore_all
  detach_loop-ok [] m gone = (refl, refl)
  detach_loop-ok ((id, e) ∷ l) m gone =
      let r = make_writable_and_patch host m e.target e.original_bytes in
      let q = patch_ok host m e.target e.original_bytes protects in
      let done : r.0 ≡ ok tt = ap (λ (r : Outcome CodeError (Unit {0}) × Machine). r.0) q in
      let at : r.1.mem ≡ write_bytes m.mem e.target e.original_bytes =
        ap (λ (r : Outcome CodeError (Unit {0}) × Machine). r.1.mem) q in
      let (ends, rest) = detach_loop-ok l (release_entry r.1 e) (e.ptr ∷ gone) in
      rw (done, detach_loop)
        (
          ends,
          rest ∙ ap (restore_all target_of original_of patch_size l) (release_entry-mem r.1 e ∙ at),
        )

  all_done :
      (s : State) (r : Outcome HookError (Unit {0}) × Machine × List ℕ)
      → (r.0 ≡ ok tt) × (r.1.mem ≡ unhooked s)
      → let t = detach_all_done host s r in
        (t.0 ≡ ok tt) × (t.1.by_id ≡ []) × (t.1.by_target ≡ []) × (t.1.machine.mem ≡ unhooked s)
  unfolding detach_all_done
  all_done s (ok _, m, gone) (q, p) = (refl, refl, refl, p)
  all_done s (thrown e, m, gone) (q, p) = absurd (ground (arith, q))

  -- `detachAll` returns, leaves both maps empty, and memory is what it is without hooks: every
  -- saved byte is written back in the order of the table. The JIT runtime gives addresses that are
  -- neither null nor in use, and every `mprotect` succeeds.
  pub detach_all-unhooked :
      (s : State)
      → let r = detach_all host s in
        (r.0 ≡ ok tt) × (r.1.by_id ≡ []) × (r.1.by_target ≡ []) × (r.1.machine.mem ≡ unhooked s)
  unfolding detach_all
  detach_all-unhooked s =
      all_done s (detach_loop host s.by_id s.machine s.deleted)
        (detach_loop-ok s.by_id s.machine s.deleted)
