-- ===== src/Breakpoint/Remove.antt =====
-- Breakpoints and memory: what `remove` and `removeAll` leave.
use mathlib.Core.Path.{subst⁻¹}
use better_ncm.Base.{
  ℕ, ◌^◌, ◌<◌, ◌≡◌, refl, ◌∙◌, ap, false, some, List, [], ◌∷◌, arith, Outcome, ok, thrown, lookup,
  erase, erase-insert, lookup-insert_self, Option-cases, inl, inr,
}
use better_ncm.Hex.{to_hex_addr}
use better_ncm.Hex.RoundTrip.{parse_hex_addr-to_hex_addr}
use better_ncm.Memory.{Memory, write_bytes, write-read_undo}
use better_ncm.Patches.{restore_all, IsApart, IsSized, lookup-IsSized, restore_all-erase}
use better_ncm.Callbacks.{Callback}
use better_ncm.Relocator.Code.{Host, Allocates}
use better_ncm.Relocator.{Machine, CodeError, make_writable_and_patch, release_code}
use better_ncm.Relocator.Effects.{patch_ok, Protects, release-mem}
use better_ncm.Breakpoint.{
  BreakpointEntry, State, BreakpointError, bp_insn_size, int3, is_empty, maybe_remove_handler,
  register, release_entry, set, remove_restored, remove_id, remove, remove_loop, remove_all_done,
  remove_all,
}
use better_ncm.Breakpoint.Effects.{
  address_of, original_of, unpatched, Traps, IsTable, new_id, maybe-Unchanged, Unchanged-IsTable,
  Unchanged-unpatched,
}
use better_ncm.Breakpoint.Set.{set-Outcomes, set-unpatched}

-- The breakpoints of the table are at different addresses, and each has saved one byte.
pub record IsSpread (s : State) : Type 0 where
  pub apart : IsApart address_of original_of bp_insn_size s.by_id
  pub sized : IsSized address_of original_of bp_insn_size s.by_id

module _ (host : Host) (laws : Allocates host) (protects : Protects host) where
  detach_found :
      (s : State) (id : ℕ) (e : BreakpointEntry)
      → lookup id s.by_id ≡ some e
      → remove_id host id s ≡ (
        ok tt,
        maybe_remove_handler (record s {
          machine =
              release_entry
                (record s.machine { mem = write_bytes s.machine.mem e.address e.original_bytes })
                e;
          by_id = erase id s.by_id;
          by_address = erase e.address s.by_address;
        }),
      )
  unfolding remove_id remove_restored
  detach_found s id e h =
      rw
        (h, remove_id, patch_ok host s.machine e.address e.original_bytes protects, remove_restored)
        refl

  release_entry-mem : (m : Machine) (e : BreakpointEntry) → (release_entry m e).mem ≡ m.mem
  release_entry-mem m e =
      release-mem (release_code m e.trampoline_code) e.relocated_code
      ∙ release-mem m e.trampoline_code

  -- Taking one breakpoint back by its id, in any order, leaves what memory is without breakpoints
  -- as it was; so does an id that is not there. The ids of the table differ and are below the
  -- counter, no two breakpoints share a byte and each has saved one, the JIT runtime gives
  -- addresses that are neither null nor in use, and every `mprotect` succeeds.
  pub remove_id-unpatched :
      (s : State) (id : ℕ)
      → IsTable s
      → IsSpread s
      → unpatched (remove_id host id s).1 ≡ unpatched s
  unfolding remove_id
  remove_id-unpatched s id v a = elim (Option-cases (lookup id s.by_id)) [
    | inl none_there ↦ rw (none_there, remove_id)
    | inr (e, h) ↦ rw (detach_found s id e h) (
        Unchanged-unpatched _ _ (maybe-Unchanged _)
        ∙ ap (restore_all address_of original_of bp_insn_size (erase id s.by_id))
            (release_entry-mem _ e)
        ∙ restore_all-erase address_of original_of bp_insn_size id s.by_id e s.machine.mem v.unique
            a.apart a.sized
            (lookup-IsSized address_of original_of bp_insn_size id s.by_id e a.sized h) h)
  ]

  -- The machine and the maps after a removal are those before the breakpoint was set.
  abbrev pub Restores : State → Outcome BreakpointError (Unit {0}) × State → Type 0
  Restores s r =
      (r.0 ≡ ok tt)
      × (r.1.machine ≡ s.machine)
      × (r.1.by_id ≡ s.by_id)
      × (r.1.by_address ≡ s.by_address)

  register-Restores :
      (dispatch_fn : ℕ) (s : State) (address : ℕ) (m : Machine) (e : BreakpointEntry)
      → IsTable s
      → Traps dispatch_fn s address m e
      → Restores s (remove_id host s.next_bp_id (register s m e))
  unfolding register
  register-Restores dispatch_fn s address m e v new =
      rw (detach_found (register s m e) s.next_bp_id e (lookup-insert_self s.next_bp_id e s.by_id))
        (
          refl,
          (maybe-Unchanged _).machine ∙ machine,
          (maybe-Unchanged _).by_id ∙ erase-insert s.next_bp_id e s.by_id (new_id s v),
          (maybe-Unchanged _).by_address
              ∙ erase-insert e.address e s.by_address
                  (ap (λ a. lookup a s.by_address) new.at ∙ new.free),
        )
    where
      undone : write_bytes m.mem e.address e.original_bytes ≡ s.machine.mem
      undone = rw (new.at, new.saved, new.patched) (write-read_undo s.machine.mem address int3)

      machine :
          release_entry (record m { mem = write_bytes m.mem e.address e.original_bytes }) e
          ≡ s.machine
      machine =
          new.released (write_bytes m.mem e.address e.original_bytes)
          ∙ ap (λ (mem : Memory). record { mem = mem; blocks = s.machine.blocks }) undone

  parsed_id :
      (id : ℕ) (u : State) → id < 2 ^ 64 → remove host (to_hex_addr id) u ≡ remove_id host id u
  unfolding remove
  parsed_id id u small = rw (parse_hex_addr-to_hex_addr id small, remove) refl

  -- `remove` with the id that `set` returned undoes the call: it returns, and memory, the live
  -- blocks and both maps are as they were. The ids of the table differ and are below the counter,
  -- the id is below 2^64, the JIT runtime gives addresses that are neither null nor in use, and
  -- every `mprotect` succeeds.
  pub remove-set :
      (callback dispatch_fn : ℕ) (s : State) (address : ℕ) (on_hit : Callback) (text : List ℕ)
      (t : State)
      → IsTable s
      → s.next_bp_id < 2 ^ 64
      → set host callback dispatch_fn address on_hit s ≡ (ok text, t)
      → Restores s (remove host text t)
  remove-set callback dispatch_fn s address on_hit text t v small h =
      elim (set-Outcomes host laws protects callback dispatch_fn s address on_hit) [
        | inl (e, u, same, q) ↦ absurd (ground (arith, q))
        | inr (m, e, u, same, ptr, new, q) ↦
            let here : text ≡ to_hex_addr u.next_bp_id = ground (arith, q) in
            let there : t ≡ register u m e = ground (arith, q) in
            let small' : u.next_bp_id < 2 ^ 64 = omega (arith, small, same.next_bp_id) in
            let call : remove host text t ≡ remove_id host u.next_bp_id (register u m e) =
              ap (λ (x : List ℕ). remove host x t) here
              ∙ ap (λ (x : State). remove host (to_hex_addr u.next_bp_id) x) there
              ∙ parsed_id u.next_bp_id (register u m e) small' in
            let (done, machine, ids, addresses) =
              register-Restores dispatch_fn u address m e (Unchanged-IsTable s u same v) new in
            subst⁻¹ (Restores s) call
              (done, machine ∙ same.machine, ids ∙ same.by_id, addresses ∙ same.by_address)
      ]

  -- The loop of `removeAll` takes every breakpoint back.
  remove_loop-ok :
      (l : List (ℕ × BreakpointEntry)) (m : Machine) (gone : List ℕ)
      → ((remove_loop host l m gone).0 ≡ ok tt)
        × ((remove_loop host l m gone).1.mem
            ≡ restore_all address_of original_of bp_insn_size l m.mem)
  unfolding remove_loop restore_all
  remove_loop-ok [] m gone = (refl, refl)
  remove_loop-ok ((id, e) ∷ l) m gone =
      let r = make_writable_and_patch host m e.address e.original_bytes in
      let q = patch_ok host m e.address e.original_bytes protects in
      let done : r.0 ≡ ok tt = ap (λ (r : Outcome CodeError (Unit {0}) × Machine). r.0) q in
      let at : r.1.mem ≡ write_bytes m.mem e.address e.original_bytes =
        ap (λ (r : Outcome CodeError (Unit {0}) × Machine). r.1.mem) q in
      let (ends, rest) = remove_loop-ok l (release_entry r.1 e) (id ∷ gone) in
      rw (done, remove_loop)
        (
          ends,
          rest
              ∙ ap (restore_all address_of original_of bp_insn_size l)
                  (release_entry-mem r.1 e ∙ at),
        )

  -- No breakpoint is left, nor the SIGTRAP handler.
  abbrev pub Clears : State → Outcome BreakpointError (Unit {0}) × State → Type 0
  Clears s r =
      (r.0 ≡ ok tt)
      × (r.1.by_id ≡ [])
      × (r.1.by_address ≡ [])
      × (r.1.handler_installed ≡ false)
      × (r.1.machine.mem ≡ unpatched s)

  all_done :
      (s : State) (r : Outcome BreakpointError (Unit {0}) × Machine × List ℕ)
      → (r.0 ≡ ok tt) × (r.1.mem ≡ unpatched s)
      → Clears s (remove_all_done host s r)
  unfolding remove_all_done maybe_remove_handler is_empty
  all_done s (ok _, m, gone) (q, p) =
      (refl, ground arith, ground arith, ground arith, ground (arith, p))
  all_done s (thrown e, m, gone) (q, p) = absurd (ground (arith, q))

  -- `removeAll` returns and leaves no breakpoint and no SIGTRAP handler, and memory is what it is
  -- without breakpoints. The JIT runtime gives addresses that are neither null nor in use, and
  -- every `mprotect` succeeds.
  pub remove_all-unpatched : (s : State) → Clears s (remove_all host s)
  unfolding remove_all
  remove_all-unpatched s =
      all_done s (remove_loop host s.by_id s.machine s.deleted)
        (remove_loop-ok s.by_id s.machine s.deleted)

  -- `set`, whether it returns or throws, and the removal of one breakpoint by its id, there or not,
  -- leave what memory is without breakpoints as it was; `removeAll` returns and leaves that memory,
  -- no breakpoint and no SIGTRAP handler. The ids of the table differ and are below the counter, no
  -- two breakpoints share a byte and each has saved one, the JIT runtime gives addresses that are
  -- neither null nor in use, and every `mprotect` succeeds.
  pub calls-unpatched :
      (callback dispatch_fn : ℕ) (s : State) (address id : ℕ) (on_hit : Callback)
      → IsTable s
      → IsSpread s
      → (unpatched (set host callback dispatch_fn address on_hit s).1 ≡ unpatched s)
        × (unpatched (remove_id host id s).1 ≡ unpatched s)
        × Clears s (remove_all host s)
  calls-unpatched callback dispatch_fn s address id on_hit v a = (
    set-unpatched host laws protects callback dispatch_fn s address on_hit v,
    remove_id-unpatched s id v a,
    remove_all-unpatched s,
  )
