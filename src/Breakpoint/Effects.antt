-- ===== src/Breakpoint/Effects.antt =====
-- What one call of `set` and `ensureHandlerInstalled` changes.
use better_ncm.Base.{
  ℕ, ◌≡◌, refl, ap, ◌≢◌, none, some, List, arith, Outcome, ok, thrown, lookup, insert, erase,
  erase_fresh, IsFresh-of_lookup, IsUnique, Below, IsFresh-of_Below, lookup_fresh,
  lookup-insert_self, inl, inr, ◌⊎◌,
}
use better_ncm.Hex.{to_hex_addr}
use better_ncm.Memory.{Memory, write_bytes, read_bytes, write-read_undo}
use better_ncm.Patches.{restore_all}
use better_ncm.Callbacks.{Callback}
use better_ncm.Relocator.Code.{Host, Allocates, Emit}
use better_ncm.Relocator.{Machine, build_trampoline, trampoline_code}
use better_ncm.Relocator.Effects.{
  patch_ok, Protects, release_two, build_relocated_code-Built, build_trampoline-Added,
  release-insert,
}
use better_ncm.Breakpoint.{
  BreakpointEntry, State, BreakpointError, bp_insn_size, int3, ensure_handler_installed,
  maybe_remove_handler, register, release_entry, set_patched, set_built, set_relocated,
  set_installed,
}

abbrev pub address_of : BreakpointEntry → ℕ
address_of e = e.address

abbrev pub original_of : BreakpointEntry → List ℕ
original_of e = e.original_bytes

-- Memory after every breakpoint is taken back, in the order of the table.
abbrev pub unpatched : State → Memory
unpatched s = restore_all address_of original_of bp_insn_size s.by_id s.machine.mem

-- What `register` is given by a successful `set`.
pub record Traps (dispatch_fn : ℕ) (s : State) (address : ℕ) (m : Machine) (e : BreakpointEntry)
    : Type 0 where
  pub at : e.address ≡ address
  pub saved : e.original_bytes ≡ read_bytes s.machine.mem address bp_insn_size
  pub patched : m.mem ≡ write_bytes s.machine.mem address int3
  pub free : lookup address s.by_address ≡ none
  pub jump :
      lookup e.trampoline_code m.blocks
      ≡ some (trampoline_code dispatch_fn 0 s.next_ptr e.relocated_code)
  pub released :
      (mem : Memory)
      → release_entry (record m { mem = mem }) e ≡ record { mem = mem; blocks = s.machine.blocks }

-- The maps, the ids, the memory and the blocks are as they were.
pub record Unchanged (s t : State) : Type 0 where
  pub by_id : t.by_id ≡ s.by_id
  pub by_address : t.by_address ≡ s.by_address
  pub next_bp_id : t.next_bp_id ≡ s.next_bp_id
  pub machine : t.machine ≡ s.machine

-- A call that sets a breakpoint leaves all as it was, or a new breakpoint.
abbrev pub Sets : ℕ → State → ℕ → Outcome BreakpointError (List ℕ) × State → Type 0
Sets dispatch_fn s address r =
    ((e : BreakpointError) × (t : State) × Unchanged s t × (r ≡ (thrown e, t)))
    ⊎ ((m : Machine) × (e : BreakpointEntry) × Traps dispatch_fn s address m e
        × (r ≡ (ok (to_hex_addr s.next_bp_id), register s m e)))

module _ (host : Host) (laws : Allocates host) (protects : Protects host) (s : State) where
  same : (p : ℕ) → Unchanged s (record s { next_ptr = p })
  same p = record { by_id = refl; by_address = refl; next_bp_id = refl; machine = refl }

  built-Sets :
      (dispatch_fn address : ℕ) (on_hit : Callback) (code consumed : ℕ) (block : List Emit)
      → lookup address s.by_address ≡ none
      → code ≢ 0
      → lookup code s.machine.blocks ≡ none
      → let m = record s.machine { blocks = insert code block s.machine.blocks } in
        Sets dispatch_fn s address (
          set_built host s address on_hit
            (code, consumed)
            (build_trampoline host m dispatch_fn 0 s.next_ptr code))
  unfolding set_built set_patched
  built-Sets dispatch_fn address on_hit code consumed block free nz fresh =
      let m = record s.machine { blocks = insert code block s.machine.blocks } in
      elim (build_trampoline-Added host laws m dispatch_fn 0 s.next_ptr code) [
        | inl q ↦
            let back = release-insert s.machine code block nz fresh in
            rw (q, set_built)
              (inl (
                _,
                _,
                record { by_id = refl; by_address = refl; next_bp_id = refl; machine = back },
                refl,
              ))
        | inr (t, tnz, tfresh, q) ↦
            rw (q, set_built, patch_ok host _ address int3 protects, set_patched)
              (inr (
                _,
                _,
                record {
                  at = refl;
                  saved = refl;
                  patched = refl;
                  free = free;
                  jump = lookup-insert_self t _ _;
                  released =
                      λ mem. release_two mem s.machine.blocks code t block _ nz fresh tnz tfresh;
                },
                refl,
              ))
      ]

  pub set_installed-Sets :
      (dispatch_fn address : ℕ) (on_hit : Callback)
      → lookup address s.by_address ≡ none
      → Sets dispatch_fn s address (set_installed host dispatch_fn address on_hit s)
  unfolding set_installed set_relocated
  set_installed-Sets dispatch_fn address on_hit free =
      elim (build_relocated_code-Built host laws s.machine address bp_insn_size) [
        | inl (e, q) ↦ rw (q, set_relocated) (inl (_, _, same _, refl))
        | inr (code, n, block, nz, fresh, q) ↦
            rw (q, set_relocated) (built-Sets dispatch_fn address on_hit code n block free nz fresh)
      ]

-- `ensureHandlerInstalled` changes the registry only.
pub ensure-Unchanged :
    (callback : ℕ) (s : State) → Unchanged s (ensure_handler_installed callback s)
unfolding ensure_handler_installed
ensure-Unchanged callback s = record {
  by_id = ground arith;
  by_address = ground arith;
  next_bp_id = ground arith;
  machine = ground arith;
}

pub maybe-Unchanged : (s : State) → Unchanged s (maybe_remove_handler s)
unfolding maybe_remove_handler
maybe-Unchanged s = record {
  by_id = ground arith;
  by_address = ground arith;
  next_bp_id = ground arith;
  machine = ground arith;
}

-- The ids of the table differ and were given out before.
pub record IsTable (s : State) : Type 0 where
  pub unique : IsUnique s.by_id
  pub below : Below s.next_bp_id s.by_id

pub new_id : (s : State) → IsTable s → lookup s.next_bp_id s.by_id ≡ none
new_id s v =
    lookup_fresh s.next_bp_id s.by_id
      (IsFresh-of_Below s.next_bp_id s.next_bp_id s.by_id (omega arith) v.below)

pub Unchanged-IsTable : (s t : State) → Unchanged s t → IsTable s → IsTable t
Unchanged-IsTable s t u v = record {
  unique = rw u.by_id v.unique;
  below = rw (u.by_id, u.next_bp_id) v.below;
}

pub Unchanged-unpatched : (s t : State) → Unchanged s t → unpatched t ≡ unpatched s
Unchanged-unpatched s t u = cc (u.by_id, u.machine)

-- Registering a breakpoint does not change the memory without breakpoints.
pub register-unpatched :
    (dispatch_fn : ℕ) (s : State) (address : ℕ) (m : Machine) (e : BreakpointEntry)
    → IsTable s
    → Traps dispatch_fn s address m e
    → unpatched (register s m e) ≡ unpatched s
unfolding register insert restore_all
register-unpatched dispatch_fn s address m e v new =
    let gone : erase s.next_bp_id s.by_id ≡ s.by_id =
      erase_fresh s.next_bp_id s.by_id (IsFresh-of_lookup s.next_bp_id s.by_id (new_id s v)) in
    rw (gone, new.at, new.saved, new.patched)
      (ap (restore_all address_of original_of bp_insn_size s.by_id)
        (write-read_undo s.machine.mem address int3))
