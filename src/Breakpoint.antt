-- ===== src/Breakpoint.antt =====
-- src/core/bindings/native_breakpoint.cc on x86-64 Linux: software breakpoints. The two maps hold
-- pointers to the same entries, which do not change once they are registered.
pub mod Effects
pub mod Set
pub mod Remove
pub mod Handler
use better_ncm.Base.{
  ℕ, zero, suc, ◌+◌, ◌-◌, ◌%◌, ◌^◌, Bool, true, false, Option, none, some, List, [], ◌∷◌,
  if◌then◌else◌, Outcome, ok, thrown, lookup, insert, erase,
}
use better_ncm.Hex.{NumberError, to_hex_addr, parse_hex_addr}
use better_ncm.Memory.{read_bytes}
use better_ncm.Callbacks.{Callback, CallResult, Event, dispatch}
use better_ncm.Relocator.Code.{Host}
use better_ncm.Relocator.{
  Machine, CodeError, make_writable_and_patch, build_relocated_code, build_trampoline, release_code,
}
use better_ncm.Exceptions.{
  breakpoint, Context, set_pc, Registry, ref_enable, ref_disable, register_handler,
  unregister_handler,
}

-- `BreakpointEntry`
pub record BreakpointEntry : Type 0 where
  pub address : ℕ
  pub original_bytes : List ℕ
  pub original_insn_size : ℕ
  pub trampoline_code : ℕ
  pub relocated_code : ℕ
  pub on_hit : Callback

-- The globals, with the machine and the exception registry; `new` gives the address `next_ptr`.
pub record State : Type 0 where
  pub machine : Machine
  pub registry : Registry
  pub next_ptr : ℕ
  pub next_bp_id : ℕ
  pub by_id : List (ℕ × BreakpointEntry)
  pub by_address : List (ℕ × BreakpointEntry)
  pub sigtrap_handler_id : ℕ
  pub handler_installed : Bool
  -- the ids whose entries are deleted, though the maps may still hold them
  pub deleted : List ℕ

pub data BreakpointError : Type 0 where
  already_set : ℕ → BreakpointError
  code_error : CodeError → BreakpointError
  bad_id : NumberError → BreakpointError

-- `BP_INSN_SIZE`, and INT3
abbrev pub bp_insn_size : ℕ
bp_insn_size = 1

abbrev pub int3 : List ℕ
int3 = 0xCC ∷ []

-- `chromatic_bp_dispatch`
pub bp_dispatch : (ℕ → List ℕ → CallResult) → ℕ → Option BreakpointEntry → List Event
bp_dispatch call cpu_context none = []
bp_dispatch call cpu_context (some entry) = dispatch call entry.on_hit cpu_context

-- `breakpointSigtrapHandler`: INT3 has advanced the program counter by 1.
pub sigtrap_handler : State → Context → Bool × Context
sigtrap_handler s ctx = elim (lookup ((ctx.pc + 2 ^ 64 - 1) % 2 ^ 64) s.by_address) [
  | none ↦ (false, ctx)
  | some entry ↦ (true, set_pc entry.trampoline_code ctx)
]

-- `callback` is the number of `breakpointSigtrapHandler` among the handlers.
unfoldable pub ensure_handler_installed : ℕ → State → State
ensure_handler_installed callback s =
    let (id, registry) = register_handler breakpoint callback (ref_enable s.registry) in
    let installed = record s {
      registry = registry;
      sigtrap_handler_id = id;
      handler_installed = true;
    } in
    if s.handler_installed then s else installed

unfoldable pub is_empty {ℓ} : {A : Type ℓ} → List A → Bool
is_empty [] = true
is_empty (x ∷ xs) = false

pub maybe_remove_handler : State → State
maybe_remove_handler s =
    let removed = record s {
      registry = ref_disable (unregister_handler s.sigtrap_handler_id s.registry);
      sigtrap_handler_id = 0;
      handler_installed = false;
    } in
    if s.handler_installed then if is_empty s.by_address then removed else s else s

-- The last step of `set`.
unfoldable pub register : State → Machine → BreakpointEntry → State
register s m entry = record s {
  machine = m;
  next_ptr = suc s.next_ptr;
  next_bp_id = (s.next_bp_id + 1) % 2 ^ 64;
  by_id = insert s.next_bp_id entry s.by_id;
  by_address = insert entry.address entry s.by_address;
}

-- A call that throws leaves the maps and the counter; the handler stays installed.
abbrev pub keep : State → Machine → State
keep s m = record s { machine = m; next_ptr = suc s.next_ptr }

abbrev pub release_entry : Machine → BreakpointEntry → Machine
release_entry m entry = release_code (release_code m entry.trampoline_code) entry.relocated_code

module _ (host : Host) where
  -- `set`, from the patch on
  unfoldable pub set_patched :
      State
      → BreakpointEntry
      → Outcome CodeError (Unit {0}) × Machine
      → Outcome BreakpointError (List ℕ) × State
  set_patched s entry (thrown e, m) = (thrown (code_error e), keep s m)
  set_patched s entry (ok _, m) = (ok (to_hex_addr s.next_bp_id), register s m entry)

  -- from the trampoline on; its failure releases the relocated code
  unfoldable pub set_built :
      State
      → ℕ
      → Callback
      → ℕ × ℕ
      → Outcome CodeError ℕ × Machine
      → Outcome BreakpointError (List ℕ) × State
  set_built s address on_hit (code, consumed) (thrown e, m) =
      (thrown (code_error e), keep s (release_code m code))
  set_built s address on_hit (code, consumed) (ok trampoline, m) =
      set_patched s
        (record {
          address = address;
          original_bytes = read_bytes s.machine.mem address bp_insn_size;
          original_insn_size = consumed;
          trampoline_code = trampoline;
          relocated_code = code;
          on_hit = on_hit;
        })
        (make_writable_and_patch host m address int3)

  -- from the relocated code on; `dispatch_fn` is the address of `chromatic_bp_dispatch`
  unfoldable pub set_relocated :
      ℕ
      → State
      → ℕ
      → Callback
      → Outcome CodeError (ℕ × ℕ) × Machine
      → Outcome BreakpointError (List ℕ) × State
  set_relocated dispatch_fn s address on_hit (thrown e, m) = (thrown (code_error e), keep s m)
  set_relocated dispatch_fn s address on_hit (ok (code, consumed), m) =
      set_built s address on_hit (code, consumed)
        (build_trampoline host m dispatch_fn 0 s.next_ptr code)

  unfoldable pub set_installed : ℕ → ℕ → Callback → State → Outcome BreakpointError (List ℕ) × State
  set_installed dispatch_fn address on_hit s =
      set_relocated dispatch_fn s address on_hit
        (build_relocated_code host s.machine address bp_insn_size)

  unfoldable pub set : ℕ → ℕ → ℕ → Callback → State → Outcome BreakpointError (List ℕ) × State
  set callback dispatch_fn address on_hit s = elim (lookup address s.by_address) [
    | some _ ↦ (thrown (already_set address), s)
    | none ↦ set_installed dispatch_fn address on_hit (ensure_handler_installed callback s)
  ]

  -- `remove`, from the restored byte on
  pub remove_restored :
      State
      → ℕ
      → BreakpointEntry
      → Outcome CodeError (Unit {0}) × Machine
      → Outcome BreakpointError (Unit {0}) × State
  remove_restored s id entry (thrown e, m) = (thrown (code_error e), record s { machine = m })
  remove_restored s id entry (ok _, m) = (
    ok tt,
    maybe_remove_handler (record s {
      machine = release_entry m entry;
      by_id = erase id s.by_id;
      by_address = erase entry.address s.by_address;
    }),
  )

  -- `remove`, from the parsed id on
  pub remove_id : ℕ → State → Outcome BreakpointError (Unit {0}) × State
  remove_id id s = elim (lookup id s.by_id) [
    | none ↦ (ok tt, s)
    | some entry ↦
        remove_restored s id entry
          (make_writable_and_patch host s.machine entry.address entry.original_bytes)
  ]

  pub remove : List ℕ → State → Outcome BreakpointError (Unit {0}) × State
  remove text s = elim (parse_hex_addr text) [
    | thrown e ↦ (thrown (bad_id e), s)
    | ok id ↦ remove_id id s
  ]

  -- The loop of `removeAll`. An exception leaves it at once.
  pub remove_loop :
      List (ℕ × BreakpointEntry)
      → Machine
      → List ℕ
      → Outcome BreakpointError (Unit {0}) × Machine × List ℕ
  remove_loop [] m gone = (ok tt, m, gone)
  remove_loop ((id, entry) ∷ rest) m gone =
      let (patched, m1) = make_writable_and_patch host m entry.address entry.original_bytes in
      elim patched [
        | thrown e ↦ (thrown (code_error e), m1, gone)
        | ok _ ↦ remove_loop rest (release_entry m1 entry) (id ∷ gone)
      ]

  -- An exception of the loop leaves both maps, with pointers to the entries deleted so far.
  pub remove_all_done :
      State
      → Outcome BreakpointError (Unit {0}) × Machine × List ℕ
      → Outcome BreakpointError (Unit {0}) × State
  remove_all_done s (thrown e, m, gone) = (thrown e, record s { machine = m; deleted = gone })
  remove_all_done s (ok _, m, gone) = (
    ok tt,
    maybe_remove_handler (record s { machine = m; by_id = []; by_address = []; deleted = gone }),
  )

  pub remove_all : State → Outcome BreakpointError (Unit {0}) × State
  remove_all s = remove_all_done s (remove_loop s.by_id s.machine s.deleted)
