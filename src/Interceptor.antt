-- ===== src/Interceptor.antt =====
-- src/core/bindings/native_interceptor.cc. The two maps hold pointers to the same entries, which do
-- not change once they are registered; an entry carries its address for the comparison in `revert`.
pub mod Maps
pub mod Invariant
pub mod Steps
pub mod Detach
pub mod View
use better_ncm.Base.{
  ℕ, zero, suc, ◌+◌, ◌%◌, ◌^◌, Option, none, some, List, [], ◌∷◌, ◌==◌, if◌then◌else◌, Outcome, ok,
  thrown, lookup, insert, erase,
}
use better_ncm.Hex.{NumberError, to_hex_addr, parse_hex_addr}
use better_ncm.Memory.{read_bytes}
use better_ncm.Callbacks.{Callback, CallResult, Event, dispatch}
use better_ncm.Relocator.Code.{Host}
use better_ncm.Relocator.{
  Machine, CodeError, patch_size, make_writable_and_patch, generate_patch_bytes,
  build_relocated_code, build_trampoline, release_code,
}

-- `HookEntry`. A null address is 0.
pub record HookEntry : Type 0 where
  pub ptr : ℕ
  pub target : ℕ
  pub trampoline_code : ℕ
  pub relocated_code : ℕ
  pub original_bytes : List ℕ
  pub patch_len : ℕ
  pub on_enter : Callback
  pub on_leave : Callback

-- `new HookEntry` gives the address `next_ptr`.
pub record State : Type 0 where
  pub machine : Machine
  pub next_ptr : ℕ
  pub next_hook_id : ℕ
  pub by_id : List (ℕ × HookEntry)
  pub by_target : List (ℕ × HookEntry)
  -- the addresses of entries that are deleted, though the maps may still hold them
  pub deleted : List ℕ

pub data HookError : Type 0 where
  already_hooked : ℕ → HookError
  code_error : CodeError → HookError
  bad_id : NumberError → HookError

-- `chromatic_interceptor_dispatch` and `chromatic_interceptor_dispatch_leave`, which do nothing for
-- a null entry.
pub dispatch_enter : (ℕ → List ℕ → CallResult) → ℕ → Option HookEntry → List Event
dispatch_enter call cpu_context none = []
dispatch_enter call cpu_context (some entry) = dispatch call entry.on_enter cpu_context

pub dispatch_leave : (ℕ → List ℕ → CallResult) → ℕ → Option HookEntry → List Event
dispatch_leave call cpu_context none = []
dispatch_leave call cpu_context (some entry) = dispatch call entry.on_leave cpu_context

-- The last step of `attach` and `replace`: the two maps and the counter.
unfoldable pub register : State → Machine → HookEntry → State
register s m entry = record s {
  machine = m;
  next_ptr = suc s.next_ptr;
  next_hook_id = (s.next_hook_id + 1) % 2 ^ 64;
  by_id = insert s.next_hook_id entry s.by_id;
  by_target = insert entry.target entry s.by_target;
}

-- A call that throws leaves the maps and the counter.
abbrev pub keep : State → Machine → State
keep s m = record s { machine = m; next_ptr = suc s.next_ptr }

-- The addresses of the two dispatch functions in the program.
pub record Dispatchers : Type 0 where
  pub enter : ℕ
  pub leave : ℕ

module _ (host : Host) (fns : Dispatchers) where
  -- `attach`, from the patch on
  unfoldable pub attach_patched :
      State
      → HookEntry
      → Outcome CodeError (Unit {0}) × Machine
      → Outcome HookError (List ℕ) × State
  attach_patched s entry (thrown e, m) = (thrown (code_error e), keep s m)
  attach_patched s entry (ok _, m) = (ok (to_hex_addr s.next_hook_id), register s m entry)

  -- from the trampoline on; its failure releases the relocated code
  unfoldable pub attach_built :
      State
      → ℕ
      → Callback
      → Callback
      → ℕ
      → Outcome CodeError ℕ × Machine
      → Outcome HookError (List ℕ) × State
  attach_built s target on_enter on_leave code (thrown e, m) =
      (thrown (code_error e), keep s (release_code m code))
  attach_built s target on_enter on_leave code (ok trampoline, m) =
      attach_patched s
        (record {
          ptr = s.next_ptr;
          target = target;
          trampoline_code = trampoline;
          relocated_code = code;
          original_bytes = read_bytes s.machine.mem target patch_size;
          patch_len = patch_size;
          on_enter = on_enter;
          on_leave = on_leave;
        })
        (make_writable_and_patch host m target (generate_patch_bytes trampoline))

  -- from the relocated code on
  unfoldable pub attach_relocated :
      State
      → ℕ
      → Callback
      → Callback
      → Outcome CodeError (ℕ × ℕ) × Machine
      → Outcome HookError (List ℕ) × State
  attach_relocated s target on_enter on_leave (thrown e, m) = (thrown (code_error e), keep s m)
  attach_relocated s target on_enter on_leave (ok (code, _), m) =
      attach_built s target on_enter on_leave code
        (build_trampoline host m fns.enter fns.leave s.next_ptr code)

  unfoldable pub attach : ℕ → Callback → Callback → State → Outcome HookError (List ℕ) × State
  attach target on_enter on_leave s = elim (lookup target s.by_target) [
    | some _ ↦ (thrown (already_hooked target), s)
    | none ↦
        attach_relocated s target on_enter on_leave
          (build_relocated_code host s.machine target patch_size)
  ]

abbrev pub release_entry : Machine → HookEntry → Machine
release_entry m entry = release_code (release_code m entry.trampoline_code) entry.relocated_code

-- The loop of `revert` over `hooksById`, which erases the first entry at the address `ptr`.
pub erase_ptr : ℕ → List (ℕ × HookEntry) → List (ℕ × HookEntry)
erase_ptr p [] = []
erase_ptr p ((id, entry) ∷ rest) =
    let later = (id, entry) ∷ erase_ptr p rest in if entry.ptr == p then rest else later

module _ (host : Host) where
  -- `replace`, from the patch on: it returns the relocated code.
  pub replace_patched :
      State → HookEntry → Outcome CodeError (Unit {0}) × Machine → Outcome HookError ℕ × State
  replace_patched s entry (thrown e, m) = (thrown (code_error e), keep s m)
  replace_patched s entry (ok _, m) = (ok entry.relocated_code, register s m entry)

  -- from the relocated code on: there is no trampoline, and the patch jumps to the replacement
  pub replace_relocated :
      State → ℕ → ℕ → Outcome CodeError (ℕ × ℕ) × Machine → Outcome HookError ℕ × State
  replace_relocated s target replacement (thrown e, m) = (thrown (code_error e), keep s m)
  replace_relocated s target replacement (ok (code, _), m) =
      replace_patched s
        (record {
          ptr = s.next_ptr;
          target = target;
          trampoline_code = 0;
          relocated_code = code;
          original_bytes = read_bytes s.machine.mem target patch_size;
          patch_len = patch_size;
          on_enter = none;
          on_leave = none;
        })
        (make_writable_and_patch host m target (generate_patch_bytes replacement))

  pub replace : ℕ → ℕ → State → Outcome HookError ℕ × State
  replace target replacement s = elim (lookup target s.by_target) [
    | some _ ↦ (thrown (already_hooked target), s)
    | none ↦
        replace_relocated s target replacement
          (build_relocated_code host s.machine target patch_size)
  ]

  -- `detach`, from the restored bytes on
  pub detach_restored :
      State
      → ℕ
      → HookEntry
      → Outcome CodeError (Unit {0}) × Machine
      → Outcome HookError (Unit {0}) × State
  detach_restored s id entry (thrown e, m) = (thrown (code_error e), record s { machine = m })
  detach_restored s id entry (ok _, m) = (
    ok tt,
    record s {
      machine = release_entry m entry;
      by_id = erase id s.by_id;
      by_target = erase entry.target s.by_target;
    },
  )

  -- `detach`, from the parsed id on
  pub detach_id : ℕ → State → Outcome HookError (Unit {0}) × State
  detach_id id s = elim (lookup id s.by_id) [
    | none ↦ (ok tt, s)
    | some entry ↦
        detach_restored s id entry
          (make_writable_and_patch host s.machine entry.target entry.original_bytes)
  ]

  pub detach : List ℕ → State → Outcome HookError (Unit {0}) × State
  detach text s = elim (parse_hex_addr text) [
    | thrown e ↦ (thrown (bad_id e), s)
    | ok id ↦ detach_id id s
  ]

  -- The loop of `detachAll` over the entries. An exception leaves it at once.
  pub detach_loop :
      List (ℕ × HookEntry) → Machine → List ℕ → Outcome HookError (Unit {0}) × Machine × List ℕ
  detach_loop [] m gone = (ok tt, m, gone)
  detach_loop ((id, entry) ∷ rest) m gone =
      let (patched, m1) = make_writable_and_patch host m entry.target entry.original_bytes in
      elim patched [
        | thrown e ↦ (thrown (code_error e), m1, gone)
        | ok _ ↦ detach_loop rest (release_entry m1 entry) (entry.ptr ∷ gone)
      ]

  -- An exception of the loop leaves both maps, with pointers to the entries deleted so far.
  pub detach_all_done :
      State → Outcome HookError (Unit {0}) × Machine × List ℕ → Outcome HookError (Unit {0}) × State
  detach_all_done s (thrown e, m, gone) = (thrown e, record s { machine = m; deleted = gone })
  detach_all_done s (ok _, m, gone) =
      (ok tt, record s { machine = m; by_id = []; by_target = []; deleted = gone })

  pub detach_all : State → Outcome HookError (Unit {0}) × State
  detach_all s = detach_all_done s (detach_loop s.by_id s.machine s.deleted)

  -- `revert`, from the restored bytes on
  pub revert_restored :
      State
      → ℕ
      → HookEntry
      → Outcome CodeError (Unit {0}) × Machine
      → Outcome HookError (Unit {0}) × State
  revert_restored s target entry (thrown e, m) = (thrown (code_error e), record s { machine = m })
  revert_restored s target entry (ok _, m) = (
    ok tt,
    record s {
      machine = release_entry m entry;
      by_id = erase_ptr entry.ptr s.by_id;
      by_target = erase target s.by_target;
    },
  )

  pub revert : ℕ → State → Outcome HookError (Unit {0}) × State
  revert target s = elim (lookup target s.by_target) [
    | none ↦ (ok tt, s)
    | some entry ↦
        revert_restored s target entry
          (make_writable_and_patch host s.machine entry.target entry.original_bytes)
  ]
