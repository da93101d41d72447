-- ===== src/Exceptions.antt =====
-- src/core/bindings/native_exception_handler.cc on x86-64 Linux: the registry of handlers, the signal
-- handler that asks them in turn, and the switches that install it.
mod Contexts
pub mod Dispatch
pub mod Lifecycle
pub mod Pairs
unfoldable pub use Contexts.*
use better_ncm.Base.{
  ℕ, zero, suc, ◌+◌, ◌-◌, ◌*◌, ◌/◌, ◌%◌, ◌^◌, Bool, true, false, not, ◌||◌, Option, none, some,
  List, [], ◌∷◌, ◌++◌, ltb, ◌==◌, if◌then◌else◌, Outcome, ok, thrown,
}
use better_ncm.Base.Int.{ℤ, pos, negsuc}
use better_ncm.Hex.{NumberError, stoull_hex, to_hex_addr}
use better_ncm.Signals.{
  Signal, sigsegv, sigbus, sigtrap, sigill, other_signal, Disposition, default_action, ignored,
  global_handler, safe_read_handler, host_handler, Dispositions, all_global,
}

-- `HandlerEntry` and `JsCallbackEntry`: the callback is the number of a function.
pub record HandlerEntry : Type 0 where
  pub id : ℕ
  pub type : ExceptionType
  pub callback : ℕ

-- The globals. `current` are the dispositions of the process, `saved` those of `g_old_sig…`.
pub record Registry : Type 0 where
  pub handlers : List HandlerEntry
  pub next_id : ℕ
  pub js_callbacks : List HandlerEntry
  pub next_js_id : ℕ
  pub enabled : Bool
  pub ref_count : ℤ
  pub current : Dispositions
  pub saved : Dispositions

-- What a handler does to the context, and whether it answers `Handled`.
abbrev pub Handlers : Type 0
Handlers = ℕ → Context → Bool × Context

-- The loop of `globalSignalHandler` over a copy of the handlers. The context is shared, so a handler
-- that does not take the exception may still have changed it.
pub dispatch_loop : Handlers → List HandlerEntry → Context → Bool × Context
dispatch_loop run [] ctx = (false, ctx)
dispatch_loop run (entry ∷ rest) ctx =
    let (handled, ctx') = run entry.callback ctx in
    let later = dispatch_loop run rest ctx' in
    let skipped = dispatch_loop run rest ctx in
    if is_type entry.type ctx.type then if handled then (true, ctx') else later else skipped

-- What `forwardToOriginal` does with the saved action.
pub data Forwarded : Type 0 where
  calls : Disposition → Forwarded
  reraises ignores : Forwarded

pub forward_to_original : Disposition → Forwarded
forward_to_original default_action = reraises
forward_to_original ignored = ignores
forward_to_original global_handler = calls global_handler
forward_to_original safe_read_handler = calls safe_read_handler
forward_to_original (host_handler f) = calls (host_handler f)

pub saved_for : Signal → Dispositions → Option Disposition
saved_for sigsegv d = some d.segv
saved_for sigbus d = some d.bus
saved_for sigtrap d = some d.trap
saved_for sigill d = some d.ill
saved_for other_signal d = none

-- `globalSignalHandler`: the context it leaves, and what was forwarded.
pub global_signal_handler :
    Handlers → Registry → Signal → SignalInfo → ℕ → ℕ → Context × Option Forwarded
global_signal_handler run r sig info pc flags =
    let (handled, ctx) =
      dispatch_loop run r.handlers (build_context_from_signal sig info pc flags) in
    if handled
    then (ctx, none)
    else (ctx, elim (saved_for sig r.saved) [ none ↦ none | some d ↦ some (forward_to_original d) ])

pub install_handlers : Registry → Registry
install_handlers r = record r { current = all_global; saved = r.current }

pub remove_handlers : Registry → Registry
remove_handlers r = record r { current = r.saved }

pub enable : Registry → Registry
enable r = if r.enabled then r else install_handlers (record r { enabled = true })

unfoldable pub is_positive : ℤ → Bool
is_positive (pos n) = ltb 0 n
is_positive (negsuc n) = false

pub disable : Registry → Registry
disable r =
    let off = record r { enabled = false } in
    if not r.enabled then r else if is_positive r.ref_count then off else remove_handlers off

abbrev pub inc : ℤ → ℤ
inc (pos n) = pos (suc n)
inc (negsuc zero) = pos 0
inc (negsuc (suc n)) = negsuc n

abbrev pub dec : ℤ → ℤ
dec (pos zero) = negsuc 0
dec (pos (suc n)) = pos n
dec (negsuc n) = negsuc (suc n)

pub is_zero : ℤ → Bool
is_zero (pos n) = n == 0
is_zero (negsuc n) = false

pub ref_enable : Registry → Registry
ref_enable r =
    let counted = record r { ref_count = inc r.ref_count } in
    if is_zero r.ref_count
    then if r.enabled then counted else install_handlers (record counted { enabled = true })
    else counted

-- The branch for the last sub-system is empty.
pub ref_disable : Registry → Registry
ref_disable r = record r { ref_count = dec r.ref_count }

unfoldable pub register_handler : ExceptionType → ℕ → Registry → ℕ × Registry
register_handler type callback r = (
  r.next_id,
  record r {
    handlers = r.handlers ++ record { id = r.next_id; type = type; callback = callback } ∷ [];
    next_id = (r.next_id + 1) % 2 ^ 64;
  },
)

-- `std::remove_if` and `erase`
pub without : ℕ → List HandlerEntry → List HandlerEntry
without id [] = []
without id (entry ∷ rest) =
    let kept = without id rest in if entry.id == id then kept else entry ∷ kept

pub unregister_handler : ℕ → Registry → Registry
unregister_handler id r = record r { handlers = without id r.handlers }

-- `addCallback` and `removeCallback` on the callbacks of the host.
pub data CallbackError : Type 0 where
  unknown_type : List ℕ → CallbackError
  bad_callback_id : NumberError → CallbackError

pub add_callback : List ℕ → ℕ → Registry → Outcome CallbackError (List ℕ) × Registry
add_callback name callback r =
    let type = string_to_exception_type name in
    if is_type type unknown_exception then (thrown (unknown_type name), r) else (
      ok (to_hex_addr r.next_js_id),
      record r {
        js_callbacks =
            r.js_callbacks ++ record { id = r.next_js_id; type = type; callback = callback } ∷ [];
        next_js_id = (r.next_js_id + 1) % 2 ^ 64;
      },
    )

pub remove_callback : List ℕ → Registry → Outcome CallbackError (Unit {0}) × Registry
remove_callback text r = elim (stoull_hex text) [
  | thrown e ↦ (thrown (bad_callback_id e), r)
  | ok id ↦ (ok tt, record r { js_callbacks = without id r.js_callbacks })
]

pub remove_all_callbacks : Registry → Registry
remove_all_callbacks r = record r { js_callbacks = [] }
