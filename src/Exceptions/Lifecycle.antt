-- ===== src/Exceptions/Lifecycle.antt =====
-- When the signal handler is installed, and what unclaimed signals are forwarded to.
use mathlib.Core.Path.{subst⁻¹}
use better_ncm.Base.{
  [], ℕ, ◌≡◌, ◌≢◌, refl, ap, true, false, not, Bool-cases, inl, inr, some, arith, if◌then◌else◌,
}
use better_ncm.Signals.{
  Signal, sigsegv, sigbus, sigtrap, sigill, other_signal, global_handler, Dispositions, all_global,
}
use better_ncm.Exceptions.{
  remove_all_callbacks, ExceptionType, Registry, saved_for, install_handlers, remove_handlers,
  enable, disable, ref_enable, ref_disable, register_handler, unregister_handler, is_positive,
  is_zero,
}

-- No signal goes to `globalSignalHandler`.
pub record IsForeign (d : Dispositions) : Type 0 where
  pub segv : d.segv ≢ global_handler
  pub bus : d.bus ≢ global_handler
  pub trap : d.trap ≢ global_handler
  pub ill : d.ill ≢ global_handler

-- The handler is installed exactly while `g_enabled` holds, and the saved actions are the host's.
pub record IsSound (r : Registry) : Type 0 where
  pub on : r.enabled ≡ true → r.current ≡ all_global
  pub off : r.enabled ≡ false → IsForeign r.current
  pub foreign : IsForeign r.saved

-- One call of the module. The host calls `disable` only while no sub-system holds a reference.
pub data Step : Registry → Registry → Type 0 where
  step_enable : (r : Registry) → Step r (enable r)
  step_disable : (r : Registry) → is_positive r.ref_count ≡ false → Step r (disable r)
  step_ref_enable : (r : Registry) → Step r (ref_enable r)
  step_ref_disable : (r : Registry) → Step r (ref_disable r)
  step_register :
      (r : Registry) (type : ExceptionType) (callback : ℕ)
      → Step r (register_handler type callback r).1
  step_unregister : (r : Registry) (id : ℕ) → Step r (unregister_handler id r)

pub data Steps : Registry → Registry → Type 0 where
  no_step : (r : Registry) → Steps r r
  one_more : (r s t : Registry) → Steps r s → Step s t → Steps r t

enable-IsSound : (r : Registry) → IsSound r → IsSound (enable r)
unfolding enable install_handlers
enable-IsSound r v = elim (Bool-cases r.enabled) [
  | inl e ↦
      let same : enable r ≡ r =
        ap (λ b. if b then r else install_handlers (record r { enabled = true })) e in
      subst⁻¹ IsSound same v
  | inr e ↦
      rw (e, enable)
        (record { on = λ h. refl; off = λ h. absurd (ground arith); foreign = v.off e })
]

ref_enable-IsSound : (r : Registry) → IsSound r → IsSound (ref_enable r)
unfolding ref_enable install_handlers
ref_enable-IsSound r v = elim (Bool-cases (is_zero r.ref_count)) [
  | inr z ↦ rw (z, ref_enable) (record { on = v.on; off = v.off; foreign = v.foreign })
  | inl z ↦ elim (Bool-cases r.enabled) [
    | inl e ↦
        rw (z, e, ref_enable)
          (record { on = λ h. v.on e; off = λ h. absurd (ground arith); foreign = v.foreign })
    | inr e ↦
        rw (z, e, ref_enable)
          (record { on = λ h. refl; off = λ h. absurd (ground arith); foreign = v.off e })
  ]
]

disable-IsSound : (r : Registry) → is_positive r.ref_count ≡ false → IsSound r → IsSound (disable r)
unfolding disable remove_handlers
disable-IsSound r unused v = elim (Bool-cases r.enabled) [
  | inr e ↦
      let off = record r { enabled = false } in
      let same : disable r ≡ r =
        ap (λ b. if not b then r else if is_positive r.ref_count then off else remove_handlers off)
          e in
      subst⁻¹ IsSound same v
  | inl e ↦
      rw (e, unused, disable)
        (record { on = λ h. absurd (ground arith); off = λ h. v.foreign; foreign = v.foreign })
]

Step-IsSound : (r s : Registry) → Step r s → IsSound r → IsSound s
unfolding ref_disable register_handler unregister_handler
Step-IsSound r s (step_enable _) v = enable-IsSound r v
Step-IsSound r s (step_disable _ unused) v = disable-IsSound r unused v
Step-IsSound r s (step_ref_enable _) v = ref_enable-IsSound r v
Step-IsSound r s (step_ref_disable _) v = record { on = v.on; off = v.off; foreign = v.foreign }
Step-IsSound r s (step_register _ type callback) v = record {
  on = v.on;
  off = v.off;
  foreign = v.foreign;
}
Step-IsSound r s (step_unregister _ id) v = record { on = v.on; off = v.off; foreign = v.foreign }

-- Any number of calls keeps a registry sound.
pub Steps-IsSound : (r s : Registry) → Steps r s → IsSound r → IsSound s
Steps-IsSound r s (no_step _) v = v
Steps-IsSound r s (one_more _ m _ before last) v =
    Step-IsSound m s last (Steps-IsSound r m before v)

-- From a sound registry (installed exactly while enabled, the saved actions the host's), after any
-- calls of the module in which `disable` comes only while no sub-system holds a reference, no
-- signal is forwarded to `globalSignalHandler` itself.
pub saved_for_foreign :
    (r s : Registry) (sig : Signal)
    → IsSound r
    → Steps r s
    → saved_for sig s.saved ≢ some global_handler
unfolding saved_for
saved_for_foreign r s sigsegv v p h = (Steps-IsSound r s p v).foreign.segv (ground arith)
saved_for_foreign r s sigbus v p h = (Steps-IsSound r s p v).foreign.bus (ground arith)
saved_for_foreign r s sigtrap v p h = (Steps-IsSound r s p v).foreign.trap (ground arith)
saved_for_foreign r s sigill v p h = (Steps-IsSound r s p v).foreign.ill (ground arith)
saved_for_foreign r s other_signal v p h = absurd (ground arith)

-- `disable` after `enable` puts every disposition back, where the registry was not enabled and no
-- sub-system holds a reference.
pub disable-enable :
    (r : Registry)
    → r.enabled ≡ false
    → is_positive r.ref_count ≡ false
    → (disable (enable r)).current ≡ r.current
unfolding disable enable install_handlers remove_handlers
disable-enable r off unused = rw (off, enable, unused, disable) refl

-- In a sound and enabled registry in which a sub-system holds a reference, `disable` and then
-- `enable` save `globalSignalHandler` itself as the original action of every signal.
pub enable-disable_in_use :
    (r : Registry)
    → IsSound r
    → r.enabled ≡ true
    → is_positive r.ref_count ≡ true
    → (enable (disable r)).saved ≡ all_global
unfolding disable enable install_handlers
enable-disable_in_use r v on used = rw (on, used, disable, enable) (v.on on)

-- No callback of the script is left, and the handler is off.
pub disable-remove_all_callbacks :
    (r : Registry)
    → let t = disable (remove_all_callbacks r) in (t.js_callbacks ≡ []) × (t.enabled ≡ false)
unfolding disable remove_all_callbacks remove_handlers
disable-remove_all_callbacks r = (ground arith, ground arith)
