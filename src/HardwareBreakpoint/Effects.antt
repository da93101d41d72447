-- ===== src/HardwareBreakpoint/Effects.antt =====
-- What `set` and `remove` change.
use better_ncm.Base.{
  ℕ, ◌≡◌, refl, ◌∙◌, ap, ◌≢◌, true, false, Bool-cases, none, some, List, Outcome, ok, thrown,
  lookup, insert, erase-insert, lookup-insert_self, Option-cases, inl, inr, ◌⊎◌,
}
use better_ncm.Base.Int.{ℤ}
use better_ncm.Hex.{to_hex_addr}
use better_ncm.Callbacks.{Callback}
use better_ncm.Relocator.Code.{Host, Allocates, Emit}
use better_ncm.Relocator.{Machine, build_trampoline, trampoline_code, release_code}
use better_ncm.Relocator.Effects.{
  release_two, build_relocated_code-Built, build_trampoline-Added, release-insert, release_null,
}
use better_ncm.PerfEvents.{
  HwBpType, is_execute, PerfEvent, Events, Kernel, perf_event, linux_set_hw_bp, linux_clear_hw_bp,
}
use better_ncm.HardwareBreakpoint.{
  HwEntry, State, HwError, register, release_entry, set_opened, set_armed, set_built, set_relocated,
  set_installed, new_entry,
}

-- A file descriptor that the kernel gives is not open.
abbrev pub Opens : Kernel → Type 0
Opens kernel =
    (events : Events) (pe : PerfEvent) (fd : ℕ)
    → kernel events pe ≡ some fd
    → lookup fd events ≡ none

-- All but the registry and the address of the next entry is as it was.
pub record Unchanged (s t : State) : Type 0 where
  pub by_id : t.by_id ≡ s.by_id
  pub by_address : t.by_address ≡ s.by_address
  pub next_hw_id : t.next_hw_id ≡ s.next_hw_id
  pub machine : t.machine ≡ s.machine
  pub events : t.events ≡ s.events

-- The code of an entry: none, or a trampoline for it
abbrev pub HasCode : ℕ → State → Machine → HwEntry → Type 0
HasCode dispatch_fn s m e =
    ((is_execute e.type ≡ false) × (e.trampoline_code ≡ 0))
    ⊎ ((is_execute e.type ≡ true)
        × (e.trampoline_code ≢ 0)
        × (lookup e.trampoline_code m.blocks
            ≡ some (trampoline_code dispatch_fn 0 s.next_ptr e.relocated_code)))

-- What is built before the event is opened
pub record IsReady (dispatch_fn : ℕ) (s : State) (m : Machine) (e : HwEntry) : Type 0 where
  pub code : HasCode dispatch_fn s m e
  pub released : release_entry m e ≡ s.machine

-- What `register` is given by a successful `set`
pub record Adds (dispatch_fn : ℕ) (s : State) (address : ℕ) (type : HwBpType) (m : Machine)
    (events : Events) (e : HwEntry) : Type 0 where
  pub at : e.address ≡ address
  pub same_type : e.type ≡ type
  pub code : HasCode dispatch_fn s m e
  pub released : release_entry m e ≡ s.machine
  pub closed : linux_clear_hw_bp e.perf_fd events ≡ s.events

abbrev pub Sets : ℕ → State → ℕ → HwBpType → Outcome HwError (List ℕ) × State → Type 0
Sets dispatch_fn s address type r =
    ((e : HwError) × (t : State) × Unchanged s t × (r ≡ (thrown e, t)))
    ⊎ ((m : Machine) × (events : Events) × (e : HwEntry) × Adds dispatch_fn s address type m events
          e
        × (r ≡ (ok (to_hex_addr s.next_hw_id), register s m events e)))

linux_set_hw_bp-clear :
    (kernel : Kernel)
    → Opens kernel
    → (events : Events) (addr : ℕ) (type : HwBpType) (size : ℤ)
    → (linux_set_hw_bp kernel events addr type size ≡ none)
      ⊎ ((fd : ℕ) × (later : Events) × (linux_set_hw_bp kernel events addr type size
            ≡ some (fd, later))
          × (linux_clear_hw_bp (some fd) later ≡ events))
unfolding linux_set_hw_bp linux_clear_hw_bp
linux_set_hw_bp-clear kernel laws events addr type size =
    let pe = perf_event addr type size false in
    let on = perf_event addr type size true in
    elim (Option-cases (kernel events pe)) [
      | inl q ↦ inl (rw (q, linux_set_hw_bp) refl)
      | inr (fd, q) ↦ inr (
        fd,
        insert fd on events,
        rw (q, linux_set_hw_bp) refl,
        erase-insert fd on events (laws events pe fd q),
      )
    ]

module _ (host : Host) (laws : Allocates host) (kernel : Kernel) (opens : Opens kernel)
    (dispatch_fn : ℕ) (s : State) where
  same : (p : ℕ) → Unchanged s (record s { next_ptr = p })
  same p = record {
    by_id = refl;
    by_address = refl;
    next_hw_id = refl;
    machine = refl;
    events = refl;
  }

  set_armed-Sets :
      (m : Machine) (e : HwEntry)
      → IsReady dispatch_fn s m e
      → Sets dispatch_fn s e.address e.type (set_armed host kernel s m e)
  unfolding set_armed set_opened
  set_armed-Sets m e ready =
      elim (linux_set_hw_bp-clear kernel opens s.events e.address e.type e.size) [
        | inl q ↦
            rw (q, set_opened)
              (inl (
                _,
                _,
                record {
                  by_id = refl;
                  by_address = refl;
                  next_hw_id = refl;
                  machine = ready.released;
                  events = refl;
                },
                refl,
              ))
        | inr (fd, later, q, closed) ↦
            rw (q, set_opened)
              (inr (
                m,
                later,
                record e { perf_fd = some fd },
                record {
                  at = refl;
                  same_type = refl;
                  code = ready.code;
                  released = ready.released;
                  closed = closed;
                },
                refl,
              ))
      ]

  set_built-Sets :
      (code : ℕ) (block : List Emit) (e0 : HwEntry)
      → is_execute e0.type ≡ true
      → code ≢ 0
      → lookup code s.machine.blocks ≡ none
      → let m = record s.machine { blocks = insert code block s.machine.blocks } in
        Sets dispatch_fn s e0.address e0.type (
          set_built host kernel s
            (record e0 { relocated_code = code })
            (build_trampoline host m dispatch_fn 0 s.next_ptr code))
  unfolding set_built
  set_built-Sets code block e0 exec nz fresh =
      let m = record s.machine { blocks = insert code block s.machine.blocks } in
      elim (build_trampoline-Added host laws m dispatch_fn 0 s.next_ptr code) [
        | inl q ↦
            let back = release-insert s.machine code block nz fresh in
            rw (q, set_built)
              (inl (
                _,
                _,
                record {
                  by_id = refl;
                  by_address = refl;
                  next_hw_id = refl;
                  machine = back;
                  events = refl;
                },
                refl,
              ))
        | inr (t, tnz, tfresh, q) ↦
            rw (q, set_built)
              (set_armed-Sets _ (record e0 { relocated_code = code; trampoline_code = t })
                (record {
                  code = inr (exec, tnz, lookup-insert_self t _ _);
                  released =
                      release_two s.machine.mem s.machine.blocks code t block _ nz fresh tnz tfresh;
                }))
      ]

  pub set_installed-Sets :
      (address : ℕ) (type : HwBpType) (size : ℤ) (on_hit : Callback)
      → Sets dispatch_fn s address type
          (set_installed host kernel dispatch_fn s (new_entry address type size on_hit))
  unfolding set_installed set_relocated
  set_installed-Sets address type size on_hit =
      let e = new_entry address type size on_hit in
      elim (Bool-cases (is_execute type)) [
        | inr watch ↦
            rw (watch, set_installed)
              (set_armed-Sets s.machine e (record {
                code = inl (watch, refl);
                released =
                    ap (λ m. release_code m 0) (release_null s.machine) ∙ release_null s.machine;
              }))
        | inl exec ↦ elim (build_relocated_code-Built host laws s.machine address 1) [
          | inl (err, q) ↦ rw (exec, set_installed, q, set_relocated) (inl (_, _, same _, refl))
          | inr (code, n, block, nz, fresh, q) ↦
              rw (exec, set_installed, q, set_relocated) (set_built-Sets code block e exec nz fresh)
        ]
      ]
