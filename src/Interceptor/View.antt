-- ===== src/Interceptor/View.antt =====
-- What hooks do to memory: the memory that remains if every hook is taken back is never changed.
use better_ncm.Base.{
  ℕ, ◌≡◌, refl, ◌∙◌, ap, ◌≢◌, none, List, Outcome, ok, thrown, lookup, insert, erase, erase_fresh,
  IsFresh-of_lookup, Option-cases, inl, inr, ◌⊎◌,
}
use better_ncm.Hex.{to_hex_addr}
use better_ncm.Memory.{Memory, write_bytes, read_bytes, write-read_undo}
use better_ncm.Patches.{restore_all}
use better_ncm.Callbacks.{Callback}
use better_ncm.Relocator.Code.{Host, Allocates, Emit}
use better_ncm.Relocator.{Machine, patch_size, generate_patch_bytes, build_trampoline, release_code}
use better_ncm.Relocator.Effects.{
  length-generate_patch_bytes, patch_ok, Protects, release_two, build_relocated_code-Built,
  build_trampoline-Added, release-insert, release_null,
}
use better_ncm.Interceptor.{
  HookEntry, State, HookError, Dispatchers, register, attach_patched, attach_built,
  attach_relocated, attach, replace_patched, replace_relocated, replace, release_entry,
}

abbrev pub target_of : HookEntry → ℕ
target_of e = e.target

abbrev pub original_of : HookEntry → List ℕ
original_of e = e.original_bytes

-- Memory after every hook is taken back, in the order of the table.
abbrev pub unhooked : State → Memory
unhooked s = restore_all target_of original_of patch_size s.by_id s.machine.mem

-- What `register` is given by a successful `attach` or `replace`.
pub record Hooks (s : State) (target : ℕ) (m : Machine) (e : HookEntry) : Type 0 where
  pub at : e.target ≡ target
  pub ptr : e.ptr ≡ s.next_ptr
  pub saved : e.original_bytes ≡ read_bytes s.machine.mem target patch_size
  pub jump : ℕ
  pub patched : m.mem ≡ write_bytes s.machine.mem target (generate_patch_bytes jump)
  pub free : lookup target s.by_target ≡ none
  pub released :
      (mem : Memory)
      → release_entry (record m { mem = mem }) e ≡ record { mem = mem; blocks = s.machine.blocks }

-- Registering a hook does not change the memory without hooks.
register-unhooked :
    (s : State) (target : ℕ) (m : Machine) (e : HookEntry)
    → lookup s.next_hook_id s.by_id ≡ none
    → Hooks s target m e
    → unhooked (register s m e) ≡ unhooked s
unfolding register insert restore_all
register-unhooked s target m e new h =
    rw (gone, h.at, h.saved, h.patched)
      (ap (restore_all target_of original_of patch_size s.by_id) undone)
  where
    gone : erase s.next_hook_id s.by_id ≡ s.by_id
    gone = erase_fresh s.next_hook_id s.by_id (IsFresh-of_lookup s.next_hook_id s.by_id new)

    undone :
        write_bytes
          (write_bytes s.machine.mem target (generate_patch_bytes h.jump))
          target
          (read_bytes s.machine.mem target patch_size)
        ≡ s.machine.mem
    undone =
        rw (← length-generate_patch_bytes h.jump)
          (write-read_undo s.machine.mem target (generate_patch_bytes h.jump))

-- The maps, the ids, the memory and the blocks are as they were.
pub record Unchanged (s t : State) : Type 0 where
  pub by_id : t.by_id ≡ s.by_id
  pub by_target : t.by_target ≡ s.by_target
  pub next_hook_id : t.next_hook_id ≡ s.next_hook_id
  pub machine : t.machine ≡ s.machine

-- A call that registers a hook leaves all as it was, or a new hook.
abbrev pub Registers {ℓ} :
    {A : Type ℓ} → State → ℕ → (HookEntry → A) → Outcome HookError A × State → Type ℓ
Registers s target a r =
    ((e : HookError) × (t : State) × Unchanged s t × (r ≡ (thrown e, t)))
    ⊎ ((m : Machine) × (e : HookEntry) × Hooks s target m e × (r ≡ (ok (a e), register s m e)))

module _ (host : Host) (laws : Allocates host) (protects : Protects host) (s : State) where
  same : (p : ℕ) → Unchanged s (record s { next_ptr = p })
  same p = record { by_id = refl; by_target = refl; next_hook_id = refl; machine = refl }

  module _ (fns : Dispatchers) where
    built-Registers :
        (target : ℕ) (f g : Callback) (code : ℕ) (block : List Emit)
        → lookup target s.by_target ≡ none
        → code ≢ 0
        → lookup code s.machine.blocks ≡ none
        → let m = record s.machine { blocks = insert code block s.machine.blocks } in
          Registers s target
            (λ _. to_hex_addr s.next_hook_id)
            (attach_built host fns s target f g code
              (build_trampoline host m fns.enter fns.leave s.next_ptr code))
    unfolding attach_built attach_patched
    built-Registers target f g code block free nz fresh =
        let m = record s.machine { blocks = insert code block s.machine.blocks } in
        elim (build_trampoline-Added host laws m fns.enter fns.leave s.next_ptr code) [
          | inl q ↦
              let back = release-insert s.machine code block nz fresh in
              rw (q, attach_built)
                (inl (
                  _,
                  _,
                  record { by_id = refl; by_target = refl; next_hook_id = refl; machine = back },
                  refl,
                ))
          | inr (t, tnz, tfresh, q) ↦
              rw
                (
                  q,
                  attach_built,
                  patch_ok host _ target (generate_patch_bytes t) protects,
                  attach_patched,
                )
                (inr (
                  _,
                  _,
                  record {
                    at = refl;
                    ptr = refl;
                    saved = refl;
                    jump = t;
                    patched = refl;
                    free = free;
                    released =
                        λ mem. release_two mem s.machine.blocks code t block _ nz fresh tnz tfresh;
                  },
                  refl,
                ))
        ]

    -- `attach` adds a hook whose bytes are saved and whose blocks are new, or changes nothing.
    pub attach-Registers :
        (target : ℕ) (f g : Callback)
        → Registers s target (λ _. to_hex_addr s.next_hook_id) (attach host fns target f g s)
    unfolding attach attach_relocated
    attach-Registers target f g = elim (Option-cases (lookup target s.by_target)) [
      | inr (_, e) ↦ rw (e, attach) (inl (_, _, same s.next_ptr, refl))
      | inl free ↦ elim (build_relocated_code-Built host laws s.machine target patch_size) [
        | inl (e, q) ↦ rw (free, attach, q, attach_relocated) (inl (_, _, same _, refl))
        | inr (code, n, block, nz, fresh, q) ↦
            rw (free, attach, q, attach_relocated)
              (built-Registers target f g code block free nz fresh)
      ]
    ]

  -- `replace` too; it returns the relocated code of the new hook.
  pub replace-Registers :
      (target replacement : ℕ)
      → Registers s target (λ e. e.relocated_code) (replace host target replacement s)
  unfolding replace replace_relocated replace_patched
  replace-Registers target replacement = elim (Option-cases (lookup target s.by_target)) [
    | inr (_, e) ↦ rw (e, replace) (inl (_, _, same s.next_ptr, refl))
    | inl free ↦ elim (build_relocated_code-Built host laws s.machine target patch_size) [
      | inl (e, q) ↦ rw (free, replace, q, replace_relocated) (inl (_, _, same _, refl))
      | inr (code, n, block, nz, fresh, q) ↦
          rw
            (
              free,
              replace,
              q,
              replace_relocated,
              patch_ok host _ target (generate_patch_bytes replacement) protects,
              replace_patched,
            )
            (inr (
              _,
              _,
              record {
                at = refl;
                ptr = refl;
                saved = refl;
                jump = replacement;
                patched = refl;
                free = free;
                released = λ mem.
                    ap (λ (m : Machine). release_code m code)
                      (release_null
                        (record { mem = mem; blocks = insert code block s.machine.blocks }))
                    ∙ release-insert (record { mem = mem; blocks = s.machine.blocks }) code block nz
                        fresh;
              },
              refl,
            ))
    ]
  ]

-- A state that a registering call leaves has the same memory without hooks.
pub Registers-unhooked {ℓ} :
    {A : Type ℓ} (s : State) (target : ℕ) (a : HookEntry → A) (r : Outcome HookError A × State)
    → lookup s.next_hook_id s.by_id ≡ none
    → Registers s target a r
    → unhooked r.1 ≡ unhooked s
Registers-unhooked s target a r new (inl (e, t, u, q)) = rw q (cc (u.by_id, u.machine))
Registers-unhooked s target a r new (inr (m, e, h, q)) = rw q (register-unhooked s target m e new h)
