-- ===== src/Interceptor/Maps.antt =====
-- What it means that the two maps of native_interceptor.cc describe the same hooks, and the steps that
-- keep it so.
use better_ncm.Base.{
  ℕ, ◌+◌, ◌^◌, ◌<◌, ◌≡◌, sym, ◌∙◌, ap, ◌≢◌, none, some, List, [], ◌∷◌, arith, ◌==◌, lookup, insert,
  erase, lookup-insert_cases, lookup-insert_self, lookup-insert_ne, lookup-erase_cases,
  lookup-erase_ne, IsUnique, erase-IsUnique, erase-IsFresh_self, erase_fresh, lookup_fresh, inl,
  inr, Bool-cases,
}
use better_ncm.Relocator.{Machine}
use better_ncm.Interceptor.{HookEntry, State, keep, register, erase_ptr}

pub record Linked (s : State) : Type 0 where
  -- Every hook is found under its target,
  pub forward :
      (id : ℕ) (e : HookEntry) → lookup id s.by_id ≡ some e → lookup e.target s.by_target ≡ some e
  -- and every target belongs to a hook that has an id.
  pub backward :
      (t : ℕ) (e : HookEntry)
      → lookup t s.by_target ≡ some e
      → (t ≡ e.target) × (id : ℕ) × (lookup id s.by_id ≡ some e)
  -- No entry has two ids.
  pub distinct :
      (i j : ℕ) (d e : HookEntry)
      → lookup i s.by_id ≡ some d
      → lookup j s.by_id ≡ some e
      → d.ptr ≡ e.ptr
      → i ≡ j
  pub unique : IsUnique s.by_id
  -- Ids and addresses of entries to come are new.
  pub fresh_ids : (id : ℕ) (e : HookEntry) → lookup id s.by_id ≡ some e → id < s.next_hook_id
  pub fresh_ptrs : (id : ℕ) (e : HookEntry) → lookup id s.by_id ≡ some e → e.ptr < s.next_ptr

-- Two entries found by ids and at one address are one entry.
same_entry :
    (l : List (ℕ × HookEntry)) (i j : ℕ) (d e : HookEntry)
    → lookup i l ≡ some d
    → lookup j l ≡ some e
    → i ≡ j
    → d ≡ e
same_entry l i j d e h k q = cc

module _ (s : State) (m : Machine) (new : HookEntry) where
  pub register-Linked :
      Linked s
      → lookup new.target s.by_target ≡ none
      → new.ptr ≡ s.next_ptr
      → s.next_hook_id + 1 < 2 ^ 64
      → Linked (register s m new)
  unfolding register insert
  register-Linked v free p small = record {
    forward = λ id e h. elim (lookup-insert_cases s.next_hook_id id new e s.by_id h) [
      | inl c ↦ rw (← c.1) (lookup-insert_self new.target new s.by_target)
      | inr c ↦
          let old = v.forward id e c.1 in
          lookup-insert_ne new.target e.target new s.by_target (λ q. ground arith) ∙ old
    ];
    backward = λ t e h. elim (lookup-insert_cases new.target t new e s.by_target h) [
      | inl c ↦ (
        c.0 ∙ ap (λ (x : HookEntry). x.target) c.1,
        s.next_hook_id,
        lookup-insert_self s.next_hook_id new s.by_id ∙ ap some c.1,
      )
      | inr c ↦
          let old = v.backward t e c.1 in
          let new_id : old.1 ≢ s.next_hook_id =
            λ q. absurd (omega (arith, v.fresh_ids old.1 e old.2)) in
          (old.0, old.1, lookup-insert_ne s.next_hook_id old.1 new s.by_id new_id ∙ old.2)
    ];
    distinct = λ i j d e h k q. elim (lookup-insert_cases s.next_hook_id i new d s.by_id h) [
      | inl c ↦ elim (lookup-insert_cases s.next_hook_id j new e s.by_id k) [
        | inl c' ↦ c.0 ∙ sym c'.0
        | inr c' ↦ absurd (ground (arith, v.fresh_ptrs j e c'.1))
      ]
      | inr c ↦ elim (lookup-insert_cases s.next_hook_id j new e s.by_id k) [
        | inl c' ↦ absurd (ground (arith, v.fresh_ptrs i d c.1))
        | inr c' ↦ v.distinct i j d e c.1 c'.1 q
      ]
    ];
    unique =
        (erase-IsFresh_self s.next_hook_id s.by_id, erase-IsUnique s.next_hook_id s.by_id v.unique);
    fresh_ids = λ id e h. elim (lookup-insert_cases s.next_hook_id id new e s.by_id h) [
      | inl c ↦ omega arith
      | inr c ↦ omega (arith, v.fresh_ids id e c.1)
    ];
    fresh_ptrs = λ id e h. elim (lookup-insert_cases s.next_hook_id id new e s.by_id h) [
      | inl c ↦ ground arith
      | inr c ↦ omega (arith, v.fresh_ptrs id e c.1)
    ];
  }

-- Dropping the hook `id` from both maps.
abbrev pub unregister : State → Machine → ℕ → HookEntry → State
unregister s m id e = record s {
  machine = m;
  by_id = erase id s.by_id;
  by_target = erase e.target s.by_target;
}

pub unregister-Linked :
    (s : State) (m : Machine) (id : ℕ) (gone : HookEntry)
    → Linked s
    → lookup id s.by_id ≡ some gone
    → Linked (unregister s m id gone)
unregister-Linked s m id gone v found = record {
  forward = λ i e h.
      let c = lookup-erase_cases id i e s.by_id h in
      let other : e.target ≢ gone.target = λ q.
        let at_target = v.forward id gone found in
        let at_same = v.forward i e c.1 in
        let one : e ≡ gone = cc (q, at_same, at_target) in
        c.0 (v.distinct i id e gone c.1 found (ap (λ (x : HookEntry). x.ptr) one)) in
      lookup-erase_ne gone.target e.target s.by_target other ∙ v.forward i e c.1;
  backward = λ t e h.
      let c = lookup-erase_cases gone.target t e s.by_target h in
      let old = v.backward t e c.1 in
      let other : old.1 ≢ id = λ q. c.0 (ground (arith, q)) in
      (old.0, old.1, lookup-erase_ne id old.1 s.by_id other ∙ old.2);
  distinct = λ i j d e h k q.
      v.distinct i j d e (lookup-erase_cases id i d s.by_id h).1
        (lookup-erase_cases id j e s.by_id k).1 q;
  unique = erase-IsUnique id s.by_id v.unique;
  fresh_ids = λ i e h. v.fresh_ids i e (lookup-erase_cases id i e s.by_id h).1;
  fresh_ptrs = λ i e h. v.fresh_ptrs i e (lookup-erase_cases id i e s.by_id h).1;
}

-- Erasing by address and by id is the same where no two ids share an address.
pub erase_ptr-eq-erase :
    (l : List (ℕ × HookEntry)) (id p : ℕ) (e : HookEntry)
    → IsUnique l
    → lookup id l ≡ some e
    → e.ptr ≡ p
    → ((j : ℕ) (d : HookEntry) → lookup j l ≡ some d → d.ptr ≡ p → j ≡ id)
    → erase_ptr p l ≡ erase id l
unfolding erase_ptr erase lookup
erase_ptr-eq-erase [] id p e u h q one = cc
erase_ptr-eq-erase ((k, d) ∷ l) id p e u h q one = elim (Bool-cases (d.ptr == p)) [
  | inl same ↦
      let at : k ≡ id = one k d (ground arith) (ground arith) in
      let gone : erase id l ≡ l = erase_fresh id l (rw (← at) u.0) in rw (same, gone) (ground arith)
  | inr other ↦
      let away : k ≢ id = λ at. ground arith in
      let rest =
        erase_ptr-eq-erase l id p e u.1 (ground arith) q
          (λ j c f g. one j c (ground (arith, lookup_fresh k l u.0)) g) in
      rw other (ground (arith, rest))
]

pub keep-Linked : (s : State) (m : Machine) → Linked s → Linked (keep s m)
keep-Linked s m v = record {
  forward = v.forward;
  backward = v.backward;
  distinct = v.distinct;
  unique = v.unique;
  fresh_ids = v.fresh_ids;
  fresh_ptrs = λ id e h. omega (arith, v.fresh_ptrs id e h);
}

pub move-Linked : (s : State) (m : Machine) → Linked s → Linked (record s { machine = m })
move-Linked s m v = record {
  forward = v.forward;
  backward = v.backward;
  distinct = v.distinct;
  unique = v.unique;
  fresh_ids = v.fresh_ids;
  fresh_ptrs = v.fresh_ptrs;
}
