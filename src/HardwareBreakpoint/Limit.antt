-- ===== src/HardwareBreakpoint/Limit.antt =====
-- At most four hardware breakpoints are active.
use better_ncm.Base.{
  ℕ, suc, ◌+◌, ◌^◌, ◌<◌, ◌≤◌, ◌≡◌, ◌≢◌, refl, sym, ◌∙◌, ap, none, some, List, arith, length, lookup,
  insert, erase, lookup-insert_cases, lookup-insert_self, lookup-insert_ne, lookup-erase_cases,
  lookup-erase_ne, erase_fresh, IsFresh-of_lookup, IsUnique, erase-IsUnique, erase-IsFresh_self,
  length-erase, Option-cases, Outcome-cases, inl, inr,
}
use better_ncm.Base.Int.{ℤ}
use better_ncm.Hex.{parse_hex_addr}
use better_ncm.Callbacks.{Callback}
use better_ncm.Relocator.Code.{Host, Allocates}
use better_ncm.Relocator.{Machine}
use better_ncm.PerfEvents.{Events, Kernel}
use better_ncm.HardwareBreakpoint.{
  HwEntry, State, platform_max_breakpoints, register, set, remove_id, remove, remove_all,
  active_count,
}
use better_ncm.HardwareBreakpoint.Effects.{Opens, Unchanged}
use better_ncm.HardwareBreakpoint.Outcomes.{set-Outcomes, maybe-Unchanged}

-- The maps hold the same breakpoints, four at most.
pub record IsTied (s : State) : Type 0 where
  pub forward :
      (id : ℕ) (e : HwEntry) → lookup id s.by_id ≡ some e → lookup e.address s.by_address ≡ some e
  pub distinct :
      (i j : ℕ) (d e : HwEntry)
      → lookup i s.by_id ≡ some d
      → lookup j s.by_id ≡ some e
      → d.address ≡ e.address
      → i ≡ j
  pub fresh_ids : (id : ℕ) (e : HwEntry) → lookup id s.by_id ≡ some e → id < s.next_hw_id
  pub unique_ids : IsUnique s.by_id
  pub unique_addresses : IsUnique s.by_address
  pub same_count : length s.by_id ≡ length s.by_address
  pub limit : length s.by_address ≤ platform_max_breakpoints

Unchanged-IsTied : (s t : State) → Unchanged s t → IsTied s → IsTied t
Unchanged-IsTied s t c v = record {
  forward = rw (c.by_id, c.by_address) v.forward;
  distinct = rw c.by_id v.distinct;
  fresh_ids = rw (c.by_id, c.next_hw_id) v.fresh_ids;
  unique_ids = rw c.by_id v.unique_ids;
  unique_addresses = rw c.by_address v.unique_addresses;
  same_count = rw (c.by_id, c.by_address) v.same_count;
  limit = rw c.by_address v.limit;
}

register-IsTied :
    (s : State) (m : Machine) (events : Events) (new : HwEntry)
    → IsTied s
    → lookup new.address s.by_address ≡ none
    → length s.by_address < platform_max_breakpoints
    → s.next_hw_id + 1 < 2 ^ 64
    → lookup s.next_hw_id s.by_id ≡ none
    → IsTied (register s m events new)
unfolding register insert
register-IsTied s m events new v free room small fresh =
    let ids : erase s.next_hw_id s.by_id ≡ s.by_id =
      erase_fresh s.next_hw_id s.by_id (IsFresh-of_lookup s.next_hw_id s.by_id fresh) in
    let addresses : erase new.address s.by_address ≡ s.by_address =
      erase_fresh new.address s.by_address (IsFresh-of_lookup new.address s.by_address free) in
    record {
      forward = λ id e h. elim (lookup-insert_cases s.next_hw_id id new e s.by_id h) [
        | inl c ↦ rw (← c.1) (lookup-insert_self new.address new s.by_address)
        | inr c ↦
            let old = v.forward id e c.1 in
            lookup-insert_ne new.address e.address new s.by_address (λ q. ground arith) ∙ old
      ];
      distinct = λ i j d e h k q. elim (lookup-insert_cases s.next_hw_id i new d s.by_id h) [
        | inl c ↦ elim (lookup-insert_cases s.next_hw_id j new e s.by_id k) [
          | inl c' ↦ c.0 ∙ sym c'.0
          | inr c' ↦
              let taken = v.forward j e c'.1 in
              let at : new.address ≡ e.address = ap (λ (x : HwEntry). x.address) c.1 ∙ q in
              absurd (ground arith)
        ]
        | inr c ↦ elim (lookup-insert_cases s.next_hw_id j new e s.by_id k) [
          | inl c' ↦
              let taken = v.forward i d c.1 in
              let at : d.address ≡ new.address = q ∙ ap (λ (x : HwEntry). x.address) (sym c'.1) in
              absurd (ground arith)
          | inr c' ↦ v.distinct i j d e c.1 c'.1 q
        ]
      ];
      fresh_ids = λ id e h. elim (lookup-insert_cases s.next_hw_id id new e s.by_id h) [
        | inl c ↦ omega arith
        | inr c ↦ omega (arith, v.fresh_ids id e c.1)
      ];
      unique_ids = (
        erase-IsFresh_self s.next_hw_id s.by_id,
        erase-IsUnique s.next_hw_id s.by_id v.unique_ids,
      );
      unique_addresses = (
        erase-IsFresh_self new.address s.by_address,
        erase-IsUnique new.address s.by_address v.unique_addresses,
      );
      same_count = rw (ids, addresses) (ap suc v.same_count);
      limit = rw addresses (omega arith);
    }

-- Dropping a breakpoint from both maps
unregister-IsTied :
    (s : State) (m : Machine) (events : Events) (id : ℕ) (gone : HwEntry)
    → IsTied s
    → lookup id s.by_id ≡ some gone
    → IsTied (record s {
      machine = m;
      events = events;
      by_id = erase id s.by_id;
      by_address = erase gone.address s.by_address;
    })
unregister-IsTied s m events id gone v found =
    let fewer_ids = length-erase id gone s.by_id v.unique_ids found in
    let fewer =
      length-erase gone.address gone s.by_address v.unique_addresses (v.forward id gone found) in
    record {
      forward = λ i e h.
          let c = lookup-erase_cases id i e s.by_id h in
          let other : e.address ≢ gone.address = λ q. c.0 (v.distinct i id e gone c.1 found q) in
          lookup-erase_ne gone.address e.address s.by_address other ∙ v.forward i e c.1;
      distinct = λ i j d e h k q.
          v.distinct i j d e (lookup-erase_cases id i d s.by_id h).1
            (lookup-erase_cases id j e s.by_id k).1 q;
      fresh_ids = λ i e h. v.fresh_ids i e (lookup-erase_cases id i e s.by_id h).1;
      unique_ids = erase-IsUnique id s.by_id v.unique_ids;
      unique_addresses = erase-IsUnique gone.address s.by_address v.unique_addresses;
      same_count = omega (arith, fewer_ids, fewer, v.same_count);
      limit = omega (arith, fewer, v.limit);
    }

fresh_id : (s : State) → IsTied s → lookup s.next_hw_id s.by_id ≡ none
fresh_id s v = elim (Option-cases (lookup s.next_hw_id s.by_id)) [
  | inl q ↦ q
  | inr (e, q) ↦ absurd (omega (arith, v.fresh_ids s.next_hw_id e q))
]

remove_id-IsTied : (s : State) (id : ℕ) → IsTied s → IsTied (remove_id id s)
unfolding remove_id
remove_id-IsTied s id v = elim (Option-cases (lookup id s.by_id)) [
  | inl q ↦ rw (q, remove_id) v
  | inr (e, q) ↦
      rw (q, remove_id)
        (Unchanged-IsTied _ _ (maybe-Unchanged _) (unregister-IsTied s _ _ id e v q))
]

remove-IsTied : (s : State) (text : List ℕ) → IsTied s → IsTied (remove text s).1
unfolding remove
remove-IsTied s text v = elim (Outcome-cases (parse_hex_addr text)) [
  | inl (id, q) ↦ rw (q, remove) (remove_id-IsTied s id v)
  | inr (e, q) ↦ rw (q, remove) v
]

remove_all-IsTied : (s : State) → IsTied (remove_all s)
unfolding remove_all lookup
remove_all-IsTied s = Unchanged-IsTied _ _ (maybe-Unchanged _) (record {
  forward = λ id e h. absurd (ground arith);
  distinct = λ i j d e h k q. absurd (ground arith);
  fresh_ids = λ id e h. absurd (ground arith);
  unique_ids = tt;
  unique_addresses = tt;
  same_count = refl;
  limit = omega arith;
})

module _ (host : Host) (laws : Allocates host) (kernel : Kernel) (opens : Opens kernel)
    (callback dispatch_fn : ℕ) where
  set-IsTied :
      (s : State) (address : ℕ) (type_str : List ℕ) (size : ℤ) (on_hit : Callback)
      → s.next_hw_id + 1 < 2 ^ 64
      → IsTied s
      → IsTied (set host kernel callback dispatch_fn address type_str size on_hit s).1
  set-IsTied s address type_str size on_hit small v =
      elim (set-Outcomes host laws kernel opens callback dispatch_fn s address type_str size
        on_hit) [
          | inl (e, t, c, q) ↦ rw q (Unchanged-IsTied s t c v)
          | inr (type, m, events, e, u, parsed, c, made, free, room, new, q) ↦
              let w = Unchanged-IsTied s u c v in
              let free' : lookup e.address u.by_address ≡ none = rw (c.by_address, new.at) free in
              rw q (
                register-IsTied u m events e w free' (rw c.by_address room) (rw c.next_hw_id small)
                  (fresh_id u w))
        ]

  -- One call. The id does not wrap round.
  pub data Step : State → State → Type 0 where
    step_set :
        (s : State) (address : ℕ) (type_str : List ℕ) (size : ℤ) (on_hit : Callback)
        → s.next_hw_id + 1 < 2 ^ 64
        → Step s (set host kernel callback dispatch_fn address type_str size on_hit s).1
    step_remove : (s : State) (text : List ℕ) → Step s (remove text s).1
    step_remove_all : (s : State) → Step s (remove_all s)

  pub data Steps : State → State → Type 0 where
    no_step : (s : State) → Steps s s
    one_more : (s t u : State) → Steps s t → Step t u → Steps s u

  Step-IsTied : (s t : State) → Step s t → IsTied s → IsTied t
  Step-IsTied s t (step_set _ address type_str size on_hit small) v =
      set-IsTied s address type_str size on_hit small v
  Step-IsTied s t (step_remove _ text) v = remove-IsTied s text v
  Step-IsTied s t (step_remove_all _) v = remove_all-IsTied s

  Steps-IsTied : (s t : State) → Steps s t → IsTied s → IsTied t
  Steps-IsTied s t (no_step _) v = v
  Steps-IsTied s t (one_more _ m _ before last) v = Step-IsTied m t last (Steps-IsTied s m before v)

  -- After any calls of `set`, `remove` and `removeAll`, failing ones included, `activeCount` is 4
  -- at most, where the maps described the same breakpoints, 4 at most, before. No call of `set`
  -- finds the next id at its limit, the JIT runtime gives addresses that are neither null nor in
  -- use, and the kernel gives file descriptors that are not open.
  pub Steps-active_count :
      (s t : State) → Steps s t → IsTied s → active_count t ≤ platform_max_breakpoints
  unfolding active_count
  Steps-active_count s t p v = let w = Steps-IsTied s t p v in omega (arith, w.same_count, w.limit)
