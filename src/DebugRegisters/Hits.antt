-- ===== src/DebugRegisters/Hits.antt =====
-- The handler of src/core/bindings/native_hw_breakpoint.cc on x86-64 Windows and macOS, where DR6
-- says which slots were hit.
use better_ncm.Base.{
  ℕ, zero, suc, ◌+◌, ◌<◌, ◌≤◌, ◌≡◌, refl, sym, ap, ◌∙◌, ℕ_discrete, Bool, true, false, Bool-cases,
  not, ◌&&◌, Option, none, some, List, [], ◌∷◌, arith, inl, inr, ◌⊎◌, All, Any, ◌==◌, if◌then◌else◌,
  lookup,
}
use mathlib.Core.Path.{subst}
use better_ncm.Base.Int.{ℤ}
use better_ncm.Hex.{to_hex_addr}
use better_ncm.Callbacks.{Callback}
use better_ncm.Exceptions.{Context, set_pc}
use better_ncm.PerfEvents.{HwBpType, is_execute}
use better_ncm.DebugRegisters.{is_used}

-- `HwBreakpointEntry` with a slot; no slot is -1, and code at 0 is null.
pub record SlotEntry : Type 0 where
  pub address : ℕ
  pub type : HwBpType
  pub size : ℤ
  pub on_hit : Callback
  pub slot : Option ℕ
  pub trampoline_code : ℕ
  pub relocated_code : ℕ

unfoldable pub in_slot : ℕ → SlotEntry → Bool
in_slot slot entry = elim entry.slot [ none ↦ false | some s ↦ s == slot ]

-- The loop over `g_hwByAddress`
unfoldable pub first_in_slot : ℕ → List (ℕ × SlotEntry) → Option SlotEntry
first_in_slot slot [] = none
first_in_slot slot ((addr, entry) ∷ rest) =
    let later = first_in_slot slot rest in if in_slot slot entry then some entry else later

-- `n` rounds of the loop over the slots, from `slot` on
unfoldable pub slot_loop : ℕ → ℕ → ℕ → List (ℕ × SlotEntry) → Option SlotEntry
slot_loop zero slot dr6 entries = none
slot_loop (suc n) slot dr6 entries =
    let later = slot_loop n (suc slot) dr6 entries in
    let found : Option SlotEntry = elim (first_in_slot slot entries) [
      | none ↦ later
      | some entry ↦ some entry
    ] in
    if is_used dr6 slot then found else later

-- The callback of an entry; what it throws is dropped.
unfoldable pub call_on_hit : Callback → List ℕ → List (ℕ × List ℕ)
call_on_hit none text = []
call_on_hit (some f) text = (f, text) ∷ []

-- The trampoline of the `execute` breakpoint at the program counter
unfoldable pub jump_target : List (ℕ × SlotEntry) → Context → Option ℕ
unfolding is_execute
jump_target entries ctx = elim (lookup ctx.pc entries) [
  | none ↦ none
  | some entry ↦
      if is_execute entry.type && not (entry.trampoline_code == 0)
      then some entry.trampoline_code
      else none
]

-- `dr6` is `none` where the registers cannot be read: there is no platform context, or
-- `thread_get_state` fails.
unfoldable pub hit_entry : Option ℕ → List (ℕ × SlotEntry) → Option SlotEntry
hit_entry none entries = none
hit_entry (some dr6) entries = slot_loop 4 0 dr6 entries

-- What `hwBpSigtrapHandler` does with the trampoline and the entry that it finds
unfoldable pub answer : Option ℕ → Option SlotEntry → Context → Bool × Context × List (ℕ × List ℕ)
answer (some code) hit ctx = (true, set_pc code ctx, [])
answer none (some entry) ctx = (true, ctx, call_on_hit entry.on_hit (to_hex_addr ctx.pc))
answer none none ctx = (false, ctx, [])

-- `hwBpSigtrapHandler`, with the calls that it makes
unfoldable pub debug_handler :
    Option ℕ → List (ℕ × SlotEntry) → Context → Bool × Context × List (ℕ × List ℕ)
debug_handler dr6 entries ctx = answer (jump_target entries ctx) (hit_entry dr6 entries) ctx

-- No entry is in slot `s`.
pub IsVacant : List (ℕ × SlotEntry) → ℕ → Type 0
IsVacant entries s = All (λ p. in_slot s p.1 ≡ false) entries

-- `entry` is one of the entries and in slot `s`.
pub IsIn : List (ℕ × SlotEntry) → ℕ → SlotEntry → Type 0
IsIn entries s entry = (in_slot s entry ≡ true) × Any (λ p. p.1 ≡ entry) entries

first-Outcomes :
    (s : ℕ) (entries : List (ℕ × SlotEntry))
    → ((first_in_slot s entries ≡ none) × IsVacant entries s)
      ⊎ ((entry : SlotEntry) × (first_in_slot s entries ≡ some entry) × IsIn entries s entry)
unfolding first_in_slot IsVacant IsIn
first-Outcomes s [] = inl (refl, tt)
first-Outcomes s ((addr, e) ∷ rest) = elim (Bool-cases (in_slot s e)) [
  | inl here ↦ inr (e, rw here refl, (here, inl refl))
  | inr off ↦ elim (first-Outcomes s rest) [
    | inl (q, h) ↦ inl (rw (off, q) refl, (off, h))
    | inr (x, q, m) ↦ inr (x, rw (off, q) refl, (m.0, inr m.1))
  ]
]

-- Each hit slot from `lo` on below `hi` is vacant.
pub AllVacant : ℕ → List (ℕ × SlotEntry) → ℕ → ℕ → Type 0
AllVacant dr6 entries lo hi = (j : ℕ) → lo ≤ j → j < hi → is_used dr6 j ≡ true → IsVacant entries j

-- The entry is in the lowest hit slot from `lo` on below `hi` that is not vacant.
pub record IsFirstHit (dr6 : ℕ) (entries : List (ℕ × SlotEntry)) (lo hi : ℕ) (entry : SlotEntry)
    : Type 0 where
  pub slot : ℕ
  pub above : lo ≤ slot
  pub below : slot < hi
  pub hit : is_used dr6 slot ≡ true
  pub inside : IsIn entries slot entry
  pub lower : AllVacant dr6 entries lo slot

nothing_between :
    (dr6 : ℕ) (entries : List (ℕ × SlotEntry)) (lo hi : ℕ) → hi ≤ lo → AllVacant dr6 entries lo hi
unfolding AllVacant
nothing_between dr6 entries lo hi le j a b hit = absurd (omega arith)

-- What is known of the slots behind `lo` extends to `lo`, if that is not hit or vacant.
from_next :
    (dr6 : ℕ) (entries : List (ℕ × SlotEntry)) (lo hi : ℕ)
    → (is_used dr6 lo ≡ true → IsVacant entries lo)
    → AllVacant dr6 entries (suc lo) hi
    → AllVacant dr6 entries lo hi
unfolding AllVacant
from_next dr6 entries lo hi here h j a b hit = elim (ℕ_discrete j lo) [
  | yes e ↦ subst (IsVacant entries) (sym e) (here (ap (is_used dr6) (sym e) ∙ hit))
  | no ne ↦ h j (omega arith) b hit
]

first_from_next :
    (dr6 : ℕ) (entries : List (ℕ × SlotEntry)) (lo hi : ℕ) (entry : SlotEntry)
    → (is_used dr6 lo ≡ true → IsVacant entries lo)
    → IsFirstHit dr6 entries (suc lo) hi entry
    → IsFirstHit dr6 entries lo hi entry
first_from_next dr6 entries lo hi entry here h = record {
  slot = h.slot;
  above = let a = h.above in omega arith;
  below = h.below;
  hit = h.hit;
  inside = h.inside;
  lower = from_next dr6 entries lo h.slot here h.lower;
}

Found : ℕ → List (ℕ × SlotEntry) → ℕ → ℕ → Option SlotEntry → Type 0
Found dr6 entries lo hi r =
    ((r ≡ none) × AllVacant dr6 entries lo hi)
    ⊎ ((entry : SlotEntry) × (r ≡ some entry) × IsFirstHit dr6 entries lo hi entry)

Found-from_next :
    (dr6 : ℕ) (entries : List (ℕ × SlotEntry)) (lo hi : ℕ) (r : Option SlotEntry)
    → (is_used dr6 lo ≡ true → IsVacant entries lo)
    → Found dr6 entries (suc lo) hi r
    → Found dr6 entries lo hi r
unfolding Found
Found-from_next dr6 entries lo hi r here (inl (q, h)) = inl (q, from_next dr6 entries lo hi here h)
Found-from_next dr6 entries lo hi r here (inr (e, q, h)) =
    inr (e, q, first_from_next dr6 entries lo hi e here h)

slot_loop-Found :
    (n lo dr6 : ℕ) (entries : List (ℕ × SlotEntry))
    → Found dr6 entries lo (lo + n) (slot_loop n lo dr6 entries)
unfolding slot_loop Found
slot_loop-Found zero lo dr6 entries =
    inl (refl, nothing_between dr6 entries lo (lo + 0) (omega arith))
slot_loop-Found (suc n) lo dr6 entries =
    let ih : Found dr6 entries (suc lo) (lo + suc n) (slot_loop n (suc lo) dr6 entries) =
      subst (λ (hi : ℕ). Found dr6 entries (suc lo) hi (slot_loop n (suc lo) dr6 entries))
        (omega arith) (slot_loop-Found n (suc lo) dr6 entries) in
    elim (Bool-cases (is_used dr6 lo)) [
      | inr off ↦
          rw off (Found-from_next dr6 entries lo (lo + suc n) _ (λ on. absurd (ground arith)) ih)
      | inl on ↦ elim (first-Outcomes lo entries) [
        | inl (q, h) ↦ rw (on, q) (Found-from_next dr6 entries lo (lo + suc n) _ (λ _. h) ih)
        | inr (e, q, h) ↦ inr (
          e,
          rw (on, q) refl,
          record {
            slot = lo;
            above = omega arith;
            below = omega arith;
            hit = on;
            inside = h;
            lower = nothing_between dr6 entries lo lo (omega arith);
          },
        )
      ]
    ]

-- What the handler does on a hit: the entry of the lowest hit slot that has one is called, and none
-- if no hit slot has one.
pub Calls : ℕ → List (ℕ × SlotEntry) → Context → Bool × Context × List (ℕ × List ℕ) → Type 0
Calls dr6 entries ctx r =
    ((r ≡ (false, ctx, [])) × AllVacant dr6 entries 0 4)
    ⊎ ((entry : SlotEntry) × (r ≡ (true, ctx, call_on_hit entry.on_hit (to_hex_addr ctx.pc)))
        × IsFirstHit dr6 entries 0 4 entry)

-- Where DR6 can be read, the handler calls the callback of an entry of the lowest hit slot that has
-- one, and handles the trap; if no hit slot has an entry, it calls nothing and does not handle the
-- trap. No `execute` breakpoint with a trampoline is at the program counter.
debug_handler-Calls :
    (dr6 : ℕ) (entries : List (ℕ × SlotEntry)) (ctx : Context)
    → jump_target entries ctx ≡ none
    → Calls dr6 entries ctx (debug_handler (some dr6) entries ctx)
unfolding debug_handler answer hit_entry Calls Found
debug_handler-Calls dr6 entries ctx stays = elim (slot_loop-Found 4 0 dr6 entries) [
  | inl (q, h) ↦ inl (rw (stays, q) refl, h)
  | inr (e, q, h) ↦ inr (e, rw (stays, q) refl, h)
]
