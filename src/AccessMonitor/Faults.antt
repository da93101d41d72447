-- ===== src/AccessMonitor/Faults.antt =====
-- One fault on a watched page.
use better_ncm.Base.{
  ℕ, suc, ◌+◌, ◌≤◌, ◌<◌, ◌≡◌, refl, sym, ap, ◌∙◌, ◌++◌, ◌⊎◌, inl, inr, true, false, none, some,
  List, [], ◌∷◌, arith, if◌then◌else◌, Bool-cases, All,
}
use better_ncm.Exceptions.{Context}
use better_ncm.PendingRing.{record_event}
use better_ncm.WatchedPages.{WatchedRange, takes_fault, fire_range}
use better_ncm.WatchedPages.Rights.{rights_at, rights_at-set}
use better_ncm.AccessMonitor.{
  MonitorEntry, State, scan_monitors, pending_event, take_fault, monitor_segv_handler,
}

-- The ranges that have not fired
pub armed_ranges : List WatchedRange → ℕ
armed_ranges [] = 0
armed_ranges (r ∷ rs) = (if r.fired then 0 else 1) + armed_ranges rs

pub armed : List (ℕ × MonitorEntry) → ℕ
armed [] = 0
armed ((id, m) ∷ ms) = armed_ranges m.ranges + armed ms

-- `hit` is the first of the ranges `rs` that takes the fault, and `qs` are these ranges with it alone
-- marked as fired.
pub record Fires (a : ℕ) (rs : List WatchedRange) (hit : WatchedRange) (qs : List WatchedRange)
    : Type 0 where
  pub before : List WatchedRange
  pub after : List WatchedRange
  pub split : rs ≡ before ++ hit ∷ after
  pub earlier : All (λ r. takes_fault a r ≡ false) before
  pub takes : takes_fault a hit ≡ true
  pub marked : qs ≡ before ++ record hit { fired = true } ∷ after

-- No range of the monitor takes the fault.
abbrev pub Refuses : ℕ → ℕ × MonitorEntry → Type 0
Refuses a p = All (λ r. takes_fault a r ≡ false) p.1.ranges

-- `m` is the first of the monitors `ms` with such a range, and only that range changes.
pub record Picks (a : ℕ) (ms : List (ℕ × MonitorEntry)) (m : MonitorEntry) (hit : WatchedRange)
    (qs : List (ℕ × MonitorEntry)) : Type 0 where
  pub id : ℕ
  pub before : List (ℕ × MonitorEntry)
  pub after : List (ℕ × MonitorEntry)
  pub ranges : List WatchedRange
  pub split : ms ≡ before ++ (id, m) ∷ after
  pub earlier : All (Refuses a) before
  pub fires : Fires a m.ranges hit ranges
  pub marked : qs ≡ before ++ (id, record m { ranges = ranges }) ∷ after

not_fired : (a : ℕ) (r : WatchedRange) → takes_fault a r ≡ true → r.fired ≡ false
unfolding takes_fault
not_fired a r h = ground arith

fire_range-Fires :
    (a : ℕ) (rs : List WatchedRange)
    → ((fire_range a rs ≡ none) × All (λ r. takes_fault a r ≡ false) rs)
      ⊎ ((hit : WatchedRange) × (qs : List WatchedRange) × (fire_range a rs ≡ some (hit, qs))
          × Fires a rs hit qs)
unfolding fire_range
fire_range-Fires a [] = inl (refl, tt)
fire_range-Fires a (r ∷ rs) = elim (Bool-cases (takes_fault a r)) [
  | inl e ↦ inr (
    r,
    record r { fired = true } ∷ rs,
    rw (e, fire_range) refl,
    record { before = []; after = rs; split = refl; earlier = tt; takes = e; marked = refl },
  )
  | inr e ↦ elim (fire_range-Fires a rs) [
    | inl (q, none_takes) ↦ inl (rw (e, q, fire_range) refl, (e, none_takes))
    | inr (hit, qs, q, f) ↦ inr (
      hit,
      r ∷ qs,
      rw (e, q, fire_range) refl,
      record {
        before = r ∷ f.before;
        after = f.after;
        split = ap (λ l. r ∷ l) f.split;
        earlier = (e, f.earlier);
        takes = f.takes;
        marked = ap (λ l. r ∷ l) f.marked;
      },
    )
  ]
]

-- The same of the loop over the monitors
scan_monitors-Picks :
    (a : ℕ) (ms : List (ℕ × MonitorEntry))
    → ((scan_monitors a ms ≡ none) × All (Refuses a) ms)
      ⊎ ((m : MonitorEntry) × (hit : WatchedRange) × (qs : List (ℕ × MonitorEntry)) × (scan_monitors
              a ms
            ≡ some (m, hit, qs))
          × Picks a ms m hit qs)
unfolding scan_monitors
scan_monitors-Picks a [] = inl (refl, tt)
scan_monitors-Picks a ((id, m) ∷ ms) = elim (fire_range-Fires a m.ranges) [
  | inr (hit, qs, q, f) ↦ inr (
    m,
    hit,
    (id, record m { ranges = qs }) ∷ ms,
    rw (q, scan_monitors) refl,
    record {
      id = id;
      before = [];
      after = ms;
      ranges = qs;
      split = refl;
      earlier = tt;
      fires = f;
      marked = refl;
    },
  )
  | inl (q, none_takes) ↦ elim (scan_monitors-Picks a ms) [
    | inl (p, others) ↦ inl (rw (q, p, scan_monitors) refl, (none_takes, others))
    | inr (m', hit, qs, p, f) ↦ inr (
      m',
      hit,
      (id, m) ∷ qs,
      rw (q, p, scan_monitors) refl,
      record {
        id = f.id;
        before = (id, m) ∷ f.before;
        after = f.after;
        ranges = f.ranges;
        split = ap (λ l. (id, m) ∷ l) f.split;
        earlier = (none_takes, f.earlier);
        fires = f.fires;
        marked = ap (λ l. (id, m) ∷ l) f.marked;
      },
    )
  ]
]

-- The number of ranges that have not fired, after one more has
armed_split :
    (a : ℕ) (before after : List WatchedRange) (hit : WatchedRange)
    → takes_fault a hit ≡ true
    → suc (armed_ranges (before ++ record hit { fired = true } ∷ after))
      ≡ armed_ranges (before ++ hit ∷ after)
unfolding armed_ranges
armed_split a [] after hit takes =
    let ready : hit.fired ≡ false = not_fired a hit takes in rw ready (omega arith)
armed_split a (r ∷ before) after hit takes = omega (arith, armed_split a before after hit takes)

Fires-armed :
    (a : ℕ) (rs qs : List WatchedRange) (hit : WatchedRange)
    → Fires a rs hit qs
    → suc (armed_ranges qs) ≡ armed_ranges rs
Fires-armed a rs qs hit f =
    ap (λ l. suc (armed_ranges l)) f.marked
    ∙ armed_split a f.before f.after hit f.takes
    ∙ ap armed_ranges (sym f.split)

armed_at :
    (before after : List (ℕ × MonitorEntry)) (p q : ℕ × MonitorEntry)
    → suc (armed_ranges q.1.ranges) ≡ armed_ranges p.1.ranges
    → suc (armed (before ++ q ∷ after)) ≡ armed (before ++ p ∷ after)
unfolding armed
armed_at [] after (i, m) (j, n) h = omega (arith, h)
armed_at ((i, m) ∷ before) after p q h = omega (arith, armed_at before after p q h)

Picks-armed :
    (a : ℕ) (ms qs : List (ℕ × MonitorEntry)) (m : MonitorEntry) (hit : WatchedRange)
    → Picks a ms m hit qs
    → suc (armed qs) ≡ armed ms
Picks-armed a ms qs m hit f =
    ap (λ l. suc (armed l)) f.marked
    ∙ armed_at f.before f.after (f.id, m) (f.id, record m { ranges = f.ranges })
        (Fires-armed a m.ranges f.ranges hit f.fires)
    ∙ ap armed (sym f.split)

inside :
    (a : ℕ) (r : WatchedRange)
    → takes_fault a r ≡ true
    → (r.page_base ≤ a) × (a < r.page_base + r.page_size)
unfolding takes_fault
inside a r h = (ground arith, ground arith)

-- What a fault that the handler takes leaves
pub record Resumes (s : State) (ctx : Context) (t : State) : Type 0 where
  pub monitor : MonitorEntry
  pub range : WatchedRange
  pub picks : Picks ctx.fault_address s.monitors monitor range t.monitors
  -- The access succeeds when it is tried again.
  pub rights : rights_at ctx.fault_address t.protections ≡ some range.original_prot
  pub recorded : t.ring ≡ record_event (pending_event monitor range ctx) s.ring

pub monitor_segv_handler-Resumes :
    (s : State) (ctx : Context)
    → ((monitor_segv_handler s ctx ≡ (false, s)) × All (Refuses ctx.fault_address) s.monitors)
      ⊎ ((t : State) × (monitor_segv_handler s ctx ≡ (true, t)) × Resumes s ctx t)
unfolding monitor_segv_handler take_fault
monitor_segv_handler-Resumes s ctx = elim (scan_monitors-Picks ctx.fault_address s.monitors) [
  | inl (q, none_takes) ↦ inl (rw (q, monitor_segv_handler) refl, none_takes)
  | inr (m, hit, ms', q, picks) ↦
      let at = inside ctx.fault_address hit picks.fires.takes in
      inr (
        take_fault s ctx m hit ms',
        rw (q, monitor_segv_handler) refl,
        record {
          monitor = m;
          range = hit;
          picks = picks;
          rights =
              rights_at-set ctx.fault_address hit.page_base hit.page_size hit.original_prot
                s.protections at.0 at.1;
          recorded = refl;
        },
      )
]

-- Faults one after another, as far as the handler takes them
pub handle_all : List Context → State → ℕ × State
handle_all [] s = (0, s)
handle_all (ctx ∷ rest) s =
    let (handled, t) = monitor_segv_handler s ctx in
    let (n, last) = handle_all rest t in ((if handled then 1 else 0) + n, last)

pub handle_all-armed :
    (faults : List Context) (s : State)
    → (handle_all faults s).0 + armed (handle_all faults s).1.monitors ≡ armed s.monitors
unfolding handle_all
handle_all-armed [] s = omega arith
handle_all-armed (ctx ∷ rest) s = elim (monitor_segv_handler-Resumes s ctx) [
  | inl (q, none_takes) ↦ rw (q, handle_all) (omega (arith, handle_all-armed rest s))
  | inr (t, q, resumes) ↦
      rw (q, handle_all)
        (omega (arith, handle_all-armed rest t, Picks-armed _ _ _ _ _ resumes.picks))
]
