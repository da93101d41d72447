-- ===== src/Runtime/Released.antt =====
-- What `disableAll` and `removeAll` of src/core/script.cc's clean-up give back to the kernel.
use better_ncm.Base.{
  ℕ, ◌≡◌, sym, ap, ◌∙◌, Bool, true, false, ◌||◌, Option, none, some, List, [], ◌∷◌, arith, All,
  Bool-cases, inl, inr, lookup, lookup-cons, lookup-erase,
}
use better_ncm.Relocator.{Machine}
use better_ncm.WatchedPages.{prot_read_write}
use better_ncm.WatchedPages.Rights.{
  rights_at, is_covered, IsReadWrite, restore_ranges-keep, restore_ranges-rights,
}
use better_ncm.AccessMonitor
use better_ncm.AccessMonitor.{MonitorEntry}
use better_ncm.PerfEvents.{Events, linux_clear_hw_bp}
use better_ncm.HardwareBreakpoint
use better_ncm.HardwareBreakpoint.{HwEntry}

-- A range of some monitor that has not fired has the address.
pub watched_by : ℕ → List (ℕ × MonitorEntry) → Bool
watched_by a [] = false
watched_by a ((id, m) ∷ ms) = is_covered a m.ranges || watched_by a ms

-- The rights that are saved for the ranges of the monitors are to read and write.
abbrev pub SavesReadWrite : List (ℕ × MonitorEntry) → Type 0
SavesReadWrite ms = All (λ (p : ℕ × MonitorEntry). IsReadWrite p.1.ranges) ms

release_loop-keep :
    (a : ℕ) (ms : List (ℕ × MonitorEntry)) (s : AccessMonitor.State)
    → SavesReadWrite ms
    → rights_at a s.protections ≡ some prot_read_write
    → rights_at a (AccessMonitor.release_loop ms s).protections ≡ some prot_read_write
unfolding AccessMonitor.release_loop AccessMonitor.release_monitor
release_loop-keep a [] s v h = h
release_loop-keep a ((id, m) ∷ ms) s v h =
    release_loop-keep a ms (AccessMonitor.release_monitor m s) v.1
      (restore_ranges-keep a m.ranges s.protections v.0 h)

-- The loop of `disableAll` gives every watched address its rights back.
pub release_loop-rights :
    (a : ℕ) (ms : List (ℕ × MonitorEntry)) (s : AccessMonitor.State)
    → SavesReadWrite ms
    → watched_by a ms ≡ true
    → rights_at a (AccessMonitor.release_loop ms s).protections ≡ some prot_read_write
unfolding AccessMonitor.release_loop AccessMonitor.release_monitor watched_by
release_loop-rights a [] s v h = absurd (ground arith)
release_loop-rights a ((id, m) ∷ ms) s v h = elim (Bool-cases (is_covered a m.ranges)) [
  | inl here ↦
      release_loop-keep a ms (AccessMonitor.release_monitor m s) v.1
        (restore_ranges-rights a m.ranges s.protections v.0 here)
  | inr off ↦
      release_loop-rights a ms (AccessMonitor.release_monitor m s) v.1
        (sym (ap (λ b. b || watched_by a ms) off) ∙ h)
]

clear-closed :
    (fd : ℕ) (o : Option ℕ) (events : Events)
    → lookup fd events ≡ none
    → lookup fd (linux_clear_hw_bp o events) ≡ none
unfolding linux_clear_hw_bp
clear-closed fd none events h = h
clear-closed fd (some k) events h = ground (arith, lookup-erase k fd events)

remove_loop-closed :
    (l : List (ℕ × HwEntry)) (m : Machine) (events : Events) (fd : ℕ)
    → lookup fd events ≡ none
    → lookup fd (HardwareBreakpoint.remove_loop l (m, events)).1 ≡ none
unfolding HardwareBreakpoint.remove_loop
remove_loop-closed [] m events fd h = h
remove_loop-closed ((id, e) ∷ l) m events fd h =
    remove_loop-closed l _ _ fd (clear-closed fd e.perf_fd events h)

clear_own : (fd : ℕ) (events : Events) → lookup fd (linux_clear_hw_bp (some fd) events) ≡ none
unfolding linux_clear_hw_bp
clear_own fd events = ground (arith, lookup-erase fd fd events)

-- The loop of `removeAll` closes the event of every breakpoint.
pub remove_loop-closes :
    (l : List (ℕ × HwEntry)) (m : Machine) (events : Events) (id fd : ℕ) (e : HwEntry)
    → lookup id l ≡ some e
    → e.perf_fd ≡ some fd
    → lookup fd (HardwareBreakpoint.remove_loop l (m, events)).1 ≡ none
unfolding HardwareBreakpoint.remove_loop lookup
remove_loop-closes [] m events id fd e h k = absurd (ground arith)
remove_loop-closes ((i, x) ∷ l) m events id fd e h k = elim (lookup-cons id i x e l h) [
  | inr (q, later) ↦ remove_loop-closes l _ _ id fd e later k
  | inl (q, is) ↦
      let own : x.perf_fd ≡ some fd = ap (λ (y : HwEntry). y.perf_fd) is ∙ k in
      let closed : lookup fd (linux_clear_hw_bp x.perf_fd events) ≡ none =
        ap (λ o. lookup fd (linux_clear_hw_bp o events)) own ∙ clear_own fd events in
      remove_loop-closed l _ _ fd closed
]
