-- ===== src/Console/Labels.antt =====
-- The timers and the counters.
use mathlib.Core.Path.{subst⁻¹}
use better_ncm.Base.{
  ℕ, zero, suc, ◌+◌, ◌%◌, ◌^◌, ◌<◌, ◌≡◌, refl, ◌∙◌, none, List, [], ◌∷◌, arith, Bool-cases, inl,
  inr,
}
use better_ncm.Exceptions.{same_text}
use better_ncm.Exceptions.Dispatch.{same_text_refl}
use better_ncm.Console.{
  State, find_label, erase_label, get_indent, label_of, print_styled, time, print_duration,
  time_end, next_count, count,
}

erase_label-none {ℓ} :
    {V : Type ℓ} (label : List ℕ) (m : List (List ℕ × V))
    → find_label label m ≡ none
    → erase_label label m ≡ m
unfolding find_label erase_label
erase_label-none label [] h = refl
erase_label-none label ((l, v) ∷ m) h = elim (Bool-cases (same_text l label)) [
  | inl e ↦ absurd (ground arith)
  | inr e ↦ rw e (ground (arith, erase_label-none label m))
]

-- The timer is not running, and the time since its start has been printed.
pub record IsStopped (show_ms : ℕ → ℕ → List ℕ) (start now : ℕ) (message : List ℕ) (s t : State)
    : Type 0 where
  pub timers : t.timers ≡ s.timers
  pub counters : t.counters ≡ s.counters
  pub printed : t.printed ≡ (print_duration show_ms now (label_of message) start s).printed

stopped :
    (show_ms : ℕ → ℕ → List ℕ) (start now : ℕ) (message : List ℕ) (s : State)
    → find_label (label_of message) s.timers ≡ none
    → IsStopped show_ms start now message s
        (time_end show_ms now message (record s { timers = (label_of message, start) ∷ s.timers }))
unfolding time_end find_label erase_label print_duration print_styled get_indent
stopped show_ms start now message s h =
    let same = same_text_refl (label_of message) in
    let gone = erase_label-none (label_of message) s.timers h in
    rw (same, time_end) (record { timers = rw same gone; counters = refl; printed = refl })

pub time_end-time :
    (show_ms : ℕ → ℕ → List ℕ) (start now : ℕ) (message : List ℕ) (s : State)
    → find_label (label_of message) s.timers ≡ none
    → IsStopped show_ms start now message s (time_end show_ms now message (time start message s))
unfolding time
time_end-time show_ms start now message s h =
    let gone = erase_label-none (label_of message) s.timers h in
    let started : time start message s
        ≡ record s { timers = (label_of message, start) ∷ s.timers } =
      rw (h, time, gone) refl in
    subst⁻¹ (λ t. IsStopped show_ms start now message s (time_end show_ms now message t)) started
      (stopped show_ms start now message s h)

-- `count` is called `n` times.
pub count_times : (ℕ → List ℕ) → List ℕ → ℕ → State → State
count_times show message zero s = s
count_times show message (suc n) s = count show message (count_times show message n s)

next_count-count :
    (show : ℕ → List ℕ) (message : List ℕ) (s : State)
    → next_count (label_of message) (count show message s)
      ≡ (next_count (label_of message) s + 1) % 2 ^ 64
unfolding next_count count find_label print_styled
next_count-count show message s = rw (same_text_refl (label_of message), next_count) refl

-- After `n` calls of `count` with a label that was not counted before, the next call counts `n +
-- 1`, below 2^64.
pub next_count-count_times :
    (show : ℕ → List ℕ) (message : List ℕ) (n : ℕ) (s : State)
    → find_label (label_of message) s.counters ≡ none
    → n + 1 < 2 ^ 64
    → next_count (label_of message) (count_times show message n s) ≡ n + 1
unfolding count_times next_count
next_count-count_times show message zero s h small = rw (h, next_count) (omega arith)
next_count-count_times show message (suc n) s h small =
    let before = next_count-count_times show message n s h (omega arith) in
    next_count-count show message (count_times show message n s) ∙ omega (arith, before)
