-- ===== src/Console/Groups.antt =====
-- The depth of the groups.
use better_ncm.Base.{ℕ, suc, ◌≡◌, refl, ◌∙◌, ap, Bool, List, arith, Option-cases, inl, inr}
use better_ncm.Console.{
  State, find_label, label_of, print_styled, warn, group, group_end, time, print_duration, time_end,
  time_log, count, count_reset,
}

-- A call that is neither `group` nor `groupEnd`. What only prints is a `prints`.
pub data Plain (show_ms : ℕ → ℕ → List ℕ) (show : ℕ → List ℕ) : State → State → Type 0 where
  prints :
      (s : State) (is_stderr : Bool) (prefix message : List ℕ)
      → Plain show_ms show s (print_styled is_stderr prefix message s)
  times : (s : State) (now : ℕ) (message : List ℕ) → Plain show_ms show s (time now message s)
  ends_time :
      (s : State) (now : ℕ) (message : List ℕ)
      → Plain show_ms show s (time_end show_ms now message s)
  logs_time :
      (s : State) (now : ℕ) (message : List ℕ)
      → Plain show_ms show s (time_log show_ms now message s)
  counts : (s : State) (message : List ℕ) → Plain show_ms show s (count show message s)
  resets : (s : State) (message : List ℕ) → Plain show_ms show s (count_reset message s)

-- Calls in which every `group` is followed by its `groupEnd`
pub data Balanced (show_ms : ℕ → ℕ → List ℕ) (show : ℕ → List ℕ) : State → State → Type 0 where
  nothing : (s : State) → Balanced show_ms show s s
  then_plain :
      (s t u : State)
      → Balanced show_ms show s t
      → Plain show_ms show t u
      → Balanced show_ms show s u
  then_group :
      (s t u : State) (message : List ℕ)
      → Balanced show_ms show s t
      → Balanced show_ms show (group message t) u
      → Balanced show_ms show s (group_end u)

module _ (show_ms : ℕ → ℕ → List ℕ) (show : ℕ → List ℕ) where
  Plain-depth :
      (s t : State) → Plain show_ms show s t → t.current_group_depth ≡ s.current_group_depth
  unfolding print_styled time time_end time_log count count_reset warn print_duration
  Plain-depth s t (prints _ is_stderr prefix message) = refl
  Plain-depth s t (times _ now message) =
      elim (Option-cases (find_label (label_of message) s.timers)) [
        | inl q ↦ rw (q, time) refl
        | inr (x, q) ↦ rw (q, time) refl
      ]
  Plain-depth s t (ends_time _ now message) =
      elim (Option-cases (find_label (label_of message) s.timers)) [
        | inl q ↦ rw (q, time_end) refl
        | inr (x, q) ↦ rw (q, time_end) refl
      ]
  Plain-depth s t (logs_time _ now message) =
      elim (Option-cases (find_label (label_of message) s.timers)) [
        | inl q ↦ rw (q, time_log) refl
        | inr (x, q) ↦ rw (q, time_log) refl
      ]
  Plain-depth s t (counts _ message) = refl
  Plain-depth s t (resets _ message) =
      elim (Option-cases (find_label (label_of message) s.counters)) [
        | inl q ↦ rw (q, count_reset) refl
        | inr (x, q) ↦ rw (q, count_reset) refl
      ]

  group_end-depth :
      (u : State) (n : ℕ) → u.current_group_depth ≡ suc n → (group_end u).current_group_depth ≡ n
  unfolding group_end
  group_end-depth u n h = ground arith

  -- Calls in which every `group` is followed by its `groupEnd`, nested or not, with any printing,
  -- timing and counting between, leave the depth of the groups as it was.
  pub Balanced-depth :
      (s t : State) → Balanced show_ms show s t → t.current_group_depth ≡ s.current_group_depth
  unfolding group print_styled
  Balanced-depth s t (nothing _) = refl
  Balanced-depth s t (then_plain _ m _ before last) =
      Plain-depth m t last ∙ Balanced-depth s m before
  Balanced-depth s t (then_group _ m u message before body) =
      group_end-depth u s.current_group_depth
        (Balanced-depth (group message m) u body ∙ ap suc (Balanced-depth s m before))
