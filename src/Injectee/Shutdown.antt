-- ===== src/Injectee/Shutdown.antt =====
-- What is left when the library is unloaded.
use better_ncm.Base.{ℕ, ◌+◌, ◌<◌, ◌≤◌, ◌≡◌, ◌≢◌, refl, ap, true, false, arith, ◌⊎◌, inl, inr}
use better_ncm.Injectee.Threads.{
  running, flag_cleared, finished, Watcher, absent, watching, in_round, ended, is_running, ExitPc,
  not_called, flag_set, joined, done, World, Step, make_runtime, main_throws, main_returns,
  clear_flag, time_throws, start_watcher, begin_round, round_ends, watch_ends, set_flag, join,
  drop_runtime, Steps, no_step, one_more, Run, stay, go,
}

-- What holds once `injectee_main` has ended and until then nobody has called `_library_cleanup`: the
-- flag stays set behind `set_flag`, and no watcher runs behind `join`.
pub record IsOrderly (s : World) : Type 0 where
  pub over : s.main ≡ finished
  pub flag : (s.exit ≡ not_called) ⊎ (s.stop_watching ≡ true)
  pub quiet : (s.exit ≡ not_called) ⊎ ((s.exit ≡ flag_set) ⊎ (is_running s.watcher ≡ false))
  pub dropped : s.exit ≡ done → s.runtime ≡ false

Step-IsOrderly : {s t : World} → Step s t → IsOrderly s → IsOrderly t
unfolding is_running
Step-IsOrderly (make_runtime s h) v = absurd (ground arith)
Step-IsOrderly (main_throws s h) v = absurd (ground arith)
Step-IsOrderly (main_returns s h) v = absurd (ground arith)
Step-IsOrderly (clear_flag s h) v = absurd (ground arith)
Step-IsOrderly (time_throws s h) v = absurd (ground arith)
Step-IsOrderly (start_watcher s h) v = absurd (ground arith)
Step-IsOrderly (begin_round s h f) v = ground arith
Step-IsOrderly (round_ends s h) v = ground arith
Step-IsOrderly (watch_ends s h f) v = ground arith
Step-IsOrderly (set_flag s h) v = ground arith
Step-IsOrderly (join s h q) v = ground arith
Step-IsOrderly (drop_runtime s h) v = ground arith

Steps-IsOrderly : {s t : World} → Steps s t → IsOrderly s → IsOrderly t
Steps-IsOrderly (no_step s) v = v
Steps-IsOrderly (one_more s t u before last) v = Step-IsOrderly last (Steps-IsOrderly before v)

IsOrderly-finished : (s : World) → s.main ≡ finished → s.exit ≡ not_called → IsOrderly s
IsOrderly-finished s over idle = record {
  over = over;
  flag = inl idle;
  quiet = inl idle;
  dropped = λ e. absurd (ground arith);
}

-- The steps that are left behind `set_flag`
left_to_watch : Watcher → ℕ
left_to_watch in_round = 2
left_to_watch watching = 1
left_to_watch absent = 0
left_to_watch ended = 0

left_to_exit : ExitPc → ℕ
left_to_exit not_called = 3
left_to_exit flag_set = 2
left_to_exit joined = 1
left_to_exit done = 0

left : World → ℕ
left s = left_to_watch s.watcher + left_to_exit s.exit

Step-left :
    {s t : World}
    → Step s t
    → IsOrderly s
    → s.exit ≢ not_called
    → (left t < left s) × (t.exit ≢ not_called)
unfolding left left_to_watch left_to_exit
Step-left (make_runtime s h) v on = absurd (ground arith)
Step-left (main_throws s h) v on = absurd (ground arith)
Step-left (main_returns s h) v on = absurd (ground arith)
Step-left (clear_flag s h) v on = absurd (ground arith)
Step-left (time_throws s h) v on = absurd (ground arith)
Step-left (start_watcher s h) v on = absurd (ground arith)
Step-left (begin_round s h f) v on = absurd (ground (arith, v.flag))
Step-left (round_ends s h) v on = (rw (h, left) (omega arith), on)
Step-left (watch_ends s h f) v on = (rw (h, left) (omega arith), on)
Step-left (set_flag s h) v on = absurd (on h)
Step-left (join s h q) v on = (rw (h, left) (omega arith), λ e. cc)
Step-left (drop_runtime s h) v on = (rw (h, left) (omega arith), λ e. cc)

ExitPc-cases : (p : ExitPc) → (p ≡ not_called) ⊎ ((p ≡ flag_set) ⊎ ((p ≡ joined) ⊎ (p ≡ done)))
ExitPc-cases not_called = inl refl
ExitPc-cases flag_set = inr (inl refl)
ExitPc-cases joined = inr (inr (inl refl))
ExitPc-cases done = inr (inr (inr refl))

Watcher-cases : (w : Watcher) → (w ≡ in_round) ⊎ ((w ≡ watching) ⊎ (is_running w ≡ false))
unfolding is_running
Watcher-cases in_round = inl refl
Watcher-cases watching = inr (inl refl)
Watcher-cases absent = inr (inr refl)
Watcher-cases ended = inr (inr refl)

-- Behind `set_flag` a state that is not the last has a next one, if no round runs.
pub GoesOn : World → Type 0
GoesOn s = (s.exit ≡ done) ⊎ ((s.watcher ≡ in_round) ⊎ ((t : World) × Step s t))

goes_on : (s : World) → IsOrderly s → s.exit ≢ not_called → GoesOn s
unfolding GoesOn
goes_on s v on = elim (ExitPc-cases s.exit) [
  | inl p ↦ absurd (on p)
  | inr (inl p) ↦ elim (Watcher-cases s.watcher) [
    | inl w ↦ inr (inl w)
    | inr (inl w) ↦ inr (inr (_, watch_ends s w (ground (arith, p, v.flag))))
    | inr (inr w) ↦ inr (inr (_, join s p w))
  ]
  | inr (inr (inl p)) ↦ inr (inr (_, drop_runtime s p))
  | inr (inr (inr p)) ↦ inl p
]

Run-left :
    {n : ℕ} {s t : World}
    → Run n s t
    → IsOrderly s
    → s.exit ≢ not_called
    → (n + left t ≤ left s) × IsOrderly t × (t.exit ≢ not_called)
Run-left (stay s) v on = (omega arith, v, on)
Run-left (go n s t u before last) v on =
    let (below, v', on') = Run-left before v on in
    let (less, on'') = Step-left last v' on' in (omega arith, Step-IsOrderly last v', on'')

left_to_watch-le : (w : Watcher) → left_to_watch w ≤ 2
unfolding left_to_watch
left_to_watch-le in_round = omega arith
left_to_watch-le watching = omega arith
left_to_watch-le absent = omega arith
left_to_watch-le ended = omega arith

left_to_exit-le : (p : ExitPc) → p ≢ not_called → left_to_exit p ≤ 2
unfolding left_to_exit
left_to_exit-le not_called on = absurd (on refl)
left_to_exit-le flag_set on = omega arith
left_to_exit-le joined on = omega arith
left_to_exit-le done on = omega arith

left-le : (s : World) → s.exit ≢ not_called → left s ≤ 4
unfolding left
left-le s on = omega (arith, left_to_watch-le s.watcher, left_to_exit-le s.exit on)

-- Where `injectee_main` has ended before `_library_cleanup` is called, the threads make at most
-- four steps behind the first step of the latter, of which the end of a round of the watcher is
-- one; until it is over they can make a step, unless a round is running; and when it is over no
-- watcher runs and the runtime is gone. Of a round whose script does not end nothing is said.
pub unload-ends :
    (n : ℕ) (s s' t u : World)
    → s.main ≡ finished
    → s.exit ≡ not_called
    → Steps s s'
    → Step s' t
    → t.exit ≢ not_called
    → Run n t u
    → (n ≤ 4) × GoesOn u × (u.exit ≡ done → (is_running u.watcher ≡ false) × (u.runtime ≡ false))
unload-ends n s s' t u over idle before call on run =
    let v : IsOrderly t =
      Step-IsOrderly call (Steps-IsOrderly before (IsOrderly-finished s over idle)) in
    let (below, w, on') = Run-left run v on in
    (
      omega (arith, left-le t on),
      goes_on u w on',
      λ e. elim w.quiet [
        | inl p ↦ absurd (on' p)
        | inr (inl p) ↦ absurd (ground (arith, p, e))
        | inr (inr q) ↦ (q, w.dropped e)
      ],
    )

-- The library is unloaded, and the watcher runs.
pub leaked : World → World
leaked s = record s {
  main = finished;
  watcher = watching;
  exit = done;
  stop_watching = false;
  runtime = false;
}

-- That state, between two rounds or in one
pub IsLeaked : World → World → Type 0
IsLeaked s t = (t ≡ leaked s) ⊎ (t ≡ record (leaked s) { watcher = in_round })

leaked-fields :
    (s t : World) → IsLeaked s t → (t.main ≡ finished) × (t.exit ≡ done) × (t.stop_watching ≡ false)
unfolding IsLeaked leaked
leaked-fields s t (inl q) = (
  ap (λ (w : World). w.main) q,
  ap (λ (w : World). w.exit) q,
  ap (λ (w : World). w.stop_watching) q,
)
leaked-fields s t (inr q) = (
  ap (λ (w : World). w.main) q,
  ap (λ (w : World). w.exit) q,
  ap (λ (w : World). w.stop_watching) q,
)

IsLeaked-watcher :
    (s t : World) (w : Watcher)
    → IsLeaked s t
    → record t { watcher = w } ≡ record (leaked s) { watcher = w }
unfolding IsLeaked leaked
IsLeaked-watcher s t w (inl q) = ap (λ (x : World). record x { watcher = w }) q
IsLeaked-watcher s t w (inr q) = ap (λ (x : World). record x { watcher = w }) q

IsLeaked-Step : {t u : World} → Step t u → (s : World) → IsLeaked s t → IsLeaked s u
unfolding IsLeaked leaked
IsLeaked-Step (make_runtime t h) s e = absurd (ground (arith, leaked-fields s t e))
IsLeaked-Step (main_throws t h) s e = absurd (ground (arith, leaked-fields s t e))
IsLeaked-Step (main_returns t h) s e = absurd (ground (arith, leaked-fields s t e))
IsLeaked-Step (clear_flag t h) s e = absurd (ground (arith, leaked-fields s t e))
IsLeaked-Step (time_throws t h) s e = absurd (ground (arith, leaked-fields s t e))
IsLeaked-Step (start_watcher t h) s e = absurd (ground (arith, leaked-fields s t e))
IsLeaked-Step (begin_round t h f) s e = inr (IsLeaked-watcher s t in_round e)
IsLeaked-Step (round_ends t h) s e = inl (IsLeaked-watcher s t watching e)
IsLeaked-Step (watch_ends t h f) s e = absurd (ground (arith, leaked-fields s t e))
IsLeaked-Step (set_flag t h) s e = absurd (ground (arith, leaked-fields s t e))
IsLeaked-Step (join t h q) s e = absurd (ground (arith, leaked-fields s t e))
IsLeaked-Step (drop_runtime t h) s e = absurd (ground (arith, leaked-fields s t e))

IsLeaked-stays : {t u : World} → Steps t u → (s : World) → IsLeaked s t → IsLeaked s u
IsLeaked-stays (no_step t) s e = e
IsLeaked-stays (one_more t v u before last) s e = IsLeaked-Step last s (IsLeaked-stays before s e)

-- Where `_library_cleanup` is called while `injectee_main` has made the runtime and no watcher yet,
-- the threads can reach a state in which the clean-up has ended and the watcher runs, and from then
-- on nothing changes but that rounds of the watcher begin and end: it never stops.
pub leaked-Steps :
    (s u : World)
    → s.main ≡ running
    → s.watcher ≡ absent
    → s.exit ≡ not_called
    → Steps (leaked s) u
    → Steps s (leaked s) × IsLeaked s u
unfolding leaked IsLeaked is_running
leaked-Steps s u on none_yet idle steps =
    let s1 : World = record s { exit = flag_set; stop_watching = true } in
    let s2 : World = record s1 { exit = joined } in
    let s3 : World = record s2 { exit = done; runtime = false } in
    let s4 : World = record s3 { main = flag_cleared; stop_watching = false } in
    let b1 : Steps s s1 = one_more _ _ _ (no_step s) (set_flag s idle) in
    let b2 : Steps s s2 = one_more _ _ _ b1 (join s1 refl (ap is_running none_yet)) in
    let b3 : Steps s s3 = one_more _ _ _ b2 (drop_runtime s2 refl) in
    let b4 : Steps s s4 = one_more _ _ _ b3 (clear_flag s3 on) in
    (one_more _ _ _ b4 (start_watcher s4 refl), IsLeaked-stays steps s (inl refl))
