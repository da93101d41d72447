-- ===== src/Injectee/Reload.antt =====
-- What the watcher evaluates.
use better_ncm.Base.{
  ℕ, ◌≡◌, refl, Bool, true, false, Bool-cases, not, ◌&&◌, some, Option-cases, List, [], ◌∷◌, ◌++◌,
  inl, inr, ◌⊎◌, arith, Any, All, All-append, All-imp, ◌==◌, ok, Outcome-cases,
}
use better_ncm.Injectee.{
  Event, did_reset, reloaded, evaluated, open_failed, Answers, is_empty, read_file, eval_then,
  reload, watch_round, watch_rounds,
}

-- Each evaluation comes directly after a call of `reset`; the flag says that one was just made.
abbrev pub AfterReset : Bool → List Event → Type 0
AfterReset b [] = Unit {0}
AfterReset b (did_reset ∷ es) = AfterReset true es
AfterReset b (evaluated content name ∷ es) = (b ≡ true) × AfterReset false es
AfterReset b (_ ∷ es) = AfterReset false es

-- An event of a round at which the runtime was there: what is evaluated is the content of the file.
abbrev pub IsOf : List ℕ → Bool → Answers → Event → Type 0
IsOf path running env (evaluated content name) =
    (name ≡ path)
    × (running ≡ true)
    × (env.open_file path ≡ some content)
    × (is_empty content ≡ false)
IsOf path running env _ = Unit {0}

-- An event of one of the rounds
abbrev pub IsOfSome : List ℕ → List (Bool × Answers) → Event → Type 0
IsOfSome path rounds (evaluated content name) =
    Any (λ r. IsOf path r.0 r.1 (evaluated content name)) rounds
IsOfSome path rounds _ = Unit {0}

AfterReset-weaken : (es : List Event) → AfterReset false es → AfterReset true es
AfterReset-weaken [] h = tt
AfterReset-weaken (did_reset ∷ es) h = h
AfterReset-weaken (evaluated c n ∷ es) h = cc
AfterReset-weaken (_ ∷ es) h = h

AfterReset-append :
    (b : Bool) (xs ys : List Event)
    → AfterReset b xs
    → AfterReset false ys
    → AfterReset b (xs ++ ys)
AfterReset-append true [] ys h k = AfterReset-weaken ys k
AfterReset-append false [] ys h k = k
AfterReset-append b (did_reset ∷ xs) ys h k = AfterReset-append true xs ys h k
AfterReset-append b (evaluated c n ∷ xs) ys h k = (h.0, AfterReset-append false xs ys h.1 k)
AfterReset-append b (_ ∷ xs) ys h k = AfterReset-append false xs ys h k

module _ (path : List ℕ) where
  -- A run of the new script after `reset`
  abbrev pub Runs : Bool → Answers → List Event → Type 0
  Runs running env es = AfterReset false es × All (IsOf path running env) es

  eval-Runs :
      (env : Answers) (content : List ℕ)
      → env.open_file path ≡ some content
      → is_empty content ≡ false
      → Runs true env (did_reset ∷ (eval_then env content path (reloaded ∷ [], tt) tt).0)
  unfolding eval_then
  eval-Runs env content there full = elim (Option-cases (env.eval_script content path)) [
    | inl q ↦ rw (q, eval_then) ((refl, tt), (tt, ((refl, refl, there, full), (tt, tt))))
    | inr (e, q) ↦ rw (q, eval_then) ((refl, tt), (tt, ((refl, refl, there, full), (tt, tt))))
  ]

  run-Runs :
      (env : Answers) (content : List ℕ)
      → env.open_file path ≡ some content
      → is_empty content ≡ false
      → Runs true env (reload true env path ([], content))
  unfolding reload
  run-Runs env content there full = elim (Option-cases env.reset_throws) [
    | inl q ↦ rw (full, q, reload) (eval-Runs env content there full)
    | inr (e, q) ↦ rw (full, q, reload) (tt, (tt, (tt, tt)))
  ]

  skip-Runs :
      (env : Answers) (running : Bool) (content : List ℕ)
      → (not (is_empty content) && running) ≡ false
      → Runs running env (reload running env path ([], content))
  unfolding reload
  skip-Runs env running content h = rw (h, reload) (tt, tt)

  closed-Runs :
      (env : Answers) (running : Bool)
      → Runs running env (reload running env path (open_failed path ∷ [], []))
  unfolding reload is_empty
  closed-Runs env running = (tt, (tt, tt))

  reload-Runs :
      (running : Bool) (env : Answers)
      → Runs running env (reload running env path (read_file env path))
  unfolding read_file
  reload-Runs running env = elim (Option-cases (env.open_file path)) [
    | inl q ↦ rw (q, read_file) (closed-Runs env running)
    | inr (content, q) ↦ rw (q, read_file) (opened content q (Bool-cases running))
  ]
    where
      opened :
          (content : List ℕ)
          → env.open_file path ≡ some content
          → (running ≡ true) ⊎ (running ≡ false)
          → Runs running env (reload running env path ([], content))
      opened content q (inr off) = skip-Runs env running content (ground (arith, off))
      opened content q (inl on) = elim (Bool-cases (is_empty content)) [
        | inl empty ↦ skip-Runs env running content (ground (arith, empty))
        | inr full ↦ rw on (run-Runs env content q full)
      ]

  round-Runs :
      (running : Bool) (env : Answers) (last_time : ℕ)
      → Runs running env (watch_round running env path last_time).0
  unfolding watch_round
  round-Runs running env last_time = elim (Outcome-cases (env.last_write_time path)) [
    | inr (what, q) ↦ rw (q, watch_round) (tt, (tt, tt))
    | inl (time, q) ↦ elim (Bool-cases (time == last_time)) [
      | inl same ↦ rw (q, watch_round, same) (tt, tt)
      | inr new ↦
          let (after, all) = reload-Runs running env in rw (q, watch_round, new) (after, (tt, all))
    ]
  ]

  first_round :
      (running : Bool) (env : Answers) (rounds : List (Bool × Answers)) (e : Event)
      → IsOf path running env e
      → IsOfSome path ((running, env) ∷ rounds) e
  first_round running env rounds (evaluated c n) h = inl h
  first_round running env rounds _ h = tt

  later_round :
      (r : Bool × Answers) (rounds : List (Bool × Answers)) (e : Event)
      → IsOfSome path rounds e
      → IsOfSome path (r ∷ rounds) e
  later_round r rounds (evaluated c n) h = inr h
  later_round r rounds _ h = tt

  -- Over any rounds of the watcher, each evaluation comes directly after a call of `reset`, and
  -- what is evaluated is the content of the file in one of the rounds, under its path, not empty,
  -- and while the runtime was there.
  pub watch_rounds-IsOfSome :
      (rounds : List (Bool × Answers)) (last_time : ℕ)
      → let (events, last) = watch_rounds rounds path last_time in
        AfterReset false events × All (IsOfSome path rounds) events
  unfolding watch_rounds
  watch_rounds-IsOfSome [] last_time = (tt, tt)
  watch_rounds-IsOfSome ((running, env) ∷ rounds) last_time =
      let r = watch_round running env path last_time in
      let (after, all) = round-Runs running env last_time in
      let (rest, all_rest) = watch_rounds-IsOfSome rounds r.1 in
      (
        AfterReset-append false r.0 _ after rest,
        All-append (IsOfSome path ((running, env) ∷ rounds)) r.0 _
            (All-imp _ _ r.0 (first_round running env rounds) all)
            (All-imp _ _ _ (later_round (running, env) rounds) all_rest),
      )

  -- While the time of the file stays the same, no round does anything.
  pub watch_rounds-same :
      (rounds : List (Bool × Answers)) (last_time : ℕ)
      → All (λ r. r.1.last_write_time path ≡ ok last_time) rounds
      → watch_rounds rounds path last_time ≡ ([], last_time)
  unfolding watch_rounds watch_round
  watch_rounds-same [] last_time h = refl
  watch_rounds-same ((running, env) ∷ rounds) last_time h =
      let same : (last_time == last_time) ≡ true = ground arith in
      rw (h.0, watch_round, same) (watch_rounds-same rounds last_time h.1)
