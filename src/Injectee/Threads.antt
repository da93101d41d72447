-- ===== src/Injectee/Threads.antt =====
-- The threads of src/injectee/injectee.cc and the variables that they share: `injectee_main` runs in a
-- detached thread, the watcher in a second one, and `_library_cleanup` when the library is unloaded.
use better_ncm.Base.{ℕ, suc, ◌≡◌, Bool, true, false}

-- `injectee_main`: before and after it makes the runtime, after the first statement of
-- `start_file_watcher`, and at its end
pub data MainPc : Type 0 where
  parsing running flag_cleared finished : MainPc

-- The thread of `g_watch_thread`: `watching` before the test of the flag, `in_round` in the body of the
-- loop, which may run `reset` and a script
pub data Watcher : Type 0 where
  absent watching in_round ended : Watcher

-- Whether there is a thread to wait for
unfoldable pub is_running : Watcher → Bool
is_running absent = false
is_running watching = true
is_running in_round = true
is_running ended = false

-- `_library_cleanup`: before it, after the flag is set, after the thread is joined, and at its end
pub data ExitPc : Type 0 where
  not_called flag_set joined done : ExitPc

-- `g_stop_watching`, and whether `g_runtime` is there
pub record World : Type 0 where
  pub main : MainPc
  pub watcher : Watcher
  pub exit : ExitPc
  pub stop_watching : Bool
  pub runtime : Bool

abbrev pub start : World
start = record {
  main = parsing;
  watcher = absent;
  exit = not_called;
  stop_watching = false;
  runtime = false;
}

-- A step of one of the threads
pub data Step : World → World → Type 0 where
  make_runtime :
      (s : World) → s.main ≡ parsing → Step s (record s { main = running; runtime = true })
  -- an exception of `parseEmbeddedConfig`, and every way out before the watcher
  main_throws : (s : World) → s.main ≡ parsing → Step s (record s { main = finished })
  main_returns : (s : World) → s.main ≡ running → Step s (record s { main = finished })
  clear_flag :
      (s : World)
      → s.main ≡ running
      → Step s (record s { main = flag_cleared; stop_watching = false })
  time_throws : (s : World) → s.main ≡ flag_cleared → Step s (record s { main = finished })
  start_watcher :
      (s : World)
      → s.main ≡ flag_cleared
      → Step s (record s { main = finished; watcher = watching })
  -- The body of the loop takes as long as it takes, and changes none of these variables; whether it
  -- ends is up to the script.
  begin_round :
      (s : World)
      → s.watcher ≡ watching
      → s.stop_watching ≡ false
      → Step s (record s { watcher = in_round })
  round_ends : (s : World) → s.watcher ≡ in_round → Step s (record s { watcher = watching })
  watch_ends :
      (s : World)
      → s.watcher ≡ watching
      → s.stop_watching ≡ true
      → Step s (record s { watcher = ended })
  set_flag :
      (s : World)
      → s.exit ≡ not_called
      → Step s (record s { exit = flag_set; stop_watching = true })
  join :
      (s : World)
      → s.exit ≡ flag_set
      → is_running s.watcher ≡ false
      → Step s (record s { exit = joined })
  drop_runtime : (s : World) → s.exit ≡ joined → Step s (record s { exit = done; runtime = false })

pub data Steps : World → World → Type 0 where
  no_step : (s : World) → Steps s s
  one_more : (s t u : World) → Steps s t → Step t u → Steps s u

-- A run of `n` steps
pub data Run : ℕ → World → World → Type 0 where
  stay : (s : World) → Run 0 s s
  go : (n : ℕ) (s t u : World) → Run n s t → Step t u → Run (suc n) s u
