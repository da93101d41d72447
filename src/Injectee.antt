-- ===== src/Injectee.antt =====
-- src/injectee/injectee.cc: the start of the library and the watcher of a script's file. What the
-- configuration, the files and the script engine answer is an argument; a text is the list of its
-- bytes.
pub mod Reload
pub mod Threads
pub mod Shutdown
use better_ncm.Base.{
  ℕ, zero, suc, Bool, true, false, not, ◌&&◌, Option, none, some, List, [], ◌∷◌, ◌++◌, ◌==◌,
  if◌then◌else◌, length, Outcome, ok, thrown, codes,
}
use better_ncm.Base.Int.{ℤ}

-- `EmbeddedConfigData`
pub data Mode : Type 0 where
  embed_js watch_path : Mode
  other_mode : ℤ → Mode

pub record ConfigData : Type 0 where
  pub mode : Mode
  pub js_content : Option (List ℕ)
  pub watch_path : Option (List ℕ)

-- What the library does that can be seen: calls of the runtime, and lines printed
pub data Event : Type 0 where
  did_reset loaded change_detected reloaded no_js_content no_watch_path : Event
  evaluated : List ℕ → List ℕ → Event
  watching open_failed read_failed script_error time_failed watch_error initialization_failed :
      List ℕ → Event
  unknown_mode : ℤ → Event

-- The answers of the surroundings at one time: the file's content, if it can be opened, its time of
-- change, what `reset` throws, if it throws, and what `eval_script` returns. An error is a text.
pub record Answers : Type 0 where
  pub open_file : List ℕ → Option (List ℕ)
  pub last_write_time : List ℕ → Outcome (List ℕ) ℕ
  pub reset_throws : Option (List ℕ)
  pub eval_script : List ℕ → List ℕ → Option (List ℕ)

unfoldable pub is_empty : List ℕ → Bool
is_empty text = length text == 0

-- `read_file`
unfoldable pub read_file : Answers → List ℕ → List Event × List ℕ
read_file env path = elim (env.open_file path) [
  | none ↦ (open_failed path ∷ [], [])
  | some content ↦ ([], content)
]

-- The evaluation of a script, and what follows an error or none
unfoldable pub eval_then :
    {A : Type 0} → Answers → List ℕ → List ℕ → List Event × A → A → List Event × A
eval_then env content name (events, done) failed = elim (env.eval_script content name) [
  | none ↦ (evaluated content name ∷ events, done)
  | some error ↦ (evaluated content name ∷ script_error error ∷ [], failed)
]

-- `start_file_watcher`: the path and the time that the thread starts with, if it starts
unfoldable pub start_file_watcher : Answers → List ℕ → List Event × Option (List ℕ × ℕ)
start_file_watcher env path = elim (env.last_write_time path) [
  | thrown what ↦ (time_failed what ∷ [], none)
  | ok time ↦ (watching path ∷ [], some (path, time))
]

-- The two modes, from the text that is wanted on
unfoldable pub run_embedded : Answers → Option (List ℕ) → List Event × Option (List ℕ × ℕ)
run_embedded env none = (no_js_content ∷ [], none)
run_embedded env (some content) =
    if is_empty content
    then (no_js_content ∷ [], none)
    else eval_then env content (codes "<embedded>") ([], none) none

unfoldable pub run_file : Answers → List ℕ → List Event × List ℕ → List Event × Option (List ℕ × ℕ)
run_file env path (events, content) =
    if is_empty content
    then (events ++ read_failed path ∷ [], none)
    else eval_then env content path (start_file_watcher env path) none

unfoldable pub run_watched : Answers → Option (List ℕ) → List Event × Option (List ℕ × ℕ)
run_watched env none = (no_watch_path ∷ [], none)
run_watched env (some path) =
    if is_empty path then (no_watch_path ∷ [], none) else run_file env path (read_file env path)

unfoldable pub run_mode : Answers → ConfigData → Mode → List Event × Option (List ℕ × ℕ)
run_mode env config embed_js = run_embedded env config.js_content
run_mode env config Mode.watch_path = run_watched env config.watch_path
run_mode env config (other_mode n) = (unknown_mode n ∷ [], none)

-- `injectee_main`, from the parsed configuration on
unfoldable pub run_config : Answers → ConfigData → List Event × Option (List ℕ × ℕ)
run_config env config = elim env.reset_throws [
  | some what ↦ (did_reset ∷ initialization_failed what ∷ [], none)
  | none ↦ let (events, watcher) = run_mode env config config.mode in (did_reset ∷ events, watcher)
]

-- `injectee_main`: what is seen, and what the watcher starts with, if it starts
unfoldable pub injectee_main :
    Answers → Outcome (List ℕ) ConfigData → List Event × Option (List ℕ × ℕ)
injectee_main env (thrown what) = (loaded ∷ initialization_failed what ∷ [], none)
injectee_main env (ok config) =
    let (events, watcher) = run_config env config in (loaded ∷ events, watcher)

-- A round of the watcher, from the new content on; `running` says that `g_runtime` is not null.
unfoldable pub reload : Bool → Answers → List ℕ → List Event × List ℕ → List Event
reload running env path (events, content) =
    let run : List Event = elim env.reset_throws [
      | some what ↦ did_reset ∷ watch_error what ∷ []
      | none ↦ did_reset ∷ (eval_then env content path (reloaded ∷ [], tt) tt).0
    ] in
    events ++ (if not (is_empty content) && running then run else [])

-- A round of the watcher: the events, and the time that it has seen last
unfoldable pub watch_round : Bool → Answers → List ℕ → ℕ → List Event × ℕ
watch_round running env path last_time = elim (env.last_write_time path) [
  | thrown what ↦ (watch_error what ∷ [], last_time)
  | ok current_time ↦
      if current_time == last_time
      then ([], last_time)
      else (change_detected ∷ reload running env path (read_file env path), current_time)
]

-- The rounds of the watcher while `g_stop_watching` is not set: one for each entry of the list
unfoldable pub watch_rounds : List (Bool × Answers) → List ℕ → ℕ → List Event × ℕ
watch_rounds [] path last_time = ([], last_time)
watch_rounds ((running, env) ∷ rounds) path last_time =
    let (events, time) = watch_round running env path last_time in
    let (later, last) = watch_rounds rounds path time in (events ++ later, last)
