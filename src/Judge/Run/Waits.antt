-- ===== src/Judge/Run/Waits.antt =====
-- container.go: the container's log, and the waits for its milestones. The log is a list of lines and of
-- timers that fire, each line with the files as they stand when it is read. `quoted` is the verb %q.
use runcodes.Prelude.{
  ℕ, suc, ◌&&◌, Option, none, some, List, [], ◌∷◌, ◌++◌, ◌==◌, if◌then◌else◌, ℤ, pos, Text, codes,
  text_eq, is_empty, fields, parse_int,
}
use runcodes.Judge.Model.{TestCase, RunStatus, server_error, timed_out}
use runcodes.Judge.Files.{Entry}
use runcodes.Judge.Grading.{CaseFiles}

-- The files of every case at some moment of the run.
pub record Snapshot : Type 0 where
  pub files : TestCase → CaseFiles
  pub fetch : TestCase → Option Entry

-- What a wait for a milestone sees next. Where the list ends, the log stream has ended.
pub data Signal : Type 0 where
  line : Text → Snapshot → Signal
  timer : Signal

-- startupError with its milestone, timeoutError with its message, and every other error.
pub data RunError : Type 0 where
  startup_error timeout_error other_error : Text → RunError

unfoldable pub milestone_line : Text → Text → Text
milestone_line milestone nonce = if is_empty nonce then milestone else milestone ++ b' ' ∷ nonce

abbrev positive : Option ℤ → Option ℕ
positive (some (pos (suc n))) = some (suc n)
positive _ = none

-- The tests of caseDoneID on the fields of a line.
abbrev case_fields : Text → List Text → Option ℕ
case_fields nonce (w ∷ i ∷ n ∷ []) =
    if text_eq w (codes "case.done") && text_eq n nonce then positive (parse_int i) else none
case_fields nonce _ = none

unfoldable pub case_done_id : Text → Text → Option ℕ
case_done_id l nonce = case_fields nonce (fields l)

unfoldable pub find_test_case : List TestCase → ℕ → Option TestCase
find_test_case [] id = none
find_test_case (tc ∷ tcs) id = if tc.id == id then some tc else find_test_case tcs id

unfoldable pub classify : RunError → RunStatus
classify (startup_error _) = server_error
classify (timeout_error _) = timed_out
classify (other_error _) = server_error

-- A quota error of the workspace is preferred to the error it caused.
unfoldable pub workspace_aware : Option Text → RunError → RunError
workspace_aware none e = e
workspace_aware (some quota) e = other_error quota

abbrev pub as_startup : Text → Option RunError → Option RunError
as_startup milestone (some (timeout_error _)) = some (startup_error milestone)
as_startup milestone e = e

module _ (quoted : Text → Text) where
  unfoldable pub await_line {ℓ} :
      {A : Type ℓ}
      → Text
      → (A → Text → Snapshot → A)
      → A
      → List Signal
      → A × Option RunError × List Signal
  await_line wanted on_line a [] =
      (a, some (other_error (codes "container log stream ended before " ++ quoted wanted)), [])
  await_line wanted on_line a (timer ∷ log) =
      (a, some (timeout_error (codes "timed out waiting for " ++ quoted wanted)), log)
  await_line wanted on_line a (line l now ∷ log) =
      let rest = await_line wanted on_line (on_line a l now) log in
      if text_eq l wanted then (a, none, log) else rest

  -- A wait without a callback.
  abbrev wait_for : Text → List Signal → Option RunError × List Signal
  wait_for wanted log =
      let (_, e, log') = await_line wanted (λ (u : Unit {0}) _ _. u) tt log in (e, log')

  unfoldable pub await_startup : Text → Text → List Signal → Option RunError × List Signal
  unfolding await_line
  await_startup milestone nonce log =
      let (e, log') = wait_for (milestone_line milestone nonce) log in
      (as_startup milestone e, log')
