-- ===== src/Judge/Run/Process.antt =====
-- runner.go: Process, which publishes the events of a run.
use runcodes.Prelude.{
  ℕ, Bool, true, false, Option, none, some, List, [], ◌∷◌, ◌++◌, take, if◌then◌else◌, Text, codes,
  Floats,
}
use runcodes.Judge.Model.{CaseResult, RunStatus, compilation_error, server_error}
use runcodes.Judge.Grading.{Config, score_run, lookup_result}
use runcodes.Judge.Run.Waits.{RunError, startup_error, timeout_error, other_error, classify}
use runcodes.Judge.Run.Container.{
  Job, Published, status, case_result, artifact, timings, alert, error, finished, RunOutcome,
  run_container,
}

module _ (F : Floats) (lower : ℕ → ℕ) (cfg : Config) (quoted : Text → Text) where
  -- Error of the three kinds; `wait` is the startup budget as it is printed.
  unfoldable pub error_text : Text → RunError → Text
  error_text wait (startup_error milestone) =
      codes "the container did not print " ++ quoted milestone ++ codes " within " ++ wait
  error_text wait (timeout_error msg) = msg
  error_text wait (other_error msg) = msg

  unfoldable pub finish :
      RunStatus → ℕ → F.Float → Text → Text → List (Published F lower cfg quoted)
  finish s correct score msg err = timings ∷ finished s correct score msg err ∷ []

  abbrev pub finish_failed : RunStatus → Text → Text → List (Published F lower cfg quoted)
  finish_failed s msg err = finish s 0 (F.literal 0 0) msg err

  -- Only the error of the startup budget is an alert.
  abbrev pub startup_alert : RunError → List (Published F lower cfg quoted)
  startup_alert (startup_error milestone) = alert milestone ∷ []
  startup_alert _ = []

  -- The results that were not published while the suite ran.
  unfoldable pub remaining :
      List (CaseResult F) → List (CaseResult F) → List (Published F lower cfg quoted)
  unfolding lookup_result
  remaining streamed [] = []
  remaining streamed (r ∷ rs) =
      let rest = remaining streamed rs in
      elim (lookup_result F streamed r.test_case_id) [ some _ ↦ rest | none ↦ case_result r ∷ rest ]

  abbrev pub root_artifact : Bool → List (Published F lower cfg quoted)
  root_artifact true = artifact ∷ []
  root_artifact false = []

  abbrev pub scored :
      RunOutcome F lower cfg quoted → ℕ × F.Float × RunStatus → List (Published F lower cfg quoted)
  scored o (correct, score, s) = finish s correct score o.message o.compile_error

  -- What Process publishes behind runContainer.
  abbrev pub after_container :
      Text
      → Job
      → RunOutcome F lower cfg quoted
      → Option RunError
      → List (Published F lower cfg quoted)
  after_container wait j o (some e) =
      startup_alert e
      ++ error (error_text wait e) ∷ finish_failed (classify e) o.message o.compile_error
  after_container wait j o none =
      remaining o.streamed o.results
      ++ (root_artifact j.root_uploads
          ++ (if o.failed_compilation
              then finish_failed compilation_error o.message o.compile_error
              else scored o (score_run F j.cases o.results)))

  unfoldable pub report_outcome :
      Text → Job → RunOutcome F lower cfg quoted → List (Published F lower cfg quoted)
  unfolding finish remaining classify error_text
  report_outcome wait j o = o.published ++ after_container wait j o o.failure

  abbrev pub fail_run : Text → List (Published F lower cfg quoted)
  fail_run msg = error msg ∷ finish_failed server_error [] []

  -- Process, where nothing panics.
  unfoldable pub run_events : Text → Job → List (Published F lower cfg quoted)
  unfolding run_container report_outcome finish
  run_events wait j = status (codes "compiling") ∷ elim j.prepare_error [
    | some e ↦ fail_run e
    | none ↦ elim j.language_error [
      | some e ↦ fail_run e
      | none ↦ report_outcome wait j (run_container F lower cfg quoted j)
    ]
  ]

  -- Process: `panic` is the number of events before a panic, and its value as text.
  unfoldable pub process : Text → Option (ℕ × Text) → Job → List (Published F lower cfg quoted)
  unfolding run_events finish
  process wait none j = run_events wait j
  process wait (some (k, msg)) j =
      take k (run_events wait j) ++ fail_run (codes "internal error: " ++ msg)
