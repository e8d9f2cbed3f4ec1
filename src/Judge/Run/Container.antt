-- ===== src/Judge/Run/Container.antt =====
-- runner.go: runContainer, from the image to the graded cases. The container engine and the files are
-- what they answer.
use runcodes.Prelude.{
  ℕ, zero, Bool, true, false, Option, none, some, List, [], ◌∷◌, ◌++◌, if◌then◌else◌, ℤ, pos, Text,
  codes, is_empty, trim_space, decimal_int, Floats,
}
use runcodes.Judge.Model.{TestCase, CaseResult, RunStatus}
use runcodes.Judge.Report.{
  MonitorInfo, read_monitor, valid, exit_failure_message, compilation_failed,
}
use runcodes.Judge.Files.{Entry, read_limited, read_regular_bounded}
use runcodes.Judge.Grading.{
  Config, Graded, graded, failed, grade_case, grade_all, lookup_result, report_text,
  max_monitor_bytes,
}
use runcodes.Judge.Run.Waits.{
  Snapshot, Signal, RunError, other_error, milestone_line, case_done_id, find_test_case,
  workspace_aware, await_line, await_startup,
}

-- Where the run asks the workspace monitor for a quota error.
pub data Check : Type 0 where
  at_startup at_compilation at_failed_compilation at_run_start at_run at_stop : Check

-- What a run works on, and the answers it gets.
pub record Job : Type 0 where
  pub cases : List TestCase
  pub nonce : Text
  pub compilable : Bool
  pub prepare_error : Option Text
  pub language_error : Option Text
  pub image_error : Option Text
  pub create_error : Option Text
  pub start_error : Option Text
  pub log : List Signal
  pub quota : Check → Option Text
  pub compilation_out : Entry
  pub compilation_err : Entry
  pub compilation_warnings : Entry
  pub compilation_monitor : Entry
  pub exit_code : Option ℤ
  pub stopped : Snapshot
  pub grading_error : Text
  pub root_uploads : Bool

module _ (F : Floats) (lower : ℕ → ℕ) (cfg : Config) (quoted : Text → Text) where
  -- The events of a run. Those of the uploads of a case come from their own worker.
  pub data Published : Type 0 where
    status : Text → Published
    compilation : Bool → Text → Text → Published
    case_result : CaseResult F → Published
    artifact timings : Published
    alert error : Text → Published
    finished : RunStatus → ℕ → F.Float → Text → Text → Published

  abbrev pub grade_at : Snapshot → TestCase → Graded (CaseResult F)
  grade_at now tc = grade_case F lower cfg tc (now.files tc) (now.fetch tc)

  abbrev pub store : List (CaseResult F) → Graded (CaseResult F) → List (CaseResult F)
  store streamed failed = streamed
  store streamed (graded r) = r ∷ streamed

  abbrev pub not_streamed :
      List (CaseResult F) → Option (CaseResult F) → Graded (CaseResult F) → List (CaseResult F)
  not_streamed streamed none g = store streamed g
  not_streamed streamed (some _) g = streamed

  abbrev pub case_line : Job → Snapshot → List (CaseResult F) → Option ℕ → List (CaseResult F)
  case_line j now streamed none = streamed
  case_line j now streamed (some id) = elim (find_test_case j.cases id) [
    | none ↦ streamed
    | some tc ↦ not_streamed streamed (lookup_result F streamed id) (grade_at now tc)
  ]

  -- onLine: the results stored so far, newest first, each published when it is stored.
  unfoldable pub on_line : Job → List (CaseResult F) → Text → Snapshot → List (CaseResult F)
  unfolding case_done_id find_test_case lookup_result
  on_line j streamed l now = case_line j now streamed (case_done_id l j.nonce)

  -- runOutcome, with the events published on the way and the error.
  pub record RunOutcome : Type 0 where
    pub published : List Published
    pub message : Text
    pub compile_error : Text
    pub failed_compilation : Bool
    pub streamed : List (CaseResult F)
    pub results : List (CaseResult F)
    pub failure : Option RunError

  abbrev pub stopped_with : List Published → Text → List (CaseResult F) → RunError → RunOutcome
  stopped_with events msg streamed e = record {
    published = events;
    message = msg;
    compile_error = [];
    failed_compilation = false;
    streamed = streamed;
    results = [];
    failure = some e;
  }

  abbrev pub in_order : List (CaseResult F) → List Published
  in_order [] = []
  in_order (r ∷ rs) = in_order rs ++ case_result r ∷ []

  -- The part behind run.done: the quota, the harness's exit status, the grading.
  abbrev pub after_grading :
      Text → List Published → Text → List (CaseResult F) → Graded (List (CaseResult F)) → RunOutcome
  after_grading problem events msg streamed failed =
      stopped_with events msg streamed (other_error problem)
  after_grading problem events msg streamed (graded rs) = record {
    published = events;
    message = msg;
    compile_error = [];
    failed_compilation = false;
    streamed = streamed;
    results = rs;
    failure = none;
  }

  abbrev pub harness_failure : Option ℤ → Option RunError
  harness_failure none = none
  harness_failure (some (pos zero)) = none
  harness_failure (some code) =
      some
        (other_error (codes "the container's run harness exited with status " ++ decimal_int code))

  unfoldable pub conclude_suite : Job → List Published → Text → List (CaseResult F) → RunOutcome
  conclude_suite j events msg streamed = elim (j.quota at_stop) [
    | some quota ↦ stopped_with events msg streamed (other_error quota)
    | none ↦ elim (harness_failure j.exit_code) [
      | some e ↦ stopped_with events msg streamed e
      | none ↦
          after_grading j.grading_error events msg streamed
            (grade_all F (grade_at j.stopped) streamed j.cases)
    ]
  ]

  abbrev pub after_suite :
      Job → List Published → Text → List (CaseResult F) × Option RunError × List Signal → RunOutcome
  after_suite j events msg (streamed, none, log) =
      conclude_suite j (events ++ in_order streamed) msg streamed
  after_suite j events msg (streamed, some e, log) =
      stopped_with (events ++ in_order streamed) msg streamed (workspace_aware (j.quota at_run) e)

  -- From run.start to run.done.
  unfoldable pub run_suite : Job → List Published → Text → List Signal → RunOutcome
  unfolding await_line on_line conclude_suite workspace_aware
  run_suite j events msg log =
      after_suite j events msg
        (await_line quoted (milestone_line (codes "run.done") j.nonce) (on_line j) [] log)

  abbrev pub after_run_start : Job → Text → Option RunError × List Signal → RunOutcome
  after_run_start j msg (some e, log) =
      stopped_with (compilation true msg [] ∷ []) msg [] (workspace_aware (j.quota at_run_start) e)
  after_run_start j msg (none, log) =
      run_suite j (compilation true msg [] ∷ status (codes "running") ∷ []) msg log

  unfoldable pub execute : Job → Text → List Signal → RunOutcome
  unfolding await_startup run_suite
  execute j msg log = after_run_start j msg (await_startup quoted (codes "run.start") j.nonce log)

  abbrev pub first_of : Text → Text → Text
  first_of [] other = other
  first_of (c ∷ s) other = c ∷ s

  abbrev pub reason_of : Bool → Option Text → Text
  reason_of false _ = codes "the monitor did not produce a report"
  reason_of true none = codes "the compiler did not exit successfully"
  reason_of true (some msg) = msg

  -- The message of a failed compilation: the diagnostics, else the compiler's exit status.
  unfoldable pub compilation_failure : MonitorInfo F → Text → Text
  unfolding exit_failure_message
  compilation_failure i diagnostics =
      first_of diagnostics
        (codes "compilation failed: " ++ reason_of (valid F i) (exit_failure_message F i))

  -- The message of a compilation that succeeded: the compiler's output and its warnings.
  unfoldable pub with_warnings : Text → Text → Text
  with_warnings out [] = out
  with_warnings out (c ∷ warnings) =
      let own = if is_empty (trim_space out) then out else out ++ b'\n' ∷ [] in
      own ++ codes "compiler warnings:\n" ++ c ∷ warnings

  abbrev pub compilation_stopped : Text → Text → RunOutcome
  compilation_stopped out err = record {
    published = compilation false out err ∷ [];
    message = out;
    compile_error = err;
    failed_compilation = true;
    streamed = [];
    results = [];
    failure = none;
  }

  abbrev pub diagnostics_of : Job → Text
  diagnostics_of j = read_limited j.compilation_err cfg.max_output_file_size

  abbrev pub compiler_output : Job → Text
  compiler_output j = read_limited j.compilation_out cfg.max_output_file_size

  abbrev pub report_of : Job → MonitorInfo F
  report_of j =
      read_monitor F lower
        (report_text F (read_regular_bounded j.compilation_monitor max_monitor_bytes))

  -- Behind compilation.done.
  unfoldable pub after_compiling : Job → List Signal → RunOutcome
  unfolding compilation_failed execute compilation_failure with_warnings
  after_compiling j log =
      let out = compiler_output j in
      let err = diagnostics_of j in
      let warnings = read_limited j.compilation_warnings cfg.max_output_file_size in
      let i = report_of j in
      if compilation_failed F i
      then elim (j.quota at_failed_compilation) [
        | some quota ↦ stopped_with [] out [] (other_error quota)
        | none ↦ compilation_stopped out (compilation_failure i err)
      ]
      else execute j (with_warnings out (first_of warnings err)) log

  abbrev pub after_compilation : Job → Unit {0} × Option RunError × List Signal → RunOutcome
  after_compilation j (_, some e, log) =
      stopped_with [] [] [] (workspace_aware (j.quota at_compilation) e)
  after_compilation j (_, none, log) = after_compiling j log

  abbrev pub after_startup : Job → Option RunError × List Signal → RunOutcome
  after_startup j (some e, log) = stopped_with [] [] [] (workspace_aware (j.quota at_startup) e)
  after_startup j (none, log) = after_compilation j (
      await_line quoted (milestone_line (codes "compilation.done") j.nonce)
        (λ (u : Unit {0}) _ _. u) tt log)

  -- From the start of the container.
  unfoldable pub drive : Job → RunOutcome
  unfolding after_compiling await_startup
  drive j =
      if j.compilable
      then after_startup j (await_startup quoted (codes "compilation.start") j.nonce j.log)
      else execute j [] j.log

  abbrev pub unless_failed : Option RunError → RunOutcome → RunOutcome
  unless_failed (some e) o = stopped_with [] [] [] e
  unless_failed none o = o

  abbrev pub wrapped : Text → Option Text → Option RunError
  wrapped prefix none = none
  wrapped prefix (some e) = some (other_error (prefix ++ e))

  unfoldable pub run_container : Job → RunOutcome
  unfolding drive
  run_container j = unless_failed (wrapped (codes "ensure image: ") j.image_error) (
      unless_failed (wrapped [] j.create_error)
        (unless_failed (wrapped [] j.start_error) (drive j)))
