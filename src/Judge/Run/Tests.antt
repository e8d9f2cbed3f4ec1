-- ===== src/Judge/Run/Tests.antt =====
-- Runs of Process, and its theorems at concrete inputs.
use runcodes.Prelude.{
  ℕ, ◌≤◌, ◌≡◌, refl, false, Option, none, some, List, [], ◌∷◌, pos, Text, codes, text_eq, fields,
  fields_from, is_space, parse_int, parse_nat, arith, split, trim_space, trim_left, trim_right, cut,
}
use runcodes.Judge.Samples.{thousandths, lower, limits, seven, passing}
use runcodes.Judge.Cmp.Utf8.{decode}
use runcodes.Judge.Cmp.{text_equal_bytes, split_lines, text_lines, lines_equal, trim_right_space}
use runcodes.Judge.Model.{RunStatus, completed, timed_out}
use runcodes.Judge.Report.{read_monitor, key_value, exit_failure_message}
use runcodes.Judge.Files.{missing, read_regular_bounded, read_limited}
use runcodes.Judge.Grading.{
  grade_case, grade_all, judge_case, compare_output, expected_bytes, lookup_result, score_run,
  count_correct,
}
use runcodes.Judge.Events.{new_topic, run_topic, Call, publishes, subscribes}
use runcodes.Judge.Run.{
  Snapshot, Signal, line, timer, milestone_line, case_done_id, find_test_case, classify,
  workspace_aware, await_line, await_startup, Job, Published, on_line, conclude_suite, run_suite,
  execute, drive, run_container, finish, remaining, report_outcome, run_events, process,
}
use runcodes.Judge.Run.Shape.{TimedOut}
use runcodes.Judge.Run.Counts.{Distinct, id_count, case_ids, result_count}
use runcodes.Judge.Run.Ends.{Ends}
use runcodes.Judge.Run.Verdicts.{
  verdict_of, EndsWithFinished, process_ends, case_results_once, case_results_complete,
  timed_out_started,
}
use runcodes.Judge.Run.Closing.{
  name_of, Woven, publishing, another_call, nothing_left, Encodes, Closed, process_closes_topic,
}

abbrev as_is : Text → Text
as_is s = s

abbrev now : Snapshot
now = record { files = λ tc. passing; fetch = λ tc. none }

-- An interpreted run of one case.
abbrev job : List Signal → Job
job log = record {
  cases = seven ∷ [];
  nonce = codes "n1";
  compilable = false;
  prepare_error = none;
  language_error = none;
  image_error = none;
  create_error = none;
  start_error = none;
  log = log;
  quota = λ c. none;
  compilation_out = missing;
  compilation_err = missing;
  compilation_warnings = missing;
  compilation_monitor = missing;
  exit_code = some (pos 0);
  stopped = now;
  grading_error = [];
  root_uploads = false;
}

-- The suite names its case twice, and once without the nonce.
abbrev good : Job
good = job (
    line (codes "run.start n1") now
    ∷ line (codes "case.done 4") now
    ∷ line (codes "case.done 4 n1") now
    ∷ line (codes "case.done 4 n1") now
    ∷ line (codes "run.done n1") now
    ∷ [])

abbrev late_run : Job
late_run = job (line (codes "run.start n1") now ∷ timer ∷ [])

late_verdict :
    verdict_of thousandths lower limits as_is
      (process thousandths lower limits as_is (codes "1m") none late_run)
    ≡ some timed_out
unfolding process run_events run_container drive execute await_startup await_line milestone_line
    codes text_eq run_suite classify workspace_aware report_outcome finish
late_verdict = refl

timed_out_started_example : TimedOut thousandths lower limits as_is late_run
timed_out_started_example =
    timed_out_started thousandths lower limits as_is (codes "1m") late_run late_verdict

good_Distinct : Distinct (seven ∷ [])
good_Distinct id = ground arith

good_verdict :
    verdict_of thousandths lower limits as_is
      (process thousandths lower limits as_is (codes "1m") none good)
    ≡ some completed
unfolding process run_events run_container drive execute await_startup await_line milestone_line
    codes text_eq run_suite conclude_suite report_outcome finish on_line case_done_id find_test_case
    lookup_result fields fields_from is_space parse_int parse_nat remaining grade_all score_run
    count_correct grade_case judge_case read_monitor key_value trim_space trim_left trim_right cut
    split read_regular_bounded read_limited exit_failure_message expected_bytes compare_output
    text_equal_bytes text_lines decode split_lines lines_equal trim_right_space
good_verdict = refl

case_results_once_example :
    result_count thousandths lower limits as_is 4
      (process thousandths lower limits as_is (codes "1m") none good)
    ≤ 1
case_results_once_example =
    case_results_once thousandths lower limits as_is (codes "1m") good 4 good_Distinct

case_results_complete_example :
    result_count thousandths lower limits as_is 4
      (process thousandths lower limits as_is (codes "1m") none good)
    ≡ id_count 4 (case_ids (seven ∷ []))
case_results_complete_example =
    case_results_complete thousandths lower limits as_is (codes "1m") good 4 completed good_Distinct
      good_verdict refl

process_ends_example :
    EndsWithFinished thousandths lower limits as_is
      (process thousandths lower limits as_is (codes "1m") (some (2, codes "nil map")) good)
    × ((s : RunStatus) × Ends thousandths lower limits as_is s
          (process thousandths lower limits as_is (codes "1m") none good))
process_ends_example =
    process_ends thousandths lower limits as_is (codes "1m") good 2 (codes "nil map")

abbrev Ev : Type 0
Ev = Published thousandths lower limits as_is

abbrev encode : Ev → ℕ → Option (List ℕ)
encode ev seq = some (seq ∷ [])

encode-Encodes : Encodes thousandths lower limits as_is encode
encode-Encodes s n x msg err seq = (seq ∷ [], refl)

abbrev no_reads : ℕ → ℕ
no_reads id = 0

abbrev published : List Ev → List Call
published [] = []
published (ev ∷ evs) =
    publishes no_reads (name_of thousandths lower limits as_is ev) (encode ev) ∷ published evs

weave : (evs : List Ev) → Woven thousandths lower limits as_is encode evs (published evs)
weave [] = nothing_left
weave (ev ∷ evs) = publishing no_reads ev (weave evs)

-- A client subscribes before the run.
process_closes_topic_example : Closed thousandths lower limits as_is encode (
    run_topic new_topic (
      subscribes 1 0
      ∷ published (process thousandths lower limits as_is (codes "1m") none late_run)))
process_closes_topic_example =
    process_closes_topic thousandths lower limits as_is encode (codes "1m") late_run
      (subscribes 1 0
        ∷ published (process thousandths lower limits as_is (codes "1m") none late_run))
      encode-Encodes
      (another_call (subscribes 1 0) refl
        (weave (process thousandths lower limits as_is (codes "1m") none late_run)))
