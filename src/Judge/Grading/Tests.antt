-- ===== src/Judge/Grading/Tests.antt =====
-- Runs of gradeCase, gradeAll and scoreRun, and their theorems at concrete inputs.
use runcodes.Prelude.{
  ◌≡◌, ◌<◌, refl, ◌↔◌, Option, none, [], ◌∷◌, All, length, ℤ, pos, codes, text_eq, split,
  trim_space, trim_left, trim_right, is_space, cut, parse_int,
}
use runcodes.Judge.Samples.{thousandths, lower, limits, seven, passing}
use runcodes.Judge.Cmp.Utf8.{decode}
use runcodes.Judge.Cmp.{text_equal_bytes, split_lines, text_lines, lines_equal, trim_right_space}
use runcodes.Judge.Model.{TestCase, CaseResult, unset, correct, completed}
use runcodes.Judge.Report.{read_monitor, key_value, exit_failure_message}
use runcodes.Judge.Files.{Entry, read_regular_bounded, read_limited}
use runcodes.Judge.Grading.{
  CaseFiles, graded, compare_output, expected_bytes, judge_case, grade_case, grade_all, score_run,
  lookup_result, case_info,
}
use runcodes.Judge.Grading.Verdict.{SameOutput, compare_output_iff, Passes, grade_case_correct_iff}
use runcodes.Judge.Grading.Reasons.{Explained, grade_case_reason}
use runcodes.Judge.Grading.Run.{run_completed_iff}

compare_output_iff_example :
    (compare_output lower (codes "7 \n") (codes "7") (codes "text") ≡ correct)
    ↔ SameOutput (codes "text") (codes "7 \n") (codes "7")
compare_output_iff_example = compare_output_iff lower (codes "7 \n") (codes "7") (codes "text")

grade_case_correct_iff_example :
    ((r : CaseResult thousandths) × (grade_case thousandths lower limits seven passing none
        ≡ graded r)
      × (r.status ≡ correct))
    ↔ Passes thousandths lower limits seven passing none
grade_case_correct_iff_example = grade_case_correct_iff thousandths lower limits seven passing none

-- The result of the passing run.
abbrev passed : CaseResult thousandths
passed = record {
  test_case_id = 4;
  cpu_time = pos 1000;
  wall_time = pos 1000;
  mem_usage = ℤ.negsuc 0;
  status = correct;
  reason = unset;
  status_msg = [];
  user_output = codes "7 \n";
  error_message = [];
}

passes : grade_case thousandths lower limits seven passing none ≡ graded passed
unfolding grade_case judge_case codes text_eq read_monitor key_value trim_space trim_left trim_right
    is_space cut parse_int split read_regular_bounded read_limited exit_failure_message
    expected_bytes compare_output text_equal_bytes text_lines decode split_lines lines_equal
    trim_right_space
passes = refl

abbrev same_files : TestCase → CaseFiles
same_files tc = passing

abbrev no_download : TestCase → Option Entry
no_download tc = none

all_graded :
    grade_all thousandths
      (λ tc. grade_case thousandths lower limits tc (same_files tc) (no_download tc))
      []
      (seven ∷ [])
    ≡ graded (passed ∷ [])
unfolding grade_all lookup_result
all_graded = rw passes

run_completed_iff_example : ((score_run thousandths (seven ∷ []) (passed ∷ [])).2 ≡ completed) ↔ (
    (0 < length (seven ∷ []))
    × All (λ tc. Passes thousandths lower limits tc (same_files tc) (no_download tc)) (seven ∷ []))
run_completed_iff_example =
    run_completed_iff thousandths lower limits same_files no_download (seven ∷ []) (passed ∷ [])
      all_graded

grade_case_reason_example :
    Explained thousandths seven (case_info thousandths lower passing) correct unset
grade_case_reason_example =
    grade_case_reason thousandths lower limits seven passing none passed passes
