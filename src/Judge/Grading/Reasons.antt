-- ===== src/Judge/Grading/Reasons.antt =====
-- The reasons that gradeCase gives, and when it ends the grading of the whole run.
use runcodes.Prelude.{
  ℕ, ◌≡◌, ◌≢◌, refl, inl, inr, true, Option, none, some, List, arith, is_pos, Text, Floats,
  Bool-cases,
}
use runcodes.Judge.Model.{
  TestCase, CaseStatus, killed_by_signal, CaseReason, unset, memory_limit, CaseResult,
}
use runcodes.Judge.Report.{MonitorInfo, valid, exit_failure_message, exit_reason, signal_reason}
use runcodes.Judge.Files.{Entry, read_regular_bounded, read_limited}
use runcodes.Judge.Grading.{
  Config, CaseFiles, Graded, graded, failed, compare_output, expected_bytes, Outcome, judge_case,
  judge_run, judge_output, exit_failure_reason, case_info, grade_case,
}
use runcodes.Judge.Grading.Verdict.{with_outcome_inverts}

compare_output_not_killed :
    (lower : ℕ → ℕ) (u e : List ℕ) (kind : Text) → compare_output lower u e kind ≢ killed_by_signal
unfolding compare_output
compare_output_not_killed lower u e kind h = ground arith

module _ (F : Floats) (tc : TestCase) (i : MonitorInfo F) (err : Text) where
  exit_failure_reason_memory :
      exit_failure_reason F i tc err ≡ memory_limit → is_pos tc.mem_usage_limit ≡ true
  unfolding exit_failure_reason exit_reason
  exit_failure_reason_memory h = ground arith

  signal_reason_memory : signal_reason F i tc ≡ memory_limit → is_pos tc.mem_usage_limit ≡ true
  unfolding signal_reason
  signal_reason_memory h = ground arith

-- What a result tells about its run: a compared case has no reason, a killed one without a reason
-- failed by its exit status, and a memory limit is blamed only where the case has one.
pub record Explained (F : Floats) (tc : TestCase) (i : MonitorInfo F) (status : CaseStatus)
    (reason : CaseReason) : Type 0 where
  pub compared : status ≢ killed_by_signal → reason ≡ unset
  pub attributed :
      status ≡ killed_by_signal → reason ≡ unset → (m : Text) × (exit_failure_message F i ≡ some m)
  pub limited : reason ≡ memory_limit → is_pos tc.mem_usage_limit ≡ true

signal_reason_set : (F : Floats) (i : MonitorInfo F) (tc : TestCase) → signal_reason F i tc ≢ unset
unfolding signal_reason
signal_reason_set F i tc h = ground arith

module _ (F : Floats) (lower : ℕ → ℕ) (cfg : Config) (tc : TestCase) (i : MonitorInfo F)
    (err : Text) where
  judge_run-Explained :
      (u : List ℕ) (ex : Graded (List ℕ)) (msg : Option Text) (o : Outcome F)
      → exit_failure_message F i ≡ msg
      → judge_run F lower tc i err u ex msg ≡ graded o
      → Explained F tc i o.status o.reason
  judge_run-Explained u ex (some m) o e h = record {
    compared = λ live. absurd (live (ground arith));
    attributed = λ _ _. (m, e);
    limited = λ r. exit_failure_reason_memory F tc i err (ground arith);
  }
  judge_run-Explained u failed none o e h = record {
    compared = λ live. absurd (live (ground arith));
    attributed = λ _ r. absurd (ground (arith, signal_reason_set F i tc));
    limited = λ r. signal_reason_memory F tc i err (ground arith);
  }
  judge_run-Explained u (graded ex) none o e h = record {
    compared = λ live. ground arith;
    attributed = λ k r. absurd (
        ground (
          arith,
          signal_reason_set F i tc,
          compare_output_not_killed lower u ex tc.expected_output_type,
        ));
    limited = λ r. ground (arith, signal_reason_memory F tc i err);
  }

  judge_case-Explained :
      (user : Option (List ℕ)) (fetch : Option Entry) (o : Outcome F)
      → judge_case F lower cfg tc i err user fetch ≡ graded o
      → Explained F tc i o.status o.reason
  unfolding judge_case
  judge_case-Explained user fetch o h = elim (Bool-cases (valid F i)) [
    | inr bad ↦ record {
      compared = λ live. absurd (live (ground arith));
      attributed = λ k r. absurd (ground arith);
      limited = λ r. absurd (ground arith);
    }
    | inl good ↦ read user (ground arith)
  ]
    where
      read :
          (user : Option (List ℕ))
          → judge_output F lower tc i err (expected_bytes cfg tc fetch) user ≡ graded o
          → Explained F tc i o.status o.reason
      read none g = record {
        compared = λ live. absurd (live (ground arith));
        attributed = λ k r. absurd (ground arith);
        limited = λ r. absurd (ground arith);
      }
      read (some u) g = judge_run-Explained u _ (exit_failure_message F i) o refl g

-- Every result explains itself: a case whose output was compared carries no reason, a killed case
-- without a reason failed by its exit status, and the memory limit is given as the reason only of a
-- case that has a memory limit.
pub grade_case_reason :
    (F : Floats) (lower : ℕ → ℕ) (cfg : Config) (tc : TestCase) (fs : CaseFiles)
    (fetch : Option Entry) (r : CaseResult F)
    → grade_case F lower cfg tc fs fetch ≡ graded r
    → Explained F tc (case_info F lower fs) r.status r.reason
unfolding grade_case
grade_case_reason F lower cfg tc fs fetch r h =
    let i = case_info F lower fs in
    let err = read_limited fs.error_file cfg.max_output_file_size in
    let user = read_regular_bounded fs.output_file cfg.max_compare_file_bytes in
    let (o, g, status, reason, _) =
      with_outcome_inverts F lower cfg tc i err
        (read_limited fs.output_file cfg.max_output_file_size)
        (judge_case F lower cfg tc i err user fetch) r h in
    rw (status, reason) (judge_case-Explained F lower cfg tc i err user fetch o g)
