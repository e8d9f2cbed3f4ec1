-- ===== src/Judge/Model.antt =====
-- judge/internal/model/model.go: the test case and its graded outcome.
use runcodes.Prelude.{ℕ, Bool, List, Text, ℤ, Floats}

-- `expected_output` holds bytes, and a limit is an int or int64 of the source.
pub record TestCase : Type 0 where
  pub id : ℕ
  pub number : ℤ
  pub expected_output_type : Text
  pub expected_output : List ℕ
  pub cpu_time_limit : ℤ
  pub mem_usage_limit : ℤ
  pub stack_limit : ℤ
  pub file_size_limit : ℤ

pub data CaseStatus : Type 0 where
  correct bad_format killed_by_signal : CaseStatus

-- `unset` is the empty reason.
pub data CaseReason : Type 0 where
  unset timeout cpu_limit memory_limit stack_limit file_size_limit signal monitor output server :
      CaseReason

pub record CaseResult (F : Floats) : Type 0 where
  pub test_case_id : ℕ
  pub cpu_time : F.Float
  pub wall_time : F.Float
  pub mem_usage : ℤ
  pub status : CaseStatus
  pub reason : CaseReason
  pub status_msg : Text
  pub user_output : Text
  pub error_message : Text

pub data RunStatus : Type 0 where
  completed uncompleted compilation_error server_error timed_out : RunStatus

abbrev pub is_correct : CaseStatus → Bool
is_correct correct = Bool.true
is_correct bad_format = Bool.false
is_correct killed_by_signal = Bool.false
