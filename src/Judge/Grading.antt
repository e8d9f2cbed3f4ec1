-- ===== src/Judge/Grading.antt =====
-- judge/internal/engine/grading.go: the grading of a case and of a run. The files of a case are
-- the entries found at its paths, and the object store is what a download of an expected output
-- leaves at its path (`none` for an error of the download).
pub mod Verdict
pub mod Reasons
pub mod Run
mod Tests
use runcodes.Prelude.{
  ℕ, zero, suc, ◌≡◌, Bool, true, false, ◌&&◌, ◌||◌, Option, none, some, List, [], ◌∷◌, ◌++◌, map,
  length, ltb, ◌==◌, if◌then◌else◌, ℤ, pos, negsuc, is_neg, is_pos, Text, codes, text_eq, is_empty,
  Floats,
}
use runcodes.Judge.Cmp.{text_equal_bytes, text_lenient_bytes}
use runcodes.Judge.Model.{
  TestCase, CaseStatus, correct, bad_format, killed_by_signal, CaseReason, unset, timeout,
  memory_limit, stack_limit, file_size_limit, signal, monitor, output, CaseResult, RunStatus,
  completed, uncompleted, is_correct,
}
use runcodes.Judge.Report.{
  MonitorInfo, read_monitor, valid, exit_failure_message, exit_reason, signal_reason,
  usage_limit_reason, allocation_failure, stack_overflow_failure, file_size_failure,
  limit_status_message,
}
use runcodes.Judge.Files.{Entry, read_regular_bounded, read_limited, to_valid}

-- The limits of the configuration; the largest report is 1 << 20 bytes.
pub record Config : Type 0 where
  pub max_output_file_size : ℕ
  pub max_compare_file_bytes : ℕ

abbrev pub max_monitor_bytes : ℕ
max_monitor_bytes = 1048576

pub record CaseFiles : Type 0 where
  pub output_file : Entry
  pub error_file : Entry
  pub monitor_file : Entry

-- `failed` is the error that ends the grading of the whole run.
pub data Graded {ℓ} (A : Type ℓ) : Type ℓ where
  graded : A → Graded A
  failed : Graded A

abbrev pub is_unset : CaseReason → Bool
is_unset unset = true
is_unset _ = false

abbrev is_memory : CaseReason → Bool
is_memory memory_limit = true
is_memory _ = false

abbrev pub is_signal : CaseReason → Bool
is_signal signal = true
is_signal _ = false

-- bytes.Equal for `file`, else the text comparisons, of which only the strict one is a pass.
unfoldable pub compare_output : (ℕ → ℕ) → List ℕ → List ℕ → Text → CaseStatus
compare_output lower user expected kind =
    if text_eq kind (codes "file")
    then (if text_eq user expected then correct else bad_format)
    else if text_equal_bytes user expected
    then correct
    else elim (text_lenient_bytes lower user expected) [ some true ↦ bad_format | _ ↦ bad_format ]

abbrev read_back : Option (List ℕ) → Graded (List ℕ)
read_back none = failed
read_back (some bytes) = graded bytes

abbrev fetched : ℕ → Option Entry → Graded (List ℕ)
fetched max none = failed
fetched max (some e) = read_back (read_regular_bounded e max)

-- The expected output, from the store for `file` and from the case itself for text.
unfoldable pub expected_bytes : Config → TestCase → Option Entry → Graded (List ℕ)
expected_bytes cfg tc fetch =
    if text_eq tc.expected_output_type (codes "file")
    then fetched cfg.max_compare_file_bytes fetch
    else if ltb 0 cfg.max_compare_file_bytes
        && ltb cfg.max_compare_file_bytes (length tc.expected_output)
    then failed
    else graded tc.expected_output

module _ (F : Floats) where
  -- What the switch of gradeCase decides.
  pub record Outcome : Type 0 where
    pub status : CaseStatus
    pub reason : CaseReason
    pub status_msg : Text
    pub error_message : Text

  -- The reason of a run with a failed exit status: each clue is asked only if none was found.
  unfoldable pub exit_failure_reason : MonitorInfo F → TestCase → Text → CaseReason
  exit_failure_reason i tc err =
      if is_unset (exit_reason F i)
      then (let memory =
            if is_pos tc.mem_usage_limit
              && (is_memory (usage_limit_reason F i tc) || allocation_failure err)
            then memory_limit
            else unset in
          let stack =
            if is_unset memory && stack_overflow_failure err then stack_limit else memory in
          if is_unset stack && is_pos tc.file_size_limit && file_size_failure err
          then file_size_limit
          else stack)
      else exit_reason F i

  unfoldable pub signal_fallback : MonitorInfo F → CaseReason → Text
  signal_fallback i r =
      if is_signal r && (text_eq i.signal (codes "SIGSEGV") || text_eq i.signal (codes "SIGBUS"))
      then codes "the program crashed with "
        ++ i.signal
        ++ codes " (a stack overflow is the usual cause)"
      else i.signal

  abbrev killed : CaseReason → Text → Text → Graded Outcome
  killed r msg err =
      graded
        (record { status = killed_by_signal; reason = r; status_msg = msg; error_message = err })

  abbrev compared : CaseStatus → Text → Graded Outcome
  compared s err = graded (record {
    status = s;
    reason = unset;
    status_msg = [];
    error_message = if is_correct s then [] else err;
  })

  abbrev compare_with : (ℕ → ℕ) → List ℕ → Text → Text → Graded (List ℕ) → Graded Outcome
  compare_with lower user kind err failed = failed
  compare_with lower user kind err (graded expected) =
      compared (compare_output lower user expected kind) err

  -- The cases of the switch behind a readable output, in their order.
  abbrev judge_run :
      (ℕ → ℕ)
      → TestCase
      → MonitorInfo F
      → Text
      → List ℕ
      → Graded (List ℕ)
      → Option Text
      → Graded Outcome
  judge_run lower tc i err user expected (some msg) =
      let r = exit_failure_reason i tc err in killed r (limit_status_message F r i tc msg) err
  judge_run lower tc i err user expected none =
      if is_empty i.signal
      then (if i.has_exit && is_neg i.exit_status
          then killed signal (codes "the command did not exit normally") err
          else compare_with lower user tc.expected_output_type err expected)
      else (let r = signal_reason F i tc in
          killed r (limit_status_message F r i tc (signal_fallback i r)) err)

  abbrev judge_output :
      (ℕ → ℕ) → TestCase → MonitorInfo F → Text → Graded (List ℕ) → Option (List ℕ) → Graded Outcome
  judge_output lower tc i err expected none =
      killed output [] (codes "the output of this test case could not be read")
  judge_output lower tc i err expected (some user) =
      judge_run lower tc i err user expected (exit_failure_message F i)

  unfoldable pub judge_case :
      (ℕ → ℕ)
      → Config
      → TestCase
      → MonitorInfo F
      → Text
      → Option (List ℕ)
      → Option Entry
      → Graded Outcome
  judge_case lower cfg tc i err user fetch =
      if valid F i
      then judge_output lower tc i err (expected_bytes cfg tc fetch) user
      else killed monitor (codes "the monitor did not produce a report") err

  abbrev pub report_text : Option (List ℕ) → Option Text
  report_text none = none
  report_text (some raw) = some (to_valid raw)

  -- The report of a case, as gradeCase reads it.
  abbrev pub case_info : (ℕ → ℕ) → CaseFiles → MonitorInfo F
  case_info lower fs =
      read_monitor F lower (report_text (read_regular_bounded fs.monitor_file max_monitor_bytes))

  abbrev pub case_result_of : TestCase → MonitorInfo F → Text → Outcome → CaseResult F
  case_result_of tc i user o = record {
    test_case_id = tc.id;
    cpu_time = if i.has_cpu then i.cpu else i.time;
    wall_time = if i.has_time then i.time else F.literal 0 0;
    mem_usage = if i.has_mem then i.mem else negsuc 0;
    status = o.status;
    reason = o.reason;
    status_msg = o.status_msg;
    user_output = user;
    error_message = o.error_message;
  }

  abbrev pub with_outcome : TestCase → MonitorInfo F → Text → Graded Outcome → Graded (CaseResult F)
  with_outcome tc i user failed = failed
  with_outcome tc i user (graded o) = graded (case_result_of tc i user o)

  unfoldable pub grade_case :
      (ℕ → ℕ) → Config → TestCase → CaseFiles → Option Entry → Graded (CaseResult F)
  grade_case lower cfg tc fs fetch =
      let i = case_info lower fs in
      with_outcome tc i (read_limited fs.output_file cfg.max_output_file_size) (
        judge_case lower cfg tc i (read_limited fs.error_file cfg.max_output_file_size)
          (read_regular_bounded fs.output_file cfg.max_compare_file_bytes) fetch)

  -- The results that were published while the container still ran, newest first.
  unfoldable pub lookup_result : List (CaseResult F) → ℕ → Option (CaseResult F)
  lookup_result [] id = none
  lookup_result (r ∷ rs) id = if r.test_case_id == id then some r else lookup_result rs id

  abbrev prepend :
      Graded (CaseResult F) → Graded (List (CaseResult F)) → Graded (List (CaseResult F))
  prepend failed rest = failed
  prepend (graded r) failed = failed
  prepend (graded r) (graded rs) = graded (r ∷ rs)

  -- The result of a case: the one that was published, which is final, or a grading now.
  abbrev case_result :
      (TestCase → Graded (CaseResult F)) → TestCase → Option (CaseResult F) → Graded (CaseResult F)
  case_result grade tc (some r) = graded r
  case_result grade tc none = grade tc

  -- gradeAll.
  unfoldable pub grade_all :
      (TestCase → Graded (CaseResult F))
      → List (CaseResult F)
      → List TestCase
      → Graded (List (CaseResult F))
  grade_all grade stream [] = graded []
  grade_all grade stream (tc ∷ tcs) =
      let rest = grade_all grade stream tcs in
      prepend (case_result grade tc (lookup_result stream tc.id)) rest

  unfoldable pub count_correct : List (CaseResult F) → ℕ
  count_correct [] = 0
  count_correct (r ∷ rs) = let n = count_correct rs in if is_correct r.status then suc n else n

  -- The correct cases, the score and the terminal status.
  unfoldable pub score_run : List TestCase → List (CaseResult F) → ℕ × F.Float × RunStatus
  unfolding count_correct
  score_run [] rs = (0, F.literal 0 0, uncompleted)
  score_run (tc ∷ tcs) rs =
      let n = count_correct rs in
      let total = length (tc ∷ tcs) in
      let score = F.div (F.mul (F.literal 100 0) (F.of_int (pos n))) (F.of_int (pos total)) in
      if n == total then (n, score, completed) else (n, score, uncompleted)
