-- ===== src/Judge/Report.antt =====
-- judge/internal/engine/grading.go: the monitor's report, and the reasons that a failed run is
-- given. Text is held as code points; `lower` is unicode.ToLower on one of them.
pub mod Fields
mod Tests
use runcodes.Prelude.{
  ℕ, zero, suc, ◌+◌, ◌-◌, ◌*◌, ◌/◌, ◌%◌, Bool, true, false, not, ◌&&◌, ◌||◌, Option, none, some,
  List, [], ◌∷◌, ◌++◌, map, any, ltb, leb, ◌==◌, if◌then◌else◌, ℤ, pos, negsuc, is_neg, is_pos,
  Text, codes, text_eq, trim_space, split, cut, contains, parse_int, decimal, decimal_int, Floats,
}
use runcodes.Judge.Model.{
  TestCase, CaseReason, unset, timeout, cpu_limit, memory_limit, stack_limit, file_size_limit,
  signal, monitor, output, server,
}

pub record MonitorInfo (F : Floats) : Type 0 where
  pub signal : Text
  pub time : F.Float
  pub cpu : F.Float
  pub has_cpu : Bool
  pub mem : ℤ
  pub has_mem : Bool
  pub exit_status : ℤ
  pub has_exit : Bool
  pub has_signal : Bool
  pub has_time : Bool

-- A line of the report: `none` where it is skipped, else its key in lower case and its value.
unfoldable pub key_value : (ℕ → ℕ) → Text → Option (Text × Text)
key_value lower raw = entry (trim_space raw)
  where
    entry : Text → Option (Text × Text)
    entry [] = none
    entry (c ∷ l) = if c == b'[' || c == b'#' || c == b';' then none else elim (cut b'=' (c ∷ l)) [
      | none ↦ none
      | some (k, v) ↦ some (map lower (trim_space k), trim_space v)
    ]

abbrev mem_keys : List Text
mem_keys =
    codes "mem_peak_bytes" ∷ codes "mem" ∷ codes "memory" ∷ codes "mem_usage" ∷ codes "memused" ∷ []

module _ (F : Floats) where
  open F use {Float, parse, of_int, literal, mul, le}

  abbrev pub no_info : MonitorInfo F
  no_info = record {
    signal = [];
    time = literal 0 0;
    cpu = literal 0 0;
    has_cpu = false;
    mem = pos 0;
    has_mem = false;
    exit_status = pos 0;
    has_exit = false;
    has_signal = false;
    has_time = false;
  }

  -- A time is taken where it parses and is at least 0.
  abbrev pub duration : Text → Option Float
  duration v = elim (parse v) [ none ↦ none | some x ↦ if le (literal 0 0) x then some x else none ]

  abbrev with_time : MonitorInfo F → Option Float → MonitorInfo F
  with_time i none = i
  with_time i (some x) = record i { time = x; has_time = true }

  abbrev with_cpu : MonitorInfo F → Option Float → MonitorInfo F
  with_cpu i none = i
  with_cpu i (some x) = record i { cpu = x; has_cpu = true }

  abbrev with_exit : MonitorInfo F → Option ℤ → MonitorInfo F
  with_exit i none = i
  with_exit i (some n) = record i { exit_status = n; has_exit = true }

  abbrev with_mem : MonitorInfo F → Option ℤ → MonitorInfo F
  with_mem i none = i
  with_mem i (some n) = record i { mem = n; has_mem = true }

  -- The switch of readMonitor.
  pub assign : MonitorInfo F → Text → Text → MonitorInfo F
  assign i key value =
      if text_eq key (codes "signal")
      then record i { signal = value; has_signal = true }
      else if text_eq key (codes "exit_status")
      then with_exit i (parse_int value)
      else if text_eq key (codes "time")
      then with_time i (duration value)
      else if text_eq key (codes "cpu_time")
      then with_cpu i (duration value)
      else if any (text_eq key) mem_keys
      then with_mem i (parse_int value)
      else i

  abbrev assign_entry : MonitorInfo F → Option (Text × Text) → MonitorInfo F
  assign_entry i none = i
  assign_entry i (some (k, v)) = assign i k v

  pub read_lines : (ℕ → ℕ) → MonitorInfo F → List Text → MonitorInfo F
  read_lines lower i [] = i
  read_lines lower i (l ∷ ls) = read_lines lower (assign_entry i (key_value lower l)) ls

  -- `none`: the file could not be read.
  unfoldable pub read_monitor : (ℕ → ℕ) → Option Text → MonitorInfo F
  unfolding read_lines assign
  read_monitor lower none = no_info
  read_monitor lower (some raw) = read_lines lower no_info (split b'\n' raw)

  abbrev pub valid : MonitorInfo F → Bool
  valid i = i.has_signal && i.has_time

  abbrev failure : ℤ → Option Text
  failure (negsuc n) = none
  failure (pos n) =
      if n == 0
      then none
      else if n == 124
      then some (codes "timeout")
      else if ltb 128 n && ltb n 256
      then some (codes "killed by signal " ++ decimal (n - 128))
      else some (codes "exit status " ++ decimal n)

  -- `none`: the run did not fail by its exit status.
  unfoldable pub exit_failure_message : MonitorInfo F → Option Text
  exit_failure_message i = if i.has_exit then failure i.exit_status else none

  abbrev is_timeout_status : ℤ → Bool
  is_timeout_status (negsuc n) = false
  is_timeout_status (pos n) = n == 124 || n == 137

  unfoldable pub exit_reason : MonitorInfo F → CaseReason
  exit_reason i = if is_timeout_status i.exit_status then timeout else unset

  unfoldable pub exceeded_timeout : MonitorInfo F → TestCase → Bool
  exceeded_timeout i tc =
      is_pos tc.cpu_time_limit && le (mul (of_int tc.cpu_time_limit) (literal 9 1)) i.time

  -- A peak of at least three quarters of a memory limit that is set.
  unfoldable pub near_mem_limit : MonitorInfo F → TestCase → Bool
  near_mem_limit i tc =
      is_pos tc.mem_usage_limit
      && i.has_mem
      && le (mul (of_int tc.mem_usage_limit) (literal 75 2)) (of_int i.mem)

  unfoldable pub signal_reason : MonitorInfo F → TestCase → CaseReason
  unfolding exceeded_timeout near_mem_limit
  signal_reason i tc =
      if text_eq i.signal (codes "SIGXCPU")
      then cpu_limit
      else if text_eq i.signal (codes "SIGXFSZ")
      then file_size_limit
      else if text_eq i.signal (codes "SIGKILL")
      then (if exceeded_timeout i tc then timeout else signal)
      else if text_eq i.signal (codes "SIGSEGV") || text_eq i.signal (codes "SIGBUS")
      then (if is_pos tc.stack_limit
          then stack_limit
          else if near_mem_limit i tc
          then memory_limit
          else signal)
      else signal

  unfoldable pub usage_limit_reason : MonitorInfo F → TestCase → CaseReason
  unfolding near_mem_limit
  usage_limit_reason i tc = if near_mem_limit i tc then memory_limit else unset

  unfoldable pub compilation_failed : MonitorInfo F → Bool
  compilation_failed i = not (valid i) || not i.has_exit || nonzero i.exit_status
    where
      nonzero : ℤ → Bool
      nonzero (negsuc n) = true
      nonzero (pos n) = not (n == 0)

abbrev allocation_failure_markers : List Text
allocation_failure_markers =
    codes "MemoryError"
    ∷ codes "OutOfMemoryError"
    ∷ codes "std::bad_alloc"
    ∷ codes "bad_alloc"
    ∷ codes "out of memory"
    ∷ codes "Cannot allocate memory"
    ∷ codes "cannot allocate memory"
    ∷ codes "failed to map segment"
    ∷ codes "not enough memory"
    ∷ codes "ENOMEM"
    ∷ []

pub allocation_failure : Text → Bool
allocation_failure err = any (contains err) allocation_failure_markers

abbrev stack_overflow_markers : List Text
stack_overflow_markers =
    codes "stack overflow"
    ∷ codes "StackOverflowError"
    ∷ codes "stack smashing detected"
    ∷ codes "stack-level limit exceeded"
    ∷ []

pub stack_overflow_failure : Text → Bool
stack_overflow_failure err = any (contains err) stack_overflow_markers

abbrev file_size_failure_markers : List Text
file_size_failure_markers =
    codes "File too large"
    ∷ codes "Errno 27"
    ∷ codes "EFBIG"
    ∷ codes "file size limit exceeded"
    ∷ codes "FileSizeLimitExceeded"
    ∷ []

pub file_size_failure : Text → Bool
file_size_failure err = any (contains err) file_size_failure_markers

-- humanBytes. A negative count is never a multiple of a unit that it reaches.
unfoldable pub human_bytes : ℤ → Text
human_bytes (negsuc n) = decimal_int (negsuc n) ++ codes " bytes"
human_bytes (pos n) =
    if leb 1048576 n && n % 1048576 == 0
    then decimal (n / 1048576) ++ codes " MiB"
    else if leb 1024 n && n % 1024 == 0
    then decimal (n / 1024) ++ codes " KiB"
    else decimal n ++ codes " bytes"

module _ (F : Floats) where
  -- limitStatusMessage; a reason that names no limit keeps the message `fallback`.
  pub limit_status_message : CaseReason → MonitorInfo F → TestCase → Text → Text
  limit_status_message timeout i tc fallback =
      if is_pos tc.cpu_time_limit
      then codes "the time limit of " ++ decimal_int tc.cpu_time_limit ++ codes "s was exceeded"
      else codes "the time limit was exceeded"
  limit_status_message memory_limit i tc fallback =
      if is_pos tc.mem_usage_limit
      then (if near_mem_limit F i tc
          then codes "the memory limit of "
            ++ human_bytes tc.mem_usage_limit
            ++ codes " was reached (peak "
            ++ human_bytes i.mem
            ++ codes ")"
          else codes "the program could not allocate memory (the limit is "
            ++ human_bytes tc.mem_usage_limit
            ++ codes ")")
      else codes "the memory limit was reached"
  limit_status_message stack_limit i tc fallback = codes "the stack limit was exceeded"
  limit_status_message file_size_limit i tc fallback =
      if is_pos tc.file_size_limit
      then codes "the file size limit of "
        ++ human_bytes tc.file_size_limit
        ++ codes " was exceeded"
      else codes "the file size limit was exceeded"
  limit_status_message cpu_limit i tc fallback = codes "the CPU time limit was exceeded"
  limit_status_message unset i tc fallback = fallback
  limit_status_message signal i tc fallback = fallback
  limit_status_message monitor i tc fallback = fallback
  limit_status_message output i tc fallback = fallback
  limit_status_message server i tc fallback = fallback
