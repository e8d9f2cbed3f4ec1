-- ===== src/Backend/Submissions.antt =====
-- backend/services/submissions-validation.go and CreateSubmission of submissions-service.go: which
-- submissions are accepted, and what one leaves behind. A query's answer is an argument, as are the
-- answers of the judge, the object storage and the transaction. `lower` is unicode.ToLower.
pub mod Admission
pub mod FileTypes
pub mod SafeNames
pub mod Creation
mod Tests
use runcodes.Prelude.{
  ℕ, ◌+◌, Bool, true, false, not, ◌&&◌, ◌||◌, Option, none, some, List, [], ◌∷◌, ◌++◌, map,
  is_empty, length, ltb, leb, ◌==◌, if◌then◌else◌, Text, codes, text_eq, trim_space, trim_left,
  trim_right, has_suffix, byte_length,
}

-- What a query gives: an error, no row, or its row.
pub data Query {ℓ} (A : Type ℓ) : Type ℓ where
  failed : Query A
  no_rows : Query A
  row : A → Query A

pub data SubmissionError : Type 0 where
  server : SubmissionError
  exercise_not_found : SubmissionError
  not_enrolled : SubmissionError
  deadline_passed : SubmissionError
  no_test_cases : SubmissionError
  invalid_file_type : SubmissionError
  submission_limit : SubmissionError
  queue_full : SubmissionError
  judge_unavailable : SubmissionError

-- The row of validateExercise's query.
pub record Standing : Type 0 where
  pub expired : Bool
  pub enrolled : Bool
  pub is_owner : Bool
  pub enroll_role : Text
  pub open_date : ℕ
  pub show_before : Bool

abbrev pub is_staff : Standing → Bool
is_staff s = s.is_owner || text_eq s.enroll_role (codes "professor")

-- validateExercise at the time `now`; `none` is a nil error.
unfoldable pub validate_exercise : ℕ → Query Standing → Option SubmissionError
validate_exercise now failed = some server
validate_exercise now no_rows = some exercise_not_found
validate_exercise now (row s) =
    if not s.enrolled && not s.is_owner
    then some not_enrolled
    else if not (is_staff s) && not s.show_before && ltb now s.open_date
    then some exercise_not_found
    else if s.expired && not (is_staff s)
    then some deadline_passed
    else none

-- validateTestCases on the count of the cases.
unfoldable pub validate_test_cases : Query ℕ → Option SubmissionError
validate_test_cases failed = some server
validate_test_cases no_rows = some server
validate_test_cases (row count) = if count == 0 then some no_test_cases else none

abbrev pub max_pending_submissions_per_user : ℕ
max_pending_submissions_per_user = 2

abbrev check_queue : ℕ → Query ℕ → Option SubmissionError
check_queue max_queue_depth failed = some server
check_queue max_queue_depth no_rows = some server
check_queue max_queue_depth (row queued) =
    if leb max_queue_depth queued then some queue_full else none

-- checkSubmissionAdmission on the user's unfinished commits and the queued commits of all.
unfoldable pub check_submission_admission : ℕ → Query ℕ → Query ℕ → Option SubmissionError
check_submission_admission max_queue_depth failed queued = some server
check_submission_admission max_queue_depth no_rows queued = some server
check_submission_admission max_queue_depth (row pending) queued =
    if leb max_pending_submissions_per_user pending
    then some submission_limit
    else check_queue max_queue_depth queued

pub record AllowedFileType : Type 0 where
  pub id : ℕ
  pub extension : Text

unfoldable pub filename_matches_extension : (ℕ → ℕ) → Text → Text → Bool
filename_matches_extension lower filename extension =
    let name = map lower (trim_space filename) in
    let ext = map lower (trim_space extension) in
    not (is_empty ext) && (text_eq name ext || has_suffix name (b'.' ∷ ext))

-- Whether the candidate replaces the best match so far.
abbrev pub better : AllowedFileType → AllowedFileType → Bool
better candidate best =
    ltb (byte_length best.extension) (byte_length candidate.extension)
    || (byte_length candidate.extension == byte_length best.extension && ltb candidate.id best.id)

abbrev pub choose : Bool → AllowedFileType → Option AllowedFileType → Option AllowedFileType
choose matching candidate none = if matching then some candidate else none
choose matching candidate (some best) =
    if matching && better candidate best then some candidate else some best

-- The loop of bestFileTypeMatch over the rest of the candidates.
unfoldable pub best_file_type_match :
    (AllowedFileType → Bool)
    → Option AllowedFileType
    → List AllowedFileType
    → Option AllowedFileType
best_file_type_match matching best [] = best
best_file_type_match matching best (c ∷ cs) =
    best_file_type_match matching (choose (matching c) c best) cs

pub data FileType : Type 0 where
  any_type : FileType
  matched_type : ℕ → FileType
  type_error : SubmissionError → FileType

abbrev of_match : Option AllowedFileType → FileType
of_match none = type_error invalid_file_type
of_match (some c) = matched_type c.id

-- resolveFileType; `any_type` is a nil error with no match.
unfoldable pub resolve_file_type : (ℕ → ℕ) → Text → Query (List AllowedFileType) → FileType
unfolding filename_matches_extension best_file_type_match
resolve_file_type lower filename failed = type_error server
resolve_file_type lower filename no_rows = any_type
resolve_file_type lower filename (row []) = any_type
resolve_file_type lower filename (row (c ∷ cs)) = of_match (
    best_file_type_match (λ a. filename_matches_extension lower filename a.extension) none (c ∷ cs))

-- path.Base: the text after the last slash, once the slashes at the end are gone.
abbrev slash : ℕ → Bool
slash c = c == b'/'

unfoldable pub last_element : Text → Text
last_element [] = []
last_element (c ∷ s) =
    let rest = last_element s in if has_slash s then rest else if slash c then s else c ∷ s
  where
    has_slash : Text → Bool
    has_slash [] = false
    has_slash (d ∷ t) = slash d || has_slash t

abbrev base_of : Text → Text → Text
base_of [] whole = if is_empty whole then codes "." else codes "/"
base_of (c ∷ s) whole = last_element (c ∷ s)

unfoldable pub path_base : Text → Text
path_base s = base_of (trim_right slash s) s

abbrev pub is_safe : ℕ → Bool
is_safe c =
    (leb b'a' c && leb c b'z')
    || (leb b'A' c && leb c b'Z')
    || (leb b'0' c && leb c b'9')
    || c == b'.'
    || c == b'_'
    || c == b'-'

abbrev pub safe_char : ℕ → ℕ
safe_char c = if is_safe c then c else b'_'

abbrev pub dot : ℕ → Bool
dot c = c == b'.'

abbrev pub or_submission : Text → Text
or_submission [] = codes "submission"
or_submission (c ∷ s) = c ∷ s

abbrev no_base : Text → Bool
no_base s = is_empty s || text_eq s (codes ".") || text_eq s (codes "..") || text_eq s (codes "/")

unfoldable pub sanitize_filename : Text → Text
unfolding path_base
sanitize_filename filename =
    let base = path_base (map (λ c. if c == b'\\' then b'/' else c) (trim_space filename)) in
    let name = if no_base base then codes "submission" else base in
    or_submission (trim_right dot (trim_left dot (map safe_char name)))
