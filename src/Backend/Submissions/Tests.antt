-- ===== src/Backend/Submissions/Tests.antt =====
-- Submissions at concrete inputs.
use runcodes.Prelude.{
  ℕ, ◌≡◌, refl, ◌↔◌, ◌+◌, ◌&&◌, Bool, true, false, Option, none, some, List, [], ◌∷◌, leb,
  if◌then◌else◌, codes, text_eq, get_elem?,
}
use runcodes.Backend.Submissions.{
  row, Standing, validate_exercise, AllowedFileType, resolve_file_type, sanitize_filename,
  best_file_type_match, check_submission_admission, validate_test_cases,
}
use runcodes.Backend.Submissions.Admission.{MaySubmit, validate_exercise_iff}
use runcodes.Backend.Submissions.FileTypes.{Best, best_file_type_match_lem}
use runcodes.Backend.Submissions.SafeNames.{SafeName, sanitize_filename-SafeName}
use runcodes.Backend.Submissions.Creation.{
  SubmissionInput, uploaded, committed, commit_failed, Answers, Store, accepted, create_submission,
  admit, register,
}
use runcodes.Backend.Submissions.Creation.Outcome.{
  AfterRejection, Admissible, stored_type, registered, is_rejected, create_submission-accepted,
  create_submission_rejected,
}

abbrev lower : ℕ → ℕ
lower c = if leb b'A' c && leb c b'Z' then c + 32 else c

abbrev student : Standing
student = record {
  expired = false;
  enrolled = true;
  is_owner = false;
  enroll_role = codes "student";
  open_date = 10;
  show_before = false;
}

validate_exercise_iff_example : (validate_exercise 12 (row student) ≡ none) ↔ MaySubmit 12 student
validate_exercise_iff_example = validate_exercise_iff 12 student

abbrev catalog : List AllowedFileType
catalog =
    record { id = 1; extension = codes "c" } ∷ record { id = 2; extension = codes "omp.c" } ∷ []

abbrev always : AllowedFileType → Bool
always a = true

best_file_type_match_lem_example :
    Best always (best_file_type_match always none catalog) catalog
    × ((r : AllowedFileType)
        → best_file_type_match always none catalog ≡ some r
        → (i : ℕ) × (get_elem? catalog i ≡ some r))
best_file_type_match_lem_example = best_file_type_match_lem always catalog

sanitize_filename-SafeName_example : SafeName (sanitize_filename (codes "../a b.c"))
sanitize_filename-SafeName_example = sanitize_filename-SafeName (codes "../a b.c")

abbrev input : SubmissionInput
input = record { user_id = 3; exercise_id = 8; ip = none; filename = codes "main.c" }

abbrev answers : Answers
answers = record {
  standing = row student;
  cases = row 2;
  file_types = row [];
  pending = row 1;
  queued = row 4;
  judge_ready = true;
  uuid = codes "u";
  upload = uploaded;
  begun = true;
  inserted = some 21;
  snapshot = none;
  commit = committed;
  removed = true;
}

abbrev empty_store : Store
empty_store = record { objects = []; commits = []; consumed = [] }

is_accepted : (create_submission input answers lower 12 100 empty_store).0 ≡ accepted 21
unfolding create_submission validate_exercise validate_test_cases resolve_file_type
    check_submission_admission codes text_eq admit register
is_accepted = refl

create_submission-accepted_example :
    Admissible 12 100 answers
    × ((file_type : Option ℕ) × (stored_type
            (resolve_file_type lower input.filename answers.file_types)
          ≡ some file_type)
        × ((create_submission input answers lower 12 100 empty_store).1
            ≡ registered input answers file_type 21 empty_store))
create_submission-accepted_example =
    create_submission-accepted input answers lower 12 100 21 empty_store is_accepted

-- The answer to the commit is lost: the row stays, and its source is removed.
abbrev uncommitted : Answers
uncommitted = record answers { commit = commit_failed true }

is_refused : is_rejected (create_submission input uncommitted lower 12 100 empty_store).0 ≡ true
unfolding create_submission validate_exercise validate_test_cases resolve_file_type
    check_submission_admission codes text_eq admit register
is_refused = refl

create_submission_rejected_example :
    AfterRejection input uncommitted empty_store
      (create_submission input uncommitted lower 12 100 empty_store).1
create_submission_rejected_example =
    create_submission_rejected input uncommitted lower 12 100 empty_store tt is_refused
