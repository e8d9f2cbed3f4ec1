-- ===== src/Backend/Submissions/Creation.antt =====
-- CreateSubmission: the checks in their order, then the upload, the row and the wake. What the
-- services outside answer is the record `Answers`; an upload that reports an error may have stored
-- the object, and a commit that reports an error may have been done.
pub mod Outcome
use runcodes.Prelude.{
  ℕ, Bool, true, false, not, Option, none, some, List, [], ◌∷◌, ◌++◌, keep, if◌then◌else◌, Text,
  codes, text_eq,
}
use runcodes.Backend.Submissions.{
  Query, SubmissionError, server, judge_unavailable, Standing, validate_exercise,
  validate_test_cases, check_submission_admission, AllowedFileType, FileType, any_type,
  matched_type, type_error, resolve_file_type, sanitize_filename,
}

-- The file, its size and its content type are passed on to the upload only.
pub record SubmissionInput : Type 0 where
  pub user_id : ℕ
  pub exercise_id : ℕ
  pub ip : Option Text
  pub filename : Text

-- Reported as done, or as failed, with the object stored or not.
pub data UploadAnswer : Type 0 where
  uploaded : UploadAnswer
  upload_failed : Bool → UploadAnswer

-- Reported as done, or as failed, with the row kept or not.
pub data CommitAnswer : Type 0 where
  committed : CommitAnswer
  commit_failed : Bool → CommitAnswer

pub record Answers : Type 0 where
  pub standing : Query Standing
  pub cases : Query ℕ
  pub file_types : Query (List AllowedFileType)
  pub pending : Query ℕ
  pub queued : Query ℕ
  pub judge_ready : Bool
  pub uuid : Text
  pub upload : UploadAnswer
  pub begun : Bool
  pub inserted : Option ℕ
  pub snapshot : Option SubmissionError
  pub commit : CommitAnswer
  pub removed : Bool

pub record Commit : Type 0 where
  pub id : ℕ
  pub user_id : ℕ
  pub exercise_id : ℕ
  pub status : Text
  pub ip : Option Text
  pub s3_key : Text
  pub allowed_file_type_id : Option ℕ

-- The sources in the object storage, the rows, and the commits whose stream is consumed.
pub record Store : Type 0 where
  pub objects : List Text
  pub commits : List Commit
  pub consumed : List ℕ

pub data Created : Type 0 where
  rejected : SubmissionError → Created
  accepted : ℕ → Created

-- buildCommitKey on the text of a new UUID.
unfoldable pub build_commit_key : Text → Text → Text
build_commit_key uuid filename = uuid ++ (b'/' ∷ sanitize_filename filename)

-- deleteSourceBestEffort; `ok` says whether the object storage removed the object.
unfoldable pub delete_source : Bool → Text → Store → Store
delete_source true key st = record st { objects = keep (λ o. not (text_eq o key)) st.objects }
delete_source false key st = st

abbrev unless : Option SubmissionError → Store → Created × Store → Created × Store
unless (some e) st rest = (rejected e, st)
unless none st rest = rest

abbrev if_inserted : Option ℕ → Created × Store → (ℕ → Created × Store) → Created × Store
if_inserted none st go = st
if_inserted (some id) st go = go id

abbrev if_uploaded : UploadAnswer → Text → Store → Created × Store → Created × Store
if_uploaded uploaded key st go = go
if_uploaded (upload_failed true) key st go =
    (rejected server, record st { objects = key ∷ st.objects })
if_uploaded (upload_failed false) key st go = (rejected server, st)

-- `undone` is the store behind the removal of the source.
abbrev if_committed : CommitAnswer → Commit → Store → Created × Store → Created × Store
if_committed committed c undone go = go
if_committed (commit_failed true) c undone go =
    (rejected server, record undone { commits = c ∷ undone.commits })
if_committed (commit_failed false) c undone go = (rejected server, undone)

module _ (input : SubmissionInput) (a : Answers) where
  abbrev pub new_commit : Text → Option ℕ → ℕ → Commit
  new_commit key file_type id = record {
    id = id;
    user_id = input.user_id;
    exercise_id = input.exercise_id;
    status = codes "queued";
    ip = input.ip;
    s3_key = key;
    allowed_file_type_id = file_type;
  }

  -- From the transaction on, once the source is uploaded. The wake changes nothing here.
  unfoldable pub register : Text → Option ℕ → Store → Created × Store
  register key file_type st =
      let undone = delete_source a.removed key st in
      if not a.begun
      then (rejected server, undone)
      else if_inserted a.inserted (rejected server, undone)
          (λ id. unless a.snapshot undone (
            if_committed a.commit (new_commit key file_type id) undone (
              accepted id,
              record st {
                commits = new_commit key file_type id ∷ st.commits;
                consumed = id ∷ st.consumed;
              },
            )))

  -- From the admission check on.
  unfoldable pub admit : ℕ → Option ℕ → Store → Created × Store
  unfolding register
  admit max_queue_depth file_type st =
      let key = build_commit_key a.uuid input.filename in
      let registered = register key file_type (record st { objects = key ∷ st.objects }) in
      unless (check_submission_admission max_queue_depth a.pending a.queued) st (
        if not a.judge_ready
        then (rejected judge_unavailable, st)
        else if_uploaded a.upload key st registered)

  abbrev with_type : ℕ → FileType → Store → Created × Store
  with_type max_queue_depth (type_error e) st = (rejected e, st)
  with_type max_queue_depth any_type st = admit max_queue_depth none st
  with_type max_queue_depth (matched_type i) st = admit max_queue_depth (some i) st

  unfoldable pub create_submission : (ℕ → ℕ) → ℕ → ℕ → Store → Created × Store
  unfolding admit
  create_submission lower now max_queue_depth st = unless (validate_exercise now a.standing) st (
      unless (validate_test_cases a.cases) st
        (with_type max_queue_depth (resolve_file_type lower input.filename a.file_types) st))
