-- ===== src/Judge/Publisher.antt =====
-- judge/internal/engine/outputs.go: the generated files of a case, from the finished case to the event
-- that tells the client of them. A request is published in one step of its worker; `stored` is what the
-- object storage answers for a file.
pub mod Worked
pub mod Settled
mod Tests
use runcodes.Prelude.{
  ℕ, zero, suc, ◌+◌, Bool, true, false, not, ◌&&◌, ◌||◌, Option, none, some, List, [], ◌∷◌, ◌++◌,
  length, ltb, leb, ◌==◌, if◌then◌else◌, ℤ, pos, is_pos, Text, codes, cut_prefix, parse_int,
  decimal_int,
}
use runcodes.Judge.Budget.{ArtifactBudget, reserve_bytes, release_bytes, is_exhausted}

abbrev pub output_publish_queue : ℕ
output_publish_queue = 8

abbrev pub output_publish_workers : ℕ
output_publish_workers = 4

abbrev pub output_publish_failure_limit : ℕ
output_publish_failure_limit = 3

pub record GeneratedFile : Type 0 where
  pub path : Text
  pub size : ℕ
  pub stored : Bool

-- `files` is none where the directory cannot be read; a limit of 0 is none.
pub record PublishRequest : Type 0 where
  pub test_case_id : ℕ
  pub files : Option (List GeneratedFile)
  pub max_file_bytes : ℕ

pub record Tally : Type 0 where
  pub uploaded : ℕ
  pub failed_uploads : ℕ
  pub exceeded : Bool
  pub budget : ArtifactBudget

abbrev too_large : ℕ → GeneratedFile → Bool
too_large max f = ltb 0 max && ltb max f.size

-- One file whose reservation got `granted`.
abbrev upload_file : GeneratedFile → Tally → ArtifactBudget × Bool → Tally
upload_file f t (b, granted) =
    if not granted
    then record t { exceeded = true; budget = b }
    else if f.stored
    then record t { uploaded = suc t.uploaded; budget = b }
    else record t { failed_uploads = suc t.failed_uploads; budget = release_bytes f.size b }

-- The loop of publishGeneratedFiles.
unfoldable pub publish_files : (Text → Bool) → ℕ → List GeneratedFile → Tally → Tally
publish_files skip max [] t = t
publish_files skip max (f ∷ fs) t =
    let asked = upload_file f t (reserve_bytes f.size t.budget) in
    publish_files skip max fs (if skip f.path || too_large max f then t else asked)

unfoldable pub publish_generated_files :
    (Text → Bool) → PublishRequest → ArtifactBudget → Option Tally
unfolding publish_files
publish_generated_files skip req b = elim req.files [
  | none ↦ none
  | some files ↦ some (
      publish_files skip req.max_file_bytes files
        (record { uploaded = 0; failed_uploads = 0; exceeded = false; budget = b }))
]

pub data Reason : Type 0 where
  storage_unavailable upload_failed budget_exceeded file_too_large : Reason

-- The state of a case's files, as an event tells it to the client.
pub data ArtifactState : Type 0 where
  pending ready : ArtifactState
  failed : Reason → ArtifactState

pub record Announcement : Type 0 where
  pub case_id : ℕ
  pub state : ArtifactState

-- `tasks` is the queue, oldest first, `working` what the workers have taken, and `told` the events,
-- newest first.
pub record OutputPublisher : Type 0 where
  pub tasks : List PublishRequest
  pub working : List PublishRequest
  pub files : ℕ
  pub failures : ℕ
  pub degraded : Bool
  pub closed : Bool
  pub budget : ArtifactBudget
  pub told : List Announcement

abbrev pub new_output_publisher : ArtifactBudget → OutputPublisher
new_output_publisher b = record {
  tasks = [];
  working = [];
  files = 0;
  failures = 0;
  degraded = false;
  closed = false;
  budget = b;
  told = [];
}

abbrev pub announce : ℕ → ArtifactState → OutputPublisher → OutputPublisher
announce id s p = record p { told = record { case_id = id; state = s } ∷ p.told }

unfoldable pub record_failure : ℕ → OutputPublisher → OutputPublisher
record_failure count p = record p {
  failures = p.failures + count;
  degraded = p.degraded || leb output_publish_failure_limit (p.failures + count);
}

-- The counters of a worker behind a request, and what it tells.
abbrev outcome : Tally → OutputPublisher → OutputPublisher × ArtifactState
outcome t p =
    if t.exceeded && t.uploaded == 0
    then (p, failed budget_exceeded)
    else if ltb 0 t.failed_uploads
    then (record_failure t.failed_uploads p, failed upload_failed)
    else if t.uploaded == 0
    then (record p { failures = 0 }, failed file_too_large)
    else (record p { failures = 0; files = p.files + t.uploaded }, ready)

abbrev publish_outcome : Option Tally → OutputPublisher → OutputPublisher × ArtifactState
publish_outcome none p = (record_failure 1 p, failed upload_failed)
publish_outcome (some t) p = outcome t (record p { budget = t.budget })

-- The body of a worker's loop.
unfoldable pub work : PublishRequest → OutputPublisher → OutputPublisher
unfolding publish_generated_files record_failure
work req p =
    let (p', s) = publish_outcome (publish_generated_files (λ path. false) req p.budget) p in
    announce req.test_case_id s p'

unfoldable pub submit : PublishRequest → OutputPublisher → OutputPublisher × Bool
submit req p =
    if p.closed || p.degraded
    then (p, false)
    else if ltb (length p.tasks) output_publish_queue
    then (record p { tasks = p.tasks ++ req ∷ [] }, true)
    else (p, false)

-- What a finished case left: no directory, one that cannot be read, an empty one, or one with entries,
-- under which collectGeneratedFiles finds the regular files, perhaps none, or gives an error.
pub data Collected : Type 0 where
  no_collection unreadable empty_dir : Collected
  entries : Option (List GeneratedFile) → Collected

-- A finished case: whether its output is shown and whether it was interrupted.
pub record FinishedCase : Type 0 where
  pub id : ℕ
  pub number : ℤ
  pub show_user_output : Bool
  pub interrupted : Bool
  pub file_size_limit : ℕ
  pub left : Collected

-- caseFileLimit; the first argument is the platform's bound on one file.
abbrev case_file_limit : ℕ → FinishedCase → ℕ
case_file_limit max c = if ltb 0 c.file_size_limit then c.file_size_limit else max

unfoldable pub case_publish_request : ℕ → FinishedCase → Option PublishRequest
case_publish_request max c = elim c.left [
  | no_collection ↦ none
  | unreadable ↦ none
  | empty_dir ↦ none
  | entries found ↦
      (if c.interrupted
        then none
        else some
            (record { test_case_id = c.id; files = found; max_file_bytes = case_file_limit max c }))
]

abbrev submitted : ℕ → OutputPublisher × Bool → OutputPublisher
submitted id (p, true) = p
submitted id (p, false) = announce id (failed storage_unavailable) p

abbrev queue_request : PublishRequest → OutputPublisher → OutputPublisher
queue_request req p =
    if is_exhausted p.budget
    then announce req.test_case_id (failed budget_exceeded) p
    else submitted req.test_case_id (submit req (announce req.test_case_id pending p))

unfoldable pub queue_case_outputs : ℕ → FinishedCase → OutputPublisher → OutputPublisher
unfolding case_publish_request submit
queue_case_outputs max c p =
    if not c.show_user_output
    then p
    else elim (case_publish_request max c) [ none ↦ p | some req ↦ queue_request req p ]

-- Close: the workers finish what they have taken, and then what is queued.
unfoldable pub work_all : List PublishRequest → OutputPublisher → OutputPublisher
unfolding work
work_all [] p = p
work_all (r ∷ rs) p = work_all rs (work r p)

unfoldable pub close_publisher : OutputPublisher → OutputPublisher
unfolding work_all
close_publisher p =
    if p.closed
    then p
    else record (work_all (p.working ++ p.tasks) p) { tasks = []; working = []; closed = true }

-- A case finishes, a worker takes the oldest request, or the worker that took the last one, or one
-- before, is done with it.
pub data Step : Type 0 where
  case_finishes : ℕ → FinishedCase → Step
  takes : Step
  completes : ℕ → Step

abbrev take_request : List PublishRequest → OutputPublisher → OutputPublisher
take_request [] p = p
take_request (r ∷ rs) p = record p { tasks = rs; working = r ∷ p.working }

-- The request at a place, and the others.
unfoldable pub pick : ℕ → List PublishRequest → Option (PublishRequest × List PublishRequest)
pick i [] = none
pick zero (r ∷ rs) = some (r, rs)
pick (suc i) (r ∷ rs) = elim (pick i rs) [ none ↦ none | some (q, qs) ↦ some (q, r ∷ qs) ]

unfoldable pub step_publisher : Step → OutputPublisher → OutputPublisher
unfolding queue_case_outputs work pick
step_publisher (case_finishes max c) p = queue_case_outputs max c p
step_publisher takes p =
    if ltb (length p.working) output_publish_workers then take_request p.tasks p else p
step_publisher (completes i) p = elim (pick i p.working) [
  | none ↦ p
  | some (r, rs) ↦ work r (record p { working = rs })
]

unfoldable pub run_publisher : List Step → OutputPublisher → OutputPublisher
unfolding step_publisher
run_publisher [] p = p
run_publisher (s ∷ ss) p = run_publisher ss (step_publisher s p)
