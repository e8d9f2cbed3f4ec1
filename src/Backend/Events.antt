-- ===== src/Backend/Events.antt =====
-- backend/judge/events.go: how an event of the judge is written to the rows of its commit. One
-- statement or transaction of the database is one step with an `Answer`. A time that a statement sets
-- to now() is kept as whether it is set.
pub mod Terminal
pub mod Replay
pub mod Samples
mod Tests
use runcodes.Prelude.{
  ℕ, Bool, true, false, not, ◌&&◌, ◌||◌, Option, none, some, List, [], ◌∷◌, any, ltb, ◌==◌,
  if◌then◌else◌, ℤ, pos, is_neg, Text, codes, text_eq, is_empty, trim_space,
}

pub data EventType : Type 0 where
  status compilation case_result timings artifact finished error alert unknown : EventType

pub record EventPhase : Type 0 where
  pub phase : Text
  pub duration_ms : ℤ
  pub cpu_ms : Option ℤ
  pub mem_peak_bytes : Option ℤ
  pub source : Text
  pub detail : Text

-- The payload of every type; `raw` is its JSON text. An id of 0 is none.
pub record Event : Type 0 where
  pub type : EventType
  pub seq : ℕ
  pub raw : Text
  pub status : Text
  pub compiled : Option Bool
  pub message : Text
  pub error : Text
  pub test_case_id : ℕ
  pub cpu_time : Text
  pub wall_time : Text
  pub mem_usage : Option ℤ
  pub reason : Text
  pub status_message : Text
  pub user_output : Text
  pub user_output_type : Text
  pub error_message : Text
  pub phases : List EventPhase
  pub artifact_state : Text
  pub limit_bytes : Option ℤ
  pub code : Text
  pub severity : Text
  pub num_correct_cases : Option ℤ
  pub score : Text
  pub compilation_message : Text
  pub compilation_error : Text

pub record CommitRow : Type 0 where
  pub status : Text
  pub compiled : Bool
  pub compilation_message : Option Text
  pub compilation_error : Option Text
  pub compilation_finished : Bool
  pub num_correct_cases : ℤ
  pub score : Text

pub record CaseRow : Type 0 where
  pub test_case_id : ℕ
  pub cpu_time : Text
  pub wall_time : Option Text
  pub mem_usage : ℤ
  pub user_output : Text
  pub user_output_type : Text
  pub status : Text
  pub reason : Option Text
  pub status_message : Text
  pub error_message : Text

pub record ArtifactRow : Type 0 where
  pub test_case_id : ℕ
  pub state : Text
  pub reason : Option Text
  pub limit_bytes : Option ℤ

pub record PhaseRow : Type 0 where
  pub phase : Text
  pub duration_ms : ℤ
  pub cpu_ms : Option ℤ
  pub mem_peak_bytes : Option ℤ
  pub source : Text
  pub detail : Option Text

pub record AlertRow : Type 0 where
  pub code : Text
  pub severity : Text
  pub message : Text

-- The rows of one commit: the graded submission, and what is supplemental to it.
pub record Graded : Type 0 where
  pub commit : CommitRow
  pub results : List CaseRow
  pub artifacts : List ArtifactRow

pub record Rows : Type 0 where
  pub graded : Graded
  pub phases : List PhaseRow
  pub alerts : List AlertRow

abbrev terminal_statuses : List Text
terminal_statuses =
    codes "completed"
    ∷ codes "uncompleted"
    ∷ codes "compilation_error"
    ∷ codes "server_error"
    ∷ codes "timeout"
    ∷ codes "plagiarism"
    ∷ []

unfoldable pub is_terminal_status : Text → Bool
is_terminal_status s = any (text_eq s) terminal_statuses

-- An UPDATE under the guard on the status.
abbrev pub guarded : (CommitRow → CommitRow) → CommitRow → CommitRow
guarded f r = if is_terminal_status r.status then r else f r

-- NULLIF(s, '')
abbrev null_if_empty : Text → Option Text
null_if_empty [] = none
null_if_empty (c ∷ s) = some (c ∷ s)

-- COALESCE(NULLIF(s, ''), old)
abbrev pub non_empty_or : Text → Option Text → Option Text
non_empty_or [] old = old
non_empty_or (c ∷ s) old = some (c ∷ s)

abbrev or_text : Text → Text → Text
or_text [] default = default
or_text (c ∷ s) default = c ∷ s

abbrev or_false : Option Bool → Bool
or_false none = false
or_false (some b) = b

abbrev or_zero : Option ℤ → ℤ
or_zero none = pos 0
or_zero (some n) = n

-- persistStatus, persistCompilation, persistFinished and MarkCommitServerError, as updates.
abbrev pub put_status : Event → CommitRow → CommitRow
put_status ev r = record r { status = ev.status }

abbrev pub put_compilation : Event → CommitRow → CommitRow
put_compilation ev r = record r {
  compiled = or_false ev.compiled;
  compilation_message = some ev.message;
  compilation_error = some ev.error;
  compilation_finished = true;
}

abbrev pub put_finished : Event → CommitRow → CommitRow
put_finished ev r = record r {
  status = ev.status;
  num_correct_cases = or_zero ev.num_correct_cases;
  score = or_text ev.score (codes "0");
  compilation_message = non_empty_or ev.compilation_message r.compilation_message;
  compilation_error = non_empty_or ev.compilation_error r.compilation_error;
  compilation_finished = true;
}

unfoldable pub set_status : Event → CommitRow → CommitRow
set_status ev = guarded (put_status ev)

unfoldable pub set_compilation : Event → CommitRow → CommitRow
set_compilation ev = guarded (put_compilation ev)

unfoldable pub set_finished : Event → CommitRow → CommitRow
set_finished ev = guarded (put_finished ev)

unfoldable pub mark_server_error : CommitRow → CommitRow
mark_server_error =
    guarded (λ r. record r { status = codes "server_error"; compilation_finished = true })

-- INSERT ... ON CONFLICT DO UPDATE, by the key of a row.
unfoldable pub upsert {ℓ} : {R : Type ℓ} → (R → R → Bool) → R → List R → List R
upsert same r [] = r ∷ []
upsert same r (x ∷ xs) = if same x r then r ∷ xs else x ∷ upsert same r xs

abbrev pub same_case : CaseRow → CaseRow → Bool
same_case a b = a.test_case_id == b.test_case_id

abbrev pub same_artifact : ArtifactRow → ArtifactRow → Bool
same_artifact a b = a.test_case_id == b.test_case_id

abbrev pub same_phase : PhaseRow → PhaseRow → Bool
same_phase a b = text_eq a.phase b.phase

abbrev pub case_row : Event → CaseRow
case_row ev = record {
  test_case_id = ev.test_case_id;
  cpu_time = or_text ev.cpu_time (codes "0");
  wall_time = null_if_empty ev.wall_time;
  mem_usage = or_zero ev.mem_usage;
  user_output = ev.user_output;
  user_output_type = or_text ev.user_output_type (codes "text");
  status = ev.status;
  reason = null_if_empty ev.reason;
  status_message = ev.status_message;
  error_message = ev.error_message;
}

-- persistCaseResult's statement: nothing is inserted for a settled commit.
unfoldable pub set_case_result : Event → Graded → Graded
unfolding upsert
set_case_result ev g =
    if is_terminal_status g.commit.status
    then g
    else record g { results = upsert same_case (case_row ev) g.results }

abbrev pub artifact_row : Event → ArtifactRow
artifact_row ev = record {
  test_case_id = ev.test_case_id;
  state = ev.artifact_state;
  reason = null_if_empty ev.reason;
  limit_bytes = ev.limit_bytes;
}

unfoldable pub set_artifact : Event → Graded → Graded
unfolding upsert
set_artifact ev g = record g { artifacts = upsert same_artifact (artifact_row ev) g.artifacts }

abbrev phase_row : EventPhase → PhaseRow
phase_row p = record {
  phase = p.phase;
  duration_ms = p.duration_ms;
  cpu_ms = p.cpu_ms;
  mem_peak_bytes = p.mem_peak_bytes;
  source = or_text p.source (codes "judge");
  detail = null_if_empty p.detail;
}

unfoldable pub set_phases : List EventPhase → List PhaseRow → List PhaseRow
unfolding upsert
set_phases [] rows = rows
set_phases (p ∷ ps) rows = set_phases ps (upsert same_phase (phase_row p) rows)

-- alertInput, and the insert of alerts.go, which trims both texts and keeps one alert for each code of a commit.
unfoldable pub insert_alert : Event → List AlertRow → List AlertRow
insert_alert ev rows =
    let new : AlertRow = record {
      code = trim_space ev.code;
      severity = or_text ev.severity (codes "warning");
      message = trim_space ev.message;
    } in
    if any (λ a. text_eq a.code (trim_space ev.code)) rows then rows else new ∷ rows

-- What persistEvent does before it asks the database.
pub data Write : Type 0 where
  skipped : Write
  malformed : Write
  writes : Write

abbrev artifact_states : List Text
artifact_states = codes "pending" ∷ codes "ready" ∷ codes "failed" ∷ []

abbrev bad_phase : EventPhase → Bool
bad_phase p = is_empty p.phase || is_neg p.duration_ms

abbrev write_phases : List EventPhase → Write
write_phases [] = skipped
write_phases (p ∷ ps) = if any bad_phase (p ∷ ps) then malformed else writes

abbrev pub write_by : EventType → Event → Write
write_by status ev =
    if is_terminal_status ev.status
    then skipped
    else if is_empty ev.status
    then malformed
    else writes
write_by compilation ev = writes
write_by case_result ev = if ev.test_case_id == 0 || is_empty ev.status then malformed else writes
write_by timings ev = write_phases ev.phases
write_by artifact ev =
    if ev.test_case_id == 0
    then skipped
    else if any (text_eq ev.artifact_state) artifact_states
    then writes
    else skipped
write_by finished ev = if is_empty ev.status then malformed else writes
write_by error ev = skipped
write_by alert ev =
    if is_empty (trim_space ev.code) || is_empty (trim_space ev.message) then malformed else writes
write_by unknown ev = skipped

unfoldable pub write_of : Event → Write
write_of ev = write_by ev.type ev

-- The rows after the statement of an event.
abbrev pub grade_by : EventType → Event → Graded → Graded
grade_by status ev g = record g { commit = set_status ev g.commit }
grade_by compilation ev g = record g { commit = set_compilation ev g.commit }
grade_by case_result ev g = set_case_result ev g
grade_by artifact ev g = set_artifact ev g
grade_by finished ev g = record g { commit = set_finished ev g.commit }
grade_by _ ev g = g

unfoldable pub store_graded : Event → Graded → Graded
unfolding set_status set_compilation set_case_result set_artifact set_finished
store_graded ev g = grade_by ev.type ev g

abbrev phases_by : EventType → Event → List PhaseRow → List PhaseRow
phases_by timings ev rows = set_phases ev.phases rows
phases_by _ ev rows = rows

abbrev alerts_by : EventType → Event → List AlertRow → List AlertRow
alerts_by alert ev rows = insert_alert ev rows
alerts_by _ ev rows = rows

unfoldable pub store_event : Event → Rows → Rows
unfolding store_graded set_phases insert_alert
store_event ev db = record {
  graded = store_graded ev db.graded;
  phases = phases_by ev.type ev db.phases;
  alerts = alerts_by ev.type ev db.alerts;
}

-- The database did it, did not, or did it and the caller got an error all the same.
pub data Answer : Type 0 where
  stored lost unsure : Answer

-- The rows, and whether the error is nil.
abbrev pub asked : Answer → Event → Rows → Rows × Bool
asked stored ev db = (store_event ev db, true)
asked lost ev db = (db, false)
asked unsure ev db = (store_event ev db, false)

abbrev pub persisted : Write → Answer → Event → Rows → Rows × Bool
persisted skipped a ev db = (db, true)
persisted malformed a ev db = (db, false)
persisted writes a ev db = asked a ev db

unfoldable pub persist_event : Answer → Event → Rows → Rows × Bool
unfolding store_event write_of
persist_event a ev db = persisted (write_of ev) a ev db
