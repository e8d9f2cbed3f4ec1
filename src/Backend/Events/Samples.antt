-- ===== src/Backend/Events/Samples.antt =====
-- Events and rows for the tests.
use runcodes.Prelude.{ℕ, false, none, [], pos, Text, codes}
use runcodes.Backend.Events.{EventType, Event, CommitRow, Rows}

abbrev pub event_of : EventType → ℕ → Text → Event
event_of type seq status = record {
  type = type;
  seq = seq;
  raw = codes "{}";
  status = status;
  compiled = none;
  message = [];
  error = [];
  test_case_id = 4;
  cpu_time = [];
  wall_time = [];
  mem_usage = none;
  reason = [];
  status_message = [];
  user_output = [];
  user_output_type = [];
  error_message = [];
  phases = [];
  artifact_state = [];
  limit_bytes = none;
  code = [];
  severity = [];
  num_correct_cases = none;
  score = [];
  compilation_message = [];
  compilation_error = [];
}

abbrev pub open_commit : Text → CommitRow
open_commit status = record {
  status = status;
  compiled = false;
  compilation_message = none;
  compilation_error = none;
  compilation_finished = false;
  num_correct_cases = pos 0;
  score = [];
}

abbrev pub rows_of : Text → Rows
rows_of status = record {
  graded = record { commit = open_commit status; results = []; artifacts = [] };
  phases = [];
  alerts = [];
}
