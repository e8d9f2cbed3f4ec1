-- ===== src/Lib.antt =====
-- Verification of runcodes, a platform on which students submit programs to exercises. The backend
-- (backend/) accepts a submission, stores its source and a queued commit, and wakes the judge
-- (judge/), which runs the program on the test cases of the exercise in a container, grades each
-- case from the output and from a monitor's report, and publishes the results as events that the
-- backend consumes and passes on as an event stream.
--
-- Which file models which part:
--   Judge/Cmp       judge/internal/cmp/cmp.go: TextEqualBytes is text_equal_bytes, TextLenientBytes
--                   text_lenient_bytes (its loop lenient_loop), NumberEqual number_equal.
--   Judge/Model     judge/internal/model/model.go: the test case, its result, the statuses.
--   Judge/Report    judge/internal/engine/grading.go: monitorInfo, readMonitor and the functions that
--                   find the reason of a failure and its message.
--   Judge/Files     the same file: openRegular, readRegularBounded, readLimited.
--   Judge/Grading   the same file: gradeCase is grade_case (its switch judge_case), compareOutput
--                   compare_output, gradeAll grade_all, scoreRun score_run.
--   Judge/Run       runner.go and container.go beside it: Process is process (in Process),
--                   runContainer run_container (in Container) with its callback on_line, and
--                   awaitLine await_line (in Waits).
--   Judge/Queue     judge/internal/store/store.go: Claim is claim, markTerminal mark_terminal; and
--                   judge/internal/worker/pool.go: drain is a sequence of drain_round.
--   Judge/Events    judge/internal/events/hub.go: a topic with its replay buffer and subscribers;
--                   publish is publish_topic, Subscribe subscribe_topic, Cancel cancel_topic.
--   Judge/Language  judge/internal/language/language.go: buildIndex is build_index,
--                   normalizeExtension normalize_extension, DeduceFromArchive deduce_from_archive.
--   Judge/Publisher  judge/internal/engine/outputs.go: publishGeneratedFiles is
--                   publish_generated_files, queueCaseOutputs queue_case_outputs, a worker's round
--                   work, Submit submit, Close close_publisher.
--   Judge/Budget    the artifact budget of judge/internal/engine/outputs.go.
--   Backend/Limits  backend/services/limits-service.go and backend/models/limits-model.go.
--   Backend/Sse     backend/judge/sse.go: ParseSSE is parse_sse, FormatSSEFrame format_sse_frame.
--   Backend/Events  backend/judge/events.go: PersistEvent is persist_event, and the rows of a commit.
--   Backend/Hub     backend/judge/hub.go: run is run_hub, stream stream, handleEvent handle_event,
--                   failServerError fail_server_error.
--   Backend/Throttle  backend/services/mail-throttle.go, the cooldown of backend/alerts/alerts.go and
--                   the gate of backend/services/bulletin-service.go.
--   Backend/Submissions  backend/services/submissions-validation.go and CreateSubmission of
--                   submissions-service.go.
--   Backend/Access  the rights of backend/services/offerings-service.go and of
--                   backend/services/exercise-access-service.go.
--   Backend/Visibility  backend/services/output-visibility.go and RedactSnapshotOutput of
--                   submissions-history.go.
--   Backend/Validation  backend/validation/input-validation.go: ValidatePassword is
--                   validate_password.
-- Prelude holds the shared lists, tests, integers and the functions of Go's `strings` package.
--
-- How the program's values are modelled. A text is the list of its code points, and bytes are the
-- list of the bytes; the judge's comparisons decode UTF-8, as the code does, and a monitor's report
-- that is not valid UTF-8 is read with its invalid bytes replaced. A float64 is an element of the
-- record `Floats`, an argument of the definitions that use one. `lower` stands for unicode.ToLower
-- on one code point. A Go error is `none` or a constructor of a result type. A map is the list of its
-- entries. A mutex makes an operation one step, so an interleaving is a list of operations.
--
-- Bounds and fuel. The replay bounds of a topic, the largest report and the longest line of a stream
-- are the constants of the source. The loop of the lenient comparison takes the number of lines as
-- fuel, since each of its rounds uses up a line; a reading of UTF-8 takes the number of bytes.
-- A wait of the judge is over when its log is, and a hub makes the three attempts of the source.
-- Machine integers are unbounded here: the sums of the source stay far below 2 ^ 63.
--
-- Not modelled: the database and its queries, whose rows are arguments; the object storage, the
-- container engine, the clock and the mail relay, whose answers are arguments; what a file path
-- holds is one `Entry` for each look at it. The durations of the phases of a run and the removal of
-- its files; the registries of topics and of hubs with their timers; the sweeper of stale commits;
-- the time that a terminal frame waits for a slow subscriber (what the subscriber takes in that time
-- is an argument). The handlers, the services over the database and the preparation of a workspace.
pub mod Prelude
pub mod Judge
pub mod Backend
