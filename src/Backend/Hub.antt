-- ===== src/Backend/Hub.antt =====
-- backend/judge/hub.go: the one reader of a commit's judge stream, which writes every event before it
-- hands it to the clients, and connects again where it left off. A connection gives those events of
-- the log behind the hub's cursor that the judge still holds and does not drop, up to where it breaks:
-- the judge's replay buffer is bounded, and a subscriber whose channel is full loses the frame.
pub mod Cursor
pub mod Outcome
pub mod Settled
mod Tests
use runcodes.Prelude.{
  ℕ, zero, suc, ◌+◌, Bool, true, false, not, ◌&&◌, ◌||◌, Option, none, some, List, [], ◌∷◌, ◌++◌,
  map, keep, take, length, ltb, ◌==◌, if◌then◌else◌, Text, codes,
}
use runcodes.Backend.Sse.{format_sse_frame}
use runcodes.Backend.Events.{
  EventType, status, compilation, case_result, timings, artifact, finished, error, alert, unknown,
  Event, Rows, Answer, stored, lost, unsure, persist_event, mark_server_error,
}

abbrev pub subscriber_buffer : ℕ
subscriber_buffer = 64

abbrev pub max_stream_attempts : ℕ
max_stream_attempts = 3

abbrev pub terminal_persist_attempts : ℕ
terminal_persist_attempts = 3

-- A client's channel: the frames in its buffer.
pub record Client : Type 0 where
  pub id : ℕ
  pub buffered : List Text

-- `left` holds the channels that finish closed.
pub record Hub : Type 0 where
  pub subs : List Client
  pub left : List Client
  pub closed : Bool
  pub terminal : Bool
  pub last_seq : ℕ
  pub db : Rows

abbrev pub type_name : EventType → Text
type_name status = codes "status"
type_name compilation = codes "compilation"
type_name case_result = codes "case_result"
type_name timings = codes "timings"
type_name artifact = codes "artifact"
type_name finished = codes "finished"
type_name error = codes "error"
type_name alert = codes "alert"
type_name unknown = []

abbrev pub is_supplemental : EventType → Bool
is_supplemental timings = true
is_supplemental alert = true
is_supplemental _ = false

abbrev pub is_terminal_event : EventType → Bool
is_terminal_event finished = true
is_terminal_event _ = false

-- A full channel loses the frame.
abbrev offer : Text → Client → Client
offer f c =
    if ltb (length c.buffered) subscriber_buffer
    then record c { buffered = c.buffered ++ f ∷ [] }
    else c

unfoldable pub broadcast : Text → Hub → Hub
broadcast f h = record h { subs = map (offer f) h.subs }

-- Subscribe, where the hub is the one in the registry; `none` is ErrStreamClosed.
unfoldable pub subscribe : ℕ → Hub → Option Hub
subscribe id h =
    if h.closed then none else some (record h { subs = record { id = id; buffered = [] } ∷ h.subs })

-- Subscription.Close
unfoldable pub unsubscribe : ℕ → Hub → Hub
unsubscribe id h = record h { subs = keep (λ c. not (c.id == id)) h.subs }

unfoldable pub finish : Hub → Hub
finish h = if h.closed then h else record h { closed = true; left = h.subs ++ h.left; subs = [] }

-- The database's answers to the attempts at one event.
abbrev pub Answers : Type 0
Answers = ℕ → Answer

-- persistTerminalEvent, with so many attempts left.
unfoldable pub persist_terminal : ℕ → ℕ → Answers → Event → Rows → Rows × Bool
persist_terminal zero attempt answers ev db = (db, false)
persist_terminal (suc n) attempt answers ev db =
    let (db', ok) = persist_event (answers attempt) ev db in
    let again = persist_terminal n (suc attempt) answers ev db' in if ok then (db', true) else again

abbrev frame_of : Event → Text
frame_of ev = format_sse_frame (type_name ev.type) ev.seq ev.raw

-- handleEvent: the hub, and whether the error is nil.
unfoldable pub handle_event : Answers → Event → Hub → Hub × Bool
unfolding broadcast persist_terminal
handle_event answers ev h =
    if is_terminal_event ev.type
    then (let (db, ok) = persist_terminal terminal_persist_attempts 1 answers ev h.db in
        let told = finish (broadcast (frame_of ev) (record h { db = db; terminal = true })) in
        if ok then (told, true) else (record h { db = db }, false))
    else (let (db, ok) = persist_event (answers 1) ev h.db in
        let told = broadcast (frame_of ev) (record h { db = db }) in
        if ok || is_supplemental ev.type then (told, true) else (record h { db = db }, false))

-- How a connection ends: at the end of the stream, or with an error.
pub data Ending : Type 0 where
  clean_end broken : Ending

-- The frames of one connection. After the terminal event the hub has closed the connection.
unfoldable pub read_frames : (ℕ → Answers) → Ending → List Event → Hub → Hub × Ending
unfolding handle_event
read_frames answers ending [] h = (h, ending)
read_frames answers ending (ev ∷ evs) h =
    let (h', ok) = handle_event (answers ev.seq) ev h in
    let advanced : Hub = if ltb h.last_seq ev.seq then record h' { last_seq = ev.seq } else h' in
    let rest = read_frames answers ending evs advanced in
    if not ok then (h', broken) else if advanced.terminal then (advanced, ending) else rest

-- What happens to one attempt: whether the stream opens, which events it serves (held in the replay
-- buffer and not dropped), how many frames come before it ends and how, the database's answers, and
-- whether the context is cancelled by then or in the wait behind it.
pub record Attempt : Type 0 where
  pub opens : Bool
  pub served : Event → Bool
  pub delivered : ℕ
  pub ending : Ending
  pub answers : ℕ → Answers
  pub cancelled : Bool
  pub cancelled_waiting : Bool

-- The events that a stream from the cursor on is to give.
abbrev pub behind : ℕ → List Event → List Event
behind seq log = keep (λ ev. ltb seq ev.seq) log

unfoldable pub stream : List Event → Attempt → Hub → Hub × Ending
unfolding read_frames
stream log a h =
    let frames = take a.delivered (keep a.served (behind h.last_seq log)) in
    let read = read_frames a.answers a.ending frames h in if a.opens then read else (h, broken)

abbrev pub mark_failed : Rows → Rows
mark_failed db = record db {
  graded = record db.graded { commit = mark_server_error db.graded.commit };
}

-- failServerError; an error of the database is only logged.
abbrev marked : Answer → Hub → Hub
marked lost h = h
marked stored h = record h { db = mark_failed h.db }
marked unsure h = record h { db = mark_failed h.db }

unfoldable pub fail_server_error : Answer → Hub → Hub
fail_server_error a h = marked a h

-- How the reader of a hub ended.
pub data Ended : Type 0 where
  finished_event : Ended
  context_cancelled : Ended
  gave_up : Ended

abbrev after_stream : Answer → Attempt → Hub → Ending → (Hub → Hub × Ended) → Hub × Ended
after_stream mark a h e again =
    if h.terminal
    then (finish h, finished_event)
    else if a.cancelled
    then (finish h, context_cancelled)
    else elim e [
      | clean_end ↦ (finish (fail_server_error mark h), gave_up)
      | broken ↦ (if a.cancelled_waiting then (finish h, context_cancelled) else again h)
    ]

-- The loop of run with so many attempts left; `attempts` gives the attempt that is the n-th last.
unfoldable pub run_attempts : Answer → List Event → (ℕ → Attempt) → ℕ → Hub → Hub × Ended
unfolding stream finish fail_server_error
run_attempts mark log attempts zero h = (finish (fail_server_error mark h), gave_up)
run_attempts mark log attempts (suc n) h =
    let (h', e) = stream log (attempts n) h in
    after_stream mark (attempts n) h' e (λ h''. run_attempts mark log attempts n h'')

unfoldable pub run_hub : Answer → List Event → (ℕ → Attempt) → Hub → Hub × Ended
unfolding run_attempts
run_hub mark log attempts h = run_attempts mark log attempts max_stream_attempts h
