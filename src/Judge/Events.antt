-- ===== src/Judge/Events.antt =====
-- judge/internal/events/hub.go: the replayable log of the events of one commit, and the hub of such
-- logs. A channel keeps every frame that was sent on it and how many of these its reader has taken,
-- so its buffer is what lies between. `marshal` is the JSON text of a payload with its sequence
-- number, `none` where encoding fails.
pub mod Chain
pub mod Invariant
pub mod Delivery
mod Tests
use runcodes.Prelude.{
  ℕ, zero, suc, ◌+◌, ◌-◌, ◌≤◌, ◌<◌, Bool, true, false, not, ◌&&◌, ◌||◌, Option, none, some, List,
  [], ◌∷◌, ◌++◌, map, length, keep, ltb, ◌==◌, if◌then◌else◌,
}

pub data Name : Type 0 where
  status compilation case_result timings artifact finished error alert : Name

abbrev pub is_finished : Name → Bool
is_finished finished = true
is_finished _ = false

abbrev pub is_error : Name → Bool
is_error error = true
is_error _ = false

pub record Frame : Type 0 where
  pub seq : ℕ
  pub name : Name
  pub data_bytes : List ℕ

abbrev pub max_frames : ℕ
max_frames = 1024

abbrev pub max_topic_bytes : ℕ
max_topic_bytes = 16777216

abbrev pub sub_buffer : ℕ
sub_buffer = 64

-- `from` and `backlog` are those of the subscription; `taken` counts the frames that were read.
pub record Channel : Type 0 where
  pub id : ℕ
  pub from : ℕ
  pub backlog : List Frame
  pub sent : List Frame
  pub taken : ℕ

-- `closed` holds the channels that were closed; `armed` tells that the eviction timer runs.
pub record Topic : Type 0 where
  pub next : ℕ
  pub frames : List Frame
  pub bytes : ℕ
  pub subs : List Channel
  pub closed : List Channel
  pub done : Bool
  pub armed : Bool

unfoldable pub new_topic : Topic
new_topic = record {
  next = 0;
  frames = [];
  bytes = 0;
  subs = [];
  closed = [];
  done = false;
  armed = false;
}

abbrev pub size : Frame → ℕ
size f = length f.data_bytes

-- The loop of appendFrame: the oldest frame goes while a bound is exceeded and one remains.
unfoldable pub evict_frames : ℕ → List Frame → ℕ × List Frame
evict_frames bytes [] = (bytes, [])
evict_frames bytes (f ∷ []) = (bytes, f ∷ [])
evict_frames bytes (f ∷ g ∷ fs) =
    let rest = evict_frames (bytes - size f) (g ∷ fs) in
    if ltb max_frames (length (f ∷ g ∷ fs)) || ltb max_topic_bytes bytes
    then rest
    else (bytes, f ∷ g ∷ fs)

pub append_frame : Topic → Frame → Topic
unfolding evict_frames
append_frame t f =
    let (b, fs) = evict_frames (t.bytes + size f) (t.frames ++ f ∷ []) in
    record t { frames = fs; bytes = b }

abbrev has_room : Channel → Bool
has_room c = ltb (length c.sent - c.taken) sub_buffer

-- A send that does not wait: a full channel loses the frame.
unfoldable pub send : Frame → Channel → Channel
send f c = if has_room c then record c { sent = c.sent ++ f ∷ [] } else c

-- The reader takes up to `k` frames.
unfoldable pub drain : ℕ → Channel → Channel
drain k c =
    let n = c.taken + k in
    if ltb (length c.sent) n then record c { taken = length c.sent } else record c { taken = n }

-- A terminal frame waits for room: `reads` is what each reader takes in that time.
unfoldable pub deliver : (ℕ → ℕ) → Frame → Channel → Channel
unfolding send drain
deliver reads f c =
    if is_finished f.name || is_error f.name
    then (if has_room c then send f c else send f (drain (reads c.id) c))
    else send f c

close_topic : Topic → Topic
close_topic t = record t { done = true; closed = t.subs ++ t.closed; subs = []; armed = true }

abbrev settle : Name → Topic → Topic
settle finished t = close_topic t
settle error t = record t { armed = true }
settle _ t = t

-- publish, behind the lookup of the topic: the number is taken before the payload is encoded.
publish_frame : (ℕ → ℕ) → Name → List ℕ → Topic → Topic
unfolding append_frame deliver close_topic
publish_frame reads name bytes t =
    let f : Frame = record { seq = t.next; name = name; data_bytes = bytes } in
    settle name (record (append_frame t f) { subs = map (deliver reads f) t.subs })

abbrev publish_encoded : (ℕ → ℕ) → Name → Option (List ℕ) → Topic → Topic
publish_encoded reads name none t = t
publish_encoded reads name (some bytes) t = publish_frame reads name bytes t

unfoldable pub publish_topic : (ℕ → ℕ) → Name → (ℕ → Option (List ℕ)) → Topic → Topic
unfolding publish_frame
publish_topic reads name marshal t =
    if t.done
    then t
    else publish_encoded reads name (marshal (suc t.next)) (record t { next = suc t.next })

-- Subscribe: the frames after `from`, and a channel unless the topic is done.
unfoldable pub backlog_after : ℕ → Topic → List Frame
backlog_after from t = keep (λ f. ltb from f.seq) t.frames

abbrev new_channel : ℕ → ℕ → Topic → Channel
new_channel id from t = record {
  id = id;
  from = from;
  backlog = backlog_after from t;
  sent = [];
  taken = 0;
}

unfoldable pub subscribe_topic : ℕ → ℕ → Topic → Topic
unfolding backlog_after
subscribe_topic id from t =
    let c = new_channel id from t in
    if t.done then record t { closed = c ∷ t.closed } else record t { subs = c ∷ t.subs }

-- Cancel removes the channel if it is still registered, and closes it.
unfoldable pub cancel_topic : ℕ → Topic → Topic
cancel_topic id t = record t {
  subs = keep (λ c. not (c.id == id)) t.subs;
  closed = keep (λ c. c.id == id) t.subs ++ t.closed;
}

-- A reader takes a frame.
unfoldable pub receive_topic : ℕ → Topic → Topic
unfolding drain
receive_topic id t = record t {
  subs = map (λ c. if c.id == id then drain 1 c else c) t.subs;
  closed = map (λ c. if c.id == id then drain 1 c else c) t.closed;
}

-- What can happen to a topic.
pub data Call : Type 0 where
  publishes : (ℕ → ℕ) → Name → (ℕ → Option (List ℕ)) → Call
  subscribes : ℕ → ℕ → Call
  cancels receives : ℕ → Call

unfoldable pub step_topic : Topic → Call → Topic
step_topic t (publishes reads name marshal) = publish_topic reads name marshal t
step_topic t (subscribes id from) = subscribe_topic id from t
step_topic t (cancels id) = cancel_topic id t
step_topic t (receives id) = receive_topic id t

unfoldable pub run_topic : Topic → List Call → Topic
run_topic t [] = t
run_topic t (c ∷ cs) = run_topic (step_topic t c) cs
