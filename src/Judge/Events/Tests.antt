-- ===== src/Judge/Events/Tests.antt =====
-- Runs of a topic, and its theorems at concrete inputs.
use runcodes.Prelude.{ℕ, ◌≡◌, refl, true, false, Option, some, List, [], ◌∷◌, ◌++◌, map, arith}
use runcodes.Judge.Events.{
  status, finished, Frame, deliver, Topic, Call, publishes, subscribes, receives, new_topic,
  publish_topic, subscribe_topic, receive_topic, backlog_after, step_topic, run_topic,
}
use runcodes.Judge.Events.Invariant.{Inv, run_topic-Inv}
use runcodes.Judge.Events.Delivery.{run_done, finished_replayed}

abbrev no_reads : ℕ → ℕ
no_reads id = 0

abbrev number : ℕ → Option (List ℕ)
number seq = some (seq ∷ [])

abbrev life : List Call
life =
    subscribes 1 0
    ∷ publishes no_reads status number
    ∷ receives 1
    ∷ subscribes 2 0
    ∷ publishes no_reads finished number
    ∷ publishes no_reads status number
    ∷ []

run_topic-Inv_example : Inv (run_topic new_topic life)
run_topic-Inv_example = run_topic-Inv life

abbrev status_frame : Frame
status_frame = record { seq = 1; name = status; data_bytes = 1 ∷ [] }

abbrev finished_frame : Frame
finished_frame = record { seq = 2; name = finished; data_bytes = 2 ∷ [] }

life_log : (run_topic new_topic life).frames ≡ status_frame ∷ finished_frame ∷ []
unfolding run_topic step_topic new_topic publish_topic subscribe_topic receive_topic
life_log = refl

-- A topic with one event behind it, which a subscriber has read.
abbrev begun : Topic
begun = record {
  next = 1;
  frames = status_frame ∷ [];
  bytes = 1;
  subs = record { id = 1; from = 0; backlog = []; sent = status_frame ∷ []; taken = 1 } ∷ [];
  closed = [];
  done = false;
  armed = false;
}

finished_replayed_example :
    ((publish_topic no_reads finished number begun).done ≡ true)
    × ((publish_topic no_reads finished number begun).subs ≡ [])
    × ((publish_topic no_reads finished number begun).closed
        ≡ map (deliver no_reads finished_frame) begun.subs ++ begun.closed)
    × ((pre : List Frame) × (backlog_after 1 (publish_topic no_reads finished number begun)
          ≡ pre ++ finished_frame ∷ []))
finished_replayed_example =
    finished_replayed no_reads number begun (2 ∷ []) 1 refl refl (omega arith)

abbrev ended : Topic
ended = record begun { done = true; subs = [] }

run_done_example :
    ((run_topic ended life).frames ≡ status_frame ∷ [])
    × ((run_topic ended life).next ≡ 1)
    × ((run_topic ended life).done ≡ true)
run_done_example = run_done ended life refl
