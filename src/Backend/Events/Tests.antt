-- ===== src/Backend/Events/Tests.antt =====
-- Events written to the rows of a commit.
use runcodes.Prelude.{◌≡◌, refl, true, codes, text_eq}
use runcodes.Backend.Events.{
  finished, stored, persist_event, store_event, store_graded, set_finished, is_terminal_status,
  write_of,
}
use runcodes.Backend.Events.Samples.{event_of, rows_of}
use runcodes.Backend.Events.Terminal.{Settled, persist_event-Settled}

timed_out : is_terminal_status (codes "timeout") ≡ true
unfolding is_terminal_status codes text_eq
timed_out = refl

persist_event-Settled_example :
    Settled
      (rows_of (codes "timeout")).graded
      (persist_event stored
        (event_of finished 9 (codes "completed"))
        (rows_of (codes "timeout"))).0.graded
persist_event-Settled_example =
    persist_event-Settled stored (event_of finished 9 (codes "completed"))
      (rows_of (codes "timeout")) timed_out

graded_once :
    (persist_event stored
      (event_of finished 9 (codes "completed"))
      (rows_of (codes "running"))).0.graded.commit.status
    ≡ codes "completed"
unfolding persist_event store_event store_graded set_finished is_terminal_status write_of codes
    text_eq
graded_once = refl
