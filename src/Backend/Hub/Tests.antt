-- ===== src/Backend/Hub/Tests.antt =====
-- A hub whose first connection breaks in the middle.
use runcodes.Prelude.{
  ℕ, zero, suc, not, ◌==◌, ◌≡◌, refl, ◌⊎◌, ◌++◌, true, false, List, [], ◌∷◌, All, arith, codes,
  text_eq,
}
use runcodes.Backend.Events.{
  persist_event, store_event, write_of, status, case_result, finished, Event, Answer, stored,
  unsure, is_terminal_status,
}
use runcodes.Backend.Events.Samples.{event_of, rows_of}
use runcodes.Backend.Hub.{
  finished_event, run_attempts, stream, read_frames, handle_event, persist_terminal, finish,
  fail_server_error, broadcast, Hub, Attempt, clean_end, broken, context_cancelled, run_hub,
}
use runcodes.Backend.Hub.Cursor.{Rising}
use runcodes.Backend.Hub.Outcome.{Fresh, ServesAll, EndsAs, run_hub-once}
use runcodes.Backend.Hub.Settled.{settled, Verdict, run_hub_settles}

abbrev log : List Event
log =
    event_of status 1 (codes "running")
    ∷ event_of case_result 2 (codes "correct")
    ∷ event_of finished 3 (codes "completed")
    ∷ []

abbrev start : Hub
start = record {
  subs = [];
  left = [];
  closed = false;
  terminal = false;
  last_seq = 0;
  db = rows_of (codes "compiling");
}

-- On the first connection the write of the second event is done, but reported as an error.
abbrev first_answers : ℕ → ℕ → Answer
first_answers zero attempt = stored
first_answers (suc zero) attempt = stored
first_answers (suc (suc seq)) attempt = unsure

abbrev all_stored : ℕ → ℕ → Answer
all_stored seq attempt = stored

abbrev attempts : ℕ → Attempt
attempts (suc (suc n)) = record {
  opens = true;
  served = λ ev. true;
  delivered = 3;
  ending = broken;
  answers = first_answers;
  cancelled = false;
  cancelled_waiting = false;
}
attempts _ = record {
  opens = true;
  served = λ ev. true;
  delivered = 3;
  ending = clean_end;
  answers = all_stored;
  cancelled = false;
  cancelled_waiting = false;
}

log-Rising : Rising 0 log
log-Rising = (omega arith, (omega arith, (omega arith, tt)))

start-Fresh : Fresh start
start-Fresh = record { at_start = refl; open_ = refl }

serves_all : (n : ℕ) → ServesAll (attempts n)
serves_all zero ev = refl
serves_all (suc zero) ev = refl
serves_all (suc (suc n)) ev = refl

run_hub-once_example :
    (done : List Event) × (todo : List Event) × (log ≡ done ++ todo)
    × EndsAs log start.db.graded
        (run_hub stored log attempts start).1
        (run_hub stored log attempts start).0.db
        done
        todo
run_hub-once_example = run_hub-once log stored attempts start log-Rising start-Fresh serves_all

verdicts : All Verdict log
unfolding is_terminal_status codes text_eq
verdicts = ((λ h. cc h), ((λ h. cc h), ((λ h. refl), tt)))

run_hub_settles_example :
    ((run_hub stored log attempts start).1 ≡ context_cancelled)
    ⊎ (settled (run_hub stored log attempts start).0.db.graded ≡ true)
run_hub_settles_example = run_hub_settles log attempts start start-Fresh verdicts

-- The judge drops the frame of the case's result, the cursor moves past it with the next frame, and
-- the hub ends by the result without the row.
abbrev lossy : ℕ → Attempt
lossy n = record {
  opens = true;
  served = λ ev. not (ev.seq == 2);
  delivered = 3;
  ending = clean_end;
  answers = all_stored;
  cancelled = false;
  cancelled_waiting = false;
}

lost_for_good :
    ((run_hub stored log lossy start).1 ≡ finished_event)
    × ((run_hub stored log lossy start).0.db.graded.results ≡ start.db.graded.results)
unfolding run_hub run_attempts stream read_frames handle_event persist_terminal persist_event
    store_event write_of finish fail_server_error broadcast is_terminal_status codes text_eq
lost_for_good = (refl, refl)
