-- ===== src/Judge/Queue/Tests.antt =====
-- Runs of the queue and the pool, and their theorems at concrete inputs.
use runcodes.Prelude.{
  ℕ, suc, ◌≡◌, refl, Bool, true, false, Option, some, List, [], ◌∷◌, codes, arith,
}
use runcodes.Judge.Queue.{
  queued, Row, available, oldest, set_state, mark_terminal, succeeds, claim, PoolState, drain_round,
  Move, wakes, polls, drains, step_pool, run_pool,
}
use runcodes.Judge.Queue.Claims.{NoneOlder, Outcome, queued_count, claim-oldest}
use runcodes.Judge.Queue.Pool.{Sound, run_pool-Sound}

-- The older row has no source.
abbrev two : List Row
two =
    record { id = 7; created = 20; s3_key = codes "k"; exercise_id = 1; state = queued }
    ∷ record { id = 5; created = 10; s3_key = []; exercise_id = 1; state = queued }
    ∷ []

abbrev no_source : Row
no_source = record { id = 5; created = 10; s3_key = []; exercise_id = 1; state = queued }

abbrev unlocked : ℕ → Bool
unlocked id = false

abbrev same : ℕ → Option ℕ
same id = some id

first : oldest unlocked two ≡ some no_source
unfolding oldest
first = refl

claim-oldest_example :
    (available unlocked no_source ≡ true)
    × NoneOlder unlocked no_source two
    × (suc (queued_count (claim succeeds unlocked same two).0) ≡ queued_count two)
    × Outcome same two no_source (claim succeeds unlocked same two)
claim-oldest_example = claim-oldest unlocked same two no_source ((refl, tt), (tt, tt)) first

abbrev idle : PoolState
idle = record { rows = two; running = []; wake = false; draining = false }

idle-Sound : Sound 1 idle
idle-Sound = record {
  within = omega arith;
  rows_unique = ((refl, tt), (tt, tt));
  different = tt;
  claimed_rows = tt;
}

-- The row without a source ends the drain; the next poll claims the row behind it.
abbrev day : List Move
day =
    polls
    ∷ drains succeeds unlocked same
    ∷ drains succeeds unlocked same
    ∷ wakes
    ∷ polls
    ∷ drains succeeds unlocked same
    ∷ drains succeeds unlocked same
    ∷ []

drain_stops : (run_pool 1 idle (polls ∷ drains succeeds unlocked same ∷ [])).draining ≡ false
unfolding run_pool step_pool drain_round claim oldest set_state mark_terminal codes
drain_stops = refl

day_running : (run_pool 1 idle day).running ≡ 7 ∷ []
unfolding run_pool step_pool drain_round claim oldest set_state mark_terminal codes
day_running = refl

run_pool-Sound_example : Sound 1 (run_pool 1 idle day)
run_pool-Sound_example = run_pool-Sound 1 day idle idle-Sound
