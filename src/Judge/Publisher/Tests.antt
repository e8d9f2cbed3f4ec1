-- ===== src/Judge/Publisher/Tests.antt =====
-- Runs of the publisher, and its theorems at concrete inputs.
use runcodes.Prelude.{some, ℕ, ◌≡◌, refl, true, false, List, [], ◌∷◌, pos, codes}
use runcodes.Judge.Budget.{new_artifact_budget, reserve_bytes, release_bytes, is_exhausted}
use runcodes.Judge.Publisher.{
  ArtifactState, pending, ready, failed, budget_exceeded, Announcement, new_output_publisher,
  entries, FinishedCase, Step, case_finishes, takes, completes, run_publisher, step_publisher,
  queue_case_outputs, case_publish_request, submit, work, publish_generated_files, publish_files,
  close_publisher, work_all, pick,
}
use runcodes.Judge.Publisher.Worked.{spinning, Waiting}
use runcodes.Judge.Publisher.Settled.{run_publisher-Waiting, run_publisher_settles}

abbrev case_of : ℕ → ℕ → FinishedCase
case_of id size = record {
  id = id;
  number = pos id;
  show_user_output = true;
  interrupted = false;
  file_size_limit = 0;
  left = entries (some (record { path = codes "a.txt"; size = size; stored = true } ∷ []));
}

-- The second case does not fit the budget of 10 bytes.
abbrev suite : List Step
suite = case_finishes 100 (case_of 1 8) ∷ takes ∷ case_finishes 100 (case_of 2 9) ∷ completes 0 ∷ []

abbrev tells : ℕ → ArtifactState → Announcement
tells id s = record { case_id = id; state = s }

suite_told :
    (close_publisher (run_publisher suite (new_output_publisher (new_artifact_budget 10)))).told
    ≡ tells 2 (failed budget_exceeded) ∷ tells 1 ready ∷ tells 2 pending ∷ tells 1 pending ∷ []
unfolding close_publisher run_publisher step_publisher queue_case_outputs case_publish_request
    submit work publish_generated_files publish_files work_all pick new_artifact_budget
    reserve_bytes release_bytes is_exhausted
suite_told = refl

run_publisher-Waiting_example :
    Waiting (run_publisher suite (new_output_publisher (new_artifact_budget 10)))
run_publisher-Waiting_example = run_publisher-Waiting suite (new_artifact_budget 10)

run_publisher_settles_example :
    ((close_publisher (run_publisher suite (new_output_publisher (new_artifact_budget 10)))).tasks
      ≡ [])
    × ((close_publisher
          (run_publisher suite (new_output_publisher (new_artifact_budget 10)))).working
        ≡ [])
    × (spinning 1
          (close_publisher
            (run_publisher suite (new_output_publisher (new_artifact_budget 10)))).told
        ≡ false)
run_publisher_settles_example = run_publisher_settles suite (new_artifact_budget 10) 1
