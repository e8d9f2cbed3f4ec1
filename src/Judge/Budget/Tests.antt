-- ===== src/Judge/Budget/Tests.antt =====
-- The budget at concrete inputs.
use runcodes.Prelude.{false, List, [], ◌∷◌, arith}
use runcodes.Judge.Budget.{ArtifactBudget, new_artifact_budget, Upload, asks, fails, upload_all}
use runcodes.Judge.Budget.Reservations.{Within, upload_all-Within}

abbrev uploads : List Upload
uploads = asks 6 ∷ asks 7 ∷ fails 0 ∷ asks 7 ∷ []

upload_all-Within_example :
    Within 10 (upload_all uploads (record { budget = new_artifact_budget 10; held = [] }))
upload_all-Within_example = upload_all-Within 10 uploads (omega arith)

abbrev nearly_full : ArtifactBudget
nearly_full = record { limit = 10; used = 6; exhausted = false }
