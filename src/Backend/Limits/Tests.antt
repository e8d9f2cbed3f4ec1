-- ===== src/Backend/Limits/Tests.antt =====
-- The theorems on limits at concrete inputs, and what a ghost exercise shows.
use runcodes.Prelude.{◌≡◌, ◌≢◌, refl, ◌↔◌, true, false, none, some, List, [], ◌∷◌, All, pos}
use runcodes.Backend.Limits.{
  Limits, Overrides, no_overrides, or_no_overrides, Row, find_row, case_limits, snapshot_limits,
  Entry, Exercise, validate_language_limits, insert_language_limits, replace_rows, empty, usable,
  authoring_exercise_id, list_exercise_limits, replace_exercise_limits,
}
use runcodes.Backend.Limits.Resolution.{Truthful, case_limits-snapshot, case_limits-sources}
use runcodes.Backend.Limits.Validity.{Acceptable, Distinct, validate_language_limits_iff}
use runcodes.Backend.Limits.Storing.{payload, replace-list, UsableLimits, replace-UsableLimits}

abbrev defaults : Limits
defaults = record { cpu_time = pos 3; mem_usage = pos 64; stack = pos 0; file_size = pos 8 }

abbrev longer : Overrides
longer = record { cpu_time = some (pos 9); mem_usage = none; stack = none; file_size = none }

abbrev larger : Overrides
larger = record { cpu_time = none; mem_usage = some (pos 128); stack = none; file_size = none }

abbrev exercise_rows : List Row
exercise_rows = record { owner = 1; language = 5; overrides = longer } ∷ []

abbrev case_rows : List Row
case_rows = record { owner = 7; language = 5; overrides = larger } ∷ []

case_limits-snapshot_example :
    ((case_limits defaults exercise_rows case_rows 1 7 5).0
      ≡ snapshot_limits defaults exercise_rows case_rows 1 7 (some 5))
    × (snapshot_limits defaults exercise_rows case_rows 1 7 none ≡ defaults)
case_limits-snapshot_example = case_limits-snapshot defaults exercise_rows case_rows 1 7 5

case_limits-sources_example :
    let e = or_no_overrides (find_row 1 5 exercise_rows) in
    let c = or_no_overrides (find_row 7 5 case_rows) in
    let r = case_limits defaults exercise_rows case_rows 1 7 5 in
    Truthful defaults.cpu_time e.cpu_time c.cpu_time r.0.cpu_time r.1.cpu_time
    × Truthful defaults.mem_usage e.mem_usage c.mem_usage r.0.mem_usage r.1.mem_usage
    × Truthful defaults.stack e.stack c.stack r.0.stack r.1.stack
    × Truthful defaults.file_size e.file_size c.file_size r.0.file_size r.1.file_size
case_limits-sources_example = case_limits-sources defaults exercise_rows case_rows 1 7 5

abbrev entries : List Entry
entries =
    record { language = 5; overrides = longer } ∷ record { language = 6; overrides = larger } ∷ []

validate_language_limits_iff_example :
    (validate_language_limits (5 ∷ 6 ∷ []) entries ≡ true)
    ↔ (All (Acceptable (5 ∷ 6 ∷ [])) entries × Distinct entries)
validate_language_limits_iff_example = validate_language_limits_iff (5 ∷ 6 ∷ []) entries

abbrev plain : Exercise
plain = record { id = 1; ghost = false; real_id = none }

abbrev ghost_of_1 : Exercise
ghost_of_1 = record { id = 2; ghost = true; real_id = some 1 }

abbrev stored_rows : List Row
stored_rows =
    record { owner = 1; language = 5; overrides = longer }
    ∷ record { owner = 1; language = 6; overrides = larger }
    ∷ []

stored : replace_exercise_limits (5 ∷ 6 ∷ []) plain entries exercise_rows ≡ some stored_rows
unfolding replace_exercise_limits validate_language_limits replace_rows insert_language_limits empty
    usable authoring_exercise_id
stored = refl

replace-list_example :
    ((list_exercise_limits defaults stored_rows plain 6).0 ≡ payload 6 entries)
    × (plain.id ≢ 3 → find_row 3 6 stored_rows ≡ find_row 3 6 exercise_rows)
replace-list_example =
    replace-list defaults (5 ∷ 6 ∷ []) plain entries exercise_rows stored_rows 3 6 refl stored

replace-UsableLimits_example : UsableLimits (list_exercise_limits defaults stored_rows plain 6).1
replace-UsableLimits_example =
    replace-UsableLimits defaults (5 ∷ 6 ∷ []) plain entries exercise_rows stored_rows 6 refl
      (refl, refl, refl, refl) stored

-- A ghost exercise stores its payload with its real exercise, and its listing does not show it.
ghost_stored : replace_exercise_limits (5 ∷ 6 ∷ []) ghost_of_1 entries [] ≡ some stored_rows
unfolding replace_exercise_limits validate_language_limits replace_rows insert_language_limits empty
    usable authoring_exercise_id
ghost_stored = refl

ghost_listing : (list_exercise_limits defaults stored_rows ghost_of_1 5).0 ≡ no_overrides
unfolding list_exercise_limits find_row
ghost_listing = refl
