-- ===== src/Backend/Visibility/Tests.antt =====
-- What a student sees, at concrete inputs.
use runcodes.Prelude.{
  ◌≡◌, refl, ◌↔◌, true, none, some, List, [], ◌∷◌, Text, codes, cut, cut_prefix, parse_int,
}
use runcodes.Backend.Visibility.{
  output_file_case_number, output_file_visible_for_cases, visible_output_files_for_cases,
  unavailable_generated_file_cases, merge_case_ids, ShownResult, redact_snapshot_output,
  resolve_output_file_test_case_id,
}
use runcodes.Backend.Visibility.Files.{
  MayShow, output_file_visible_iff, Redacted, redact_snapshot_output-Redacted,
}

abbrev path : Text
path = codes "test_2/out.txt"

merged :
    unavailable_generated_file_cases (some (31 ∷ [])) (some (40 ∷ 31 ∷ [])) ≡ some (31 ∷ 40 ∷ [])
unfolding unavailable_generated_file_cases merge_case_ids
merged = refl

output_file_visible_iff_example :
    (output_file_visible_for_cases path (31 ∷ 40 ∷ []) (30 ∷ 31 ∷ []) ≡ true)
    ↔ MayShow (output_file_case_number path) (30 ∷ 31 ∷ []) (31 ∷ []) (40 ∷ 31 ∷ [])
output_file_visible_iff_example =
    output_file_visible_iff path (30 ∷ 31 ∷ []) (31 ∷ []) (40 ∷ 31 ∷ []) (31 ∷ 40 ∷ []) merged

listing :
    visible_output_files_for_cases (path ∷ codes "outputfiles/a" ∷ []) (31 ∷ []) (30 ∷ 31 ∷ [])
    ≡ codes "outputfiles/a" ∷ []
unfolding visible_output_files_for_cases output_file_visible_for_cases codes cut cut_prefix
    parse_int resolve_output_file_test_case_id output_file_case_number
listing = refl

abbrev results : List ShownResult
results = record { test_case_id = 31; user_output = some (codes "42"); error_message = none } ∷ []

redact_snapshot_output-Redacted_example :
    Redacted (31 ∷ []) results (redact_snapshot_output (31 ∷ []) results)
redact_snapshot_output-Redacted_example = redact_snapshot_output-Redacted (31 ∷ []) results
