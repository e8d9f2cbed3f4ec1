-- ===== src/Backend/Visibility.antt =====
-- backend/services/output-visibility.go and the redaction of submissions-history.go: what a student
-- may see of the output of a case. A path is text; a set of ids is the list of its elements.
pub mod Files
mod Tests
use runcodes.Prelude.{
  ℕ, zero, suc, ◌-◌, Bool, true, false, not, Option, none, some, List, [], ◌∷◌, ◌++◌, any, keep,
  map, get_elem?, leb, ◌==◌, if◌then◌else◌, ℤ, pos, negsuc, Text, codes, cut, cut_prefix, parse_int,
}

abbrev number_of : Option ℤ → ℕ
number_of none = 0
number_of (some (negsuc n)) = 0
number_of (some (pos n)) = n

abbrev case_prefix : Option Text → ℕ
case_prefix none = 0
case_prefix (some digits) = number_of (parse_int digits)

abbrev case_directory : Option (Text × Text) → ℕ
case_directory none = 0
case_directory (some (prefix, rest)) = case_prefix (cut_prefix prefix (codes "test_"))

-- OutputFileCaseNumber: 0 for a file of no case.
unfoldable pub output_file_case_number : Text → ℕ
output_file_case_number path = case_directory (cut b'/' path)

-- ResolveOutputFileTestCaseID; `none` is the second result false.
abbrev pub resolve_number : ℕ → List ℕ → Option ℕ
resolve_number zero ids = some 0
resolve_number (suc index) ids = get_elem? ids index

unfoldable pub resolve_output_file_test_case_id : Text → List ℕ → Option ℕ
unfolding output_file_case_number
resolve_output_file_test_case_id path ids = resolve_number (output_file_case_number path) ids

abbrev pub has_id : ℕ → List ℕ → Bool
has_id id set = any (λ x. x == id) set

abbrev pub shown : List ℕ → Option ℕ → Bool
shown hidden none = false
shown hidden (some zero) = true
shown hidden (some (suc id)) = not (has_id (suc id) hidden)

unfoldable pub output_file_visible_for_cases : Text → List ℕ → List ℕ → Bool
unfolding resolve_output_file_test_case_id
output_file_visible_for_cases path hidden ids =
    shown hidden (resolve_output_file_test_case_id path ids)

unfoldable pub visible_output_files_for_cases : List Text → List ℕ → List ℕ → List Text
unfolding output_file_visible_for_cases
visible_output_files_for_cases files hidden ids =
    keep (λ f. output_file_visible_for_cases f hidden ids) files

-- MergeCaseIDs of the two sets that UnavailableGeneratedFileCases reads; `none` is its error.
unfoldable pub merge_case_ids : List ℕ → List ℕ → List ℕ
merge_case_ids a b = a ++ keep (λ id. not (has_id id a)) b

unfoldable pub unavailable_generated_file_cases :
    Option (List ℕ) → Option (List ℕ) → Option (List ℕ)
unfolding merge_case_ids
unavailable_generated_file_cases none interrupted = none
unavailable_generated_file_cases (some hidden) none = none
unavailable_generated_file_cases (some hidden) (some interrupted) =
    some (merge_case_ids hidden interrupted)

-- A result of a snapshot, as far as the redaction reads or changes it.
pub record ShownResult : Type 0 where
  pub test_case_id : ℕ
  pub user_output : Option Text
  pub error_message : Option Text

abbrev redact_result : List ℕ → ShownResult → ShownResult
redact_result hidden r =
    if has_id r.test_case_id hidden
    then record r { user_output = none; error_message = none }
    else r

-- RedactSnapshotOutput
unfoldable pub redact_snapshot_output : List ℕ → List ShownResult → List ShownResult
redact_snapshot_output hidden results = map (redact_result hidden) results
