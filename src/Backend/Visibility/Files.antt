-- ===== src/Backend/Visibility/Files.antt =====
-- Which generated files and which results a student sees.
use runcodes.Prelude.{
  ℕ, zero, suc, ◌≡◌, refl, ◌∙◌, ◌↔◌, ◌⊎◌, inl, inr, true, false, not, ◌||◌, Option, none, some,
  List, [], ◌∷◌, ◌++◌, keep, get_elem?, arith, Text, Bool-cases,
}
use runcodes.Backend.Visibility.{
  output_file_case_number, resolve_number, resolve_output_file_test_case_id, has_id, shown,
  output_file_visible_for_cases, merge_case_ids, unavailable_generated_file_cases, ShownResult,
  redact_snapshot_output,
}

has_id-append : (id : ℕ) (a b : List ℕ) → has_id id (a ++ b) ≡ (has_id id a || has_id id b)
has_id-append id [] b = refl
has_id-append id (x ∷ a) b = ground (arith, has_id-append id a b)

has_id-keep :
    (id : ℕ) (a b : List ℕ)
    → (has_id id a || has_id id (keep (λ x. not (has_id x a)) b)) ≡ (has_id id a || has_id id b)
has_id-keep id a [] = refl
has_id-keep id a (x ∷ b) = elim (Bool-cases (has_id x a)) [
  | inl t ↦ rw t (ground (arith, has_id-keep id a b, t))
  | inr f ↦ rw f (ground (arith, has_id-keep id a b))
]

pub has_id-merge :
    (id : ℕ) (a b : List ℕ) → has_id id (merge_case_ids a b) ≡ (has_id id a || has_id id b)
unfolding merge_case_ids
has_id-merge id a b = has_id-append id a _ ∙ has_id-keep id a b

-- The file belongs to no case, or to a case of the exercise that is neither hidden nor interrupted.
abbrev pub MayShow : ℕ → List ℕ → List ℕ → List ℕ → Type 0
MayShow zero ids hidden interrupted = Unit
MayShow (suc index) ids hidden interrupted =
    (id : ℕ) × (get_elem? ids index ≡ some id)
    × ((id ≡ 0) ⊎ ((has_id id hidden ≡ false) × (has_id id interrupted ≡ false)))

shown_iff :
    (n : ℕ) (ids hidden interrupted : List ℕ)
    → (shown (merge_case_ids hidden interrupted) (resolve_number n ids) ≡ true)
      ↔ MayShow n ids hidden interrupted
shown_iff zero ids hidden interrupted = ((λ h. tt), (λ h. refl))
shown_iff (suc index) ids hidden interrupted = at (get_elem? ids index) refl
  where
    at :
        (o : Option ℕ)
        → get_elem? ids index ≡ o
        → (shown (merge_case_ids hidden interrupted) o ≡ true) ↔ (
            (id : ℕ) × (o ≡ some id)
            × ((id ≡ 0) ⊎ ((has_id id hidden ≡ false) × (has_id id interrupted ≡ false))))
    at none e = ((λ h. cc h), (λ (id, e', h). cc e'))
    at (some zero) e = ((λ h. (0, refl, inl refl)), (λ h. refl))
    at (some (suc i)) e = (
      (λ h. (
        suc i,
        refl,
        inr (
          ground (arith, h, has_id-merge (suc i) hidden interrupted),
          ground (arith, h, has_id-merge (suc i) hidden interrupted),
        ),
      )),
      (λ (id, e', h). ground (arith, e', h, has_id-merge (suc i) hidden interrupted)),
    )

-- A generated file is visible under the set that the artifact endpoints build exactly when it lies in
-- no case's directory, or its number is that of a case of the exercise whose output the author did
-- not hide and whose run was not interrupted (an id of 0 always counts as shown). A number beyond the
-- cases of the exercise is never visible.
pub output_file_visible_iff :
    (path : Text) (ids hidden interrupted set : List ℕ)
    → unavailable_generated_file_cases (some hidden) (some interrupted) ≡ some set
    → (output_file_visible_for_cases path set ids ≡ true)
      ↔ MayShow (output_file_case_number path) ids hidden interrupted
unfolding unavailable_generated_file_cases output_file_visible_for_cases
    resolve_output_file_test_case_id
output_file_visible_iff path ids hidden interrupted set e =
    at set e (shown_iff (output_file_case_number path) ids hidden interrupted)
  where
    at :
        (set : List ℕ)
        → some (merge_case_ids hidden interrupted) ≡ some set
        → (shown
              (merge_case_ids hidden interrupted)
              (resolve_number (output_file_case_number path) ids)
            ≡ true)
          ↔ MayShow (output_file_case_number path) ids hidden interrupted
        → (shown set (resolve_number (output_file_case_number path) ids) ≡ true)
          ↔ MayShow (output_file_case_number path) ids hidden interrupted
    at set e h =
        let same : merge_case_ids hidden interrupted ≡ set = cc e in
        ((λ v. h.0 (rw same v)), (λ m. rw (← same) (h.1 m)))

-- What a redaction may change: the texts of the hidden cases, all of them and nothing else.
abbrev pub Redacted : List ℕ → List ShownResult → List ShownResult → Type 0
Redacted hidden [] [] = Unit
Redacted hidden [] (r' ∷ rs') = true ≡ false
Redacted hidden (r ∷ rs) [] = true ≡ false
Redacted hidden (r ∷ rs) (r' ∷ rs') =
    (r'.test_case_id ≡ r.test_case_id)
    × (has_id r.test_case_id hidden ≡ true → (r'.user_output ≡ none) × (r'.error_message ≡ none))
    × (has_id r.test_case_id hidden ≡ false → r' ≡ r)
    × Redacted hidden rs rs'

-- RedactSnapshotOutput changes exactly what it may: every result keeps its case, those of hidden cases
-- lose their output and error text, and those of the other cases stay as they are.
pub redact_snapshot_output-Redacted :
    (hidden : List ℕ) (rs : List ShownResult)
    → Redacted hidden rs (redact_snapshot_output hidden rs)
unfolding redact_snapshot_output
redact_snapshot_output-Redacted hidden [] = tt
redact_snapshot_output-Redacted hidden (r ∷ rs) = elim (Bool-cases (has_id r.test_case_id hidden)) [
  | inl t ↦ rw t (refl, (λ h. (refl, refl)), (λ h. cc h), redact_snapshot_output-Redacted hidden rs)
  | inr f ↦ rw f (refl, (λ h. cc h), (λ h. refl), redact_snapshot_output-Redacted hidden rs)
]
