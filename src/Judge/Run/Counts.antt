-- ===== src/Judge/Run/Counts.antt =====
-- How often a case's result and the end of a run are among the events, for each part of a run.
use runcodes.Prelude.{
  ℕ, ◌+◌, ◌≤◌, ◌≡◌, refl, ◌∙◌, Bool, true, false, Option, none, some, List, [], ◌∷◌, ◌++◌, map,
  ◌==◌, Text, arith, Floats,
}
use runcodes.Judge.Model.{TestCase, CaseResult}
use runcodes.Judge.Grading.{Config, graded, lookup_result}
use runcodes.Judge.Grading.Run.{grade_case_id}
use runcodes.Judge.Run.{
  Snapshot, find_test_case, Job, Published, case_result, finished, grade_at, in_order, remaining,
}
use runcodes.Judge.Run.Shape.{Streamed, stream_case}

abbrev one_if : Bool → ℕ
one_if true = 1
one_if false = 0

abbrev pub id_count : ℕ → List ℕ → ℕ
id_count id [] = 0
id_count id (n ∷ ns) = one_if (n == id) + id_count id ns

abbrev pub case_ids : List TestCase → List ℕ
case_ids cases = map (λ tc. tc.id) cases

-- No id stands for two cases.
abbrev pub Distinct : List TestCase → Type 0
Distinct cases = (id : ℕ) → id_count id (case_ids cases) ≤ 1

find_test_case_found :
    (cases : List TestCase) (id : ℕ) (tc : TestCase)
    → find_test_case cases id ≡ some tc
    → (tc.id ≡ id) × (1 ≤ id_count id (case_ids cases))
unfolding find_test_case
find_test_case_found [] id tc h = cc
find_test_case_found (c ∷ cases) id tc h = ground (arith, find_test_case_found cases id tc)

module _ (F : Floats) (lower : ℕ → ℕ) (cfg : Config) (quoted : Text → Text) where
  abbrev Event : Type 0
  Event = Published F lower cfg quoted

  abbrev ends : Event → ℕ
  ends (finished s n x m e) = 1
  ends _ = 0

  abbrev pub finished_count : List Event → ℕ
  finished_count [] = 0
  finished_count (ev ∷ evs) = ends ev + finished_count evs

  abbrev results : ℕ → Event → ℕ
  results id (case_result r) = one_if (r.test_case_id == id)
  results id _ = 0

  -- The events that give the result of the case with an id.
  abbrev pub result_count : ℕ → List Event → ℕ
  result_count id [] = 0
  result_count id (ev ∷ evs) = results id ev + result_count id evs

  pub finished_count-append :
      (xs ys : List Event) → finished_count (xs ++ ys) ≡ finished_count xs + finished_count ys
  finished_count-append [] ys = omega arith
  finished_count-append (x ∷ xs) ys = omega (arith, finished_count-append xs ys)

  pub result_count-append :
      (id : ℕ) (xs ys : List Event)
      → result_count id (xs ++ ys) ≡ result_count id xs + result_count id ys
  result_count-append id [] ys = omega arith
  result_count-append id (x ∷ xs) ys = omega (arith, result_count-append id xs ys)

  pub finished_count-in_order :
      (rs : List (CaseResult F)) → finished_count (in_order F lower cfg quoted rs) ≡ 0
  finished_count-in_order [] = refl
  finished_count-in_order (r ∷ rs) =
      finished_count-append (in_order F lower cfg quoted rs) (case_result r ∷ [])
      ∙ omega (arith, finished_count-in_order rs)

  pub finished_count-remaining :
      (rs all_results : List (CaseResult F))
      → finished_count (remaining F lower cfg quoted rs all_results) ≡ 0
  unfolding remaining
  finished_count-remaining rs [] = refl
  finished_count-remaining rs (r ∷ more) = ground (arith, finished_count-remaining rs more)

  abbrev pub hits : Option (CaseResult F) → ℕ
  hits none = 0
  hits (some r) = 1

  -- The results of the cases that were not streamed.
  pub result_count-remaining :
      (id : ℕ) (rs all_results : List (CaseResult F))
      → result_count id (remaining F lower cfg quoted rs all_results)
        ≡ elim (lookup_result F rs id) [
          | none ↦ id_count id (map (λ r. r.test_case_id) all_results)
          | some _ ↦ 0
        ]
  unfolding remaining
  result_count-remaining id rs [] = ground arith
  result_count-remaining id rs (r ∷ more) = ground (arith, result_count-remaining id rs more)

  module _ (j : Job) where
    stored_id :
        (id : ℕ) (tc : TestCase) (now : Snapshot) (r : CaseResult F)
        → find_test_case j.cases id ≡ some tc
        → grade_at F lower cfg quoted now tc ≡ graded r
        → (r.test_case_id ≡ id) × (1 ≤ id_count id (case_ids j.cases))
    stored_id id tc now r f g =
        let (e, c) = find_test_case_found j.cases id tc f in
        (grade_case_id F lower cfg tc (now.files tc) (now.fetch tc) r g ∙ e, c)

    -- A case has one event among those of the suite if it has a stored result, and none if not.
    pub result_count-in_order :
        (id : ℕ) (rs : List (CaseResult F))
        → Streamed F lower cfg quoted j rs
        → (result_count id (in_order F lower cfg quoted rs) ≡ hits (lookup_result F rs id))
          × (hits (lookup_result F rs id) ≤ id_count id (case_ids j.cases))
    unfolding lookup_result
    result_count-in_order id [] s = (refl, omega arith)
    result_count-in_order id (r ∷ rs) (stream_case id' tc now _ s f l g) =
        let (n, le) = result_count-in_order id rs s in
        let (e, c) = stored_id id' tc now r f g in
        let more = result_count-append id (in_order F lower cfg quoted rs) (case_result r ∷ []) in
        (more ∙ grind (arith, n, le, e, c, l), grind (arith, n, le, e, c, l))
