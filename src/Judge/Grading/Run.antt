-- ===== src/Judge/Grading/Run.antt =====
-- gradeAll and scoreRun: the results of a run stand for its cases, and the run is completed exactly
-- when every case passes.
use runcodes.Prelude.{
  ℕ, ◌≤◌, ◌<◌, ◌≡◌, refl, ap, ◌↔◌, Bool, true, false, Option, none, some, List, [], ◌∷◌, map,
  length, length-map, All, arith, Floats,
}
use runcodes.Judge.Model.{TestCase, correct, CaseResult, RunStatus, completed, uncompleted}
use runcodes.Judge.Files.{Entry, read_regular_bounded, read_limited}
use runcodes.Judge.Grading.{
  Config, CaseFiles, Graded, graded, failed, case_info, grade_case, judge_case, lookup_result,
  case_result, prepend, grade_all, count_correct, score_run,
}
use runcodes.Judge.Grading.Verdict.{Passes, grade_case_correct_iff, with_outcome_inverts}

pub grade_case_id :
    (F : Floats) (lower : ℕ → ℕ) (cfg : Config) (tc : TestCase) (fs : CaseFiles)
    (fetch : Option Entry) (r : CaseResult F)
    → grade_case F lower cfg tc fs fetch ≡ graded r
    → r.test_case_id ≡ tc.id
unfolding grade_case
grade_case_id F lower cfg tc fs fetch r h =
    let i = case_info F lower fs in
    let err = read_limited fs.error_file cfg.max_output_file_size in
    let user = read_regular_bounded fs.output_file cfg.max_compare_file_bytes in
    let (o, g, _, _, id) =
      with_outcome_inverts F lower cfg tc i err
        (read_limited fs.output_file cfg.max_output_file_size)
        (judge_case F lower cfg tc i err user fetch) r h in
    id

abbrev pub is_graded : RunStatus → Bool
is_graded completed = true
is_graded uncompleted = true
is_graded _ = false

module _ (F : Floats) where
  pub lookup_result_id :
      (rs : List (CaseResult F)) (id : ℕ) (r : CaseResult F)
      → lookup_result F rs id ≡ some r
      → r.test_case_id ≡ id
  unfolding lookup_result
  lookup_result_id [] id r h = cc
  lookup_result_id (x ∷ rs) id r h = ground (arith, lookup_result_id rs id r)

  prepend_inverts :
      (g : Graded (CaseResult F)) (rest : Graded (List (CaseResult F))) (out : List (CaseResult F))
      → prepend F g rest ≡ graded out
      → (r : CaseResult F) × (rs : List (CaseResult F)) × (g ≡ graded r)
        × (rest ≡ graded rs)
        × (out ≡ r ∷ rs)
  prepend_inverts failed rest out h = cc
  prepend_inverts (graded r) failed out h = cc
  prepend_inverts (graded r) (graded rs) out h = (r, rs, refl, refl, ground arith)

  case_result_id :
      (grade : TestCase → Graded (CaseResult F)) (tc : TestCase) (o : Option (CaseResult F))
      (r : CaseResult F)
      → ((x : CaseResult F) → o ≡ some x → x.test_case_id ≡ tc.id)
      → ((x : CaseResult F) → grade tc ≡ graded x → x.test_case_id ≡ tc.id)
      → case_result F grade tc o ≡ graded r
      → r.test_case_id ≡ tc.id
  case_result_id grade tc none r hit own h = own r h
  case_result_id grade tc (some x) r hit own h = ground (arith, hit x refl)

  grade_all_ids_of :
      (grade : TestCase → Graded (CaseResult F)) (stream : List (CaseResult F))
      (own : (tc : TestCase) (x : CaseResult F) → grade tc ≡ graded x → x.test_case_id ≡ tc.id)
      (tcs : List TestCase) (rs : List (CaseResult F))
      → grade_all F grade stream tcs ≡ graded rs
      → map (λ r. r.test_case_id) rs ≡ map (λ tc. tc.id) tcs
  unfolding grade_all
  grade_all_ids_of grade stream own [] rs h = ground arith
  grade_all_ids_of grade stream own (tc ∷ tcs) rs h =
      let (r, rest, hr, hrest, e) =
        prepend_inverts (case_result F grade tc (lookup_result F stream tc.id))
          (grade_all F grade stream tcs) rs h in
      let id =
        case_result_id grade tc (lookup_result F stream tc.id) r (lookup_result_id stream tc.id)
          (own tc) hr in
      ground (arith, e, id, grade_all_ids_of grade stream own tcs rest hrest)

  -- Every result is correct.
  abbrev pub AllCorrect : List (CaseResult F) → Type 0
  AllCorrect rs = All (λ r. r.status ≡ correct) rs

  count_correct_le : (rs : List (CaseResult F)) → count_correct F rs ≤ length rs
  unfolding count_correct
  count_correct_le [] = omega arith
  count_correct_le (r ∷ rs) = ground (arith, count_correct_le rs)

  count_correct_all : (rs : List (CaseResult F)) → count_correct F rs ≡ length rs → AllCorrect rs
  unfolding count_correct
  count_correct_all [] h = tt
  count_correct_all (r ∷ rs) h = (
    ground (arith, count_correct_le rs),
    count_correct_all rs (ground (arith, count_correct_le rs)),
  )

  count_correct_of_all : (rs : List (CaseResult F)) → AllCorrect rs → count_correct F rs ≡ length rs
  unfolding count_correct
  count_correct_of_all [] h = refl
  count_correct_of_all (r ∷ rs) h = ground (arith, count_correct_of_all rs h.1)

  -- With a result for each case, a run is completed exactly when it has a case and all results are
  -- correct; the count of correct cases never passes the number of cases.
  score_run_iff :
      (tcs : List TestCase) (rs : List (CaseResult F))
      → length rs ≡ length tcs
      → (((score_run F tcs rs).2 ≡ completed) ↔ ((0 < length tcs) × AllCorrect rs))
        × ((score_run F tcs rs).0 ≤ length tcs)
  unfolding score_run
  score_run_iff [] rs e = ((λ h. cc, λ (p, _). elim p [ ]), omega arith)
  score_run_iff (tc ∷ tcs) rs e = (
    (
      λ h. (omega arith, count_correct_all rs (ground arith)),
      λ (_, c). ground (arith, count_correct_of_all rs c),
    ),
    ground (arith, count_correct_le rs),
  )

  -- A score comes with one of two statuses.
  pub score_run_status :
      (tcs : List TestCase) (rs : List (CaseResult F)) → is_graded (score_run F tcs rs).2 ≡ true
  unfolding score_run
  score_run_status [] rs = refl
  score_run_status (tc ∷ tcs) rs = ground arith

-- The results of a graded run are those of its cases, one for each and in their order, whether a
-- result was published while the container ran or graded afterwards.
pub grade_all_ids :
    (F : Floats) (lower : ℕ → ℕ) (cfg : Config) (files : TestCase → CaseFiles)
    (fetch : TestCase → Option Entry) (stream : List (CaseResult F)) (tcs : List TestCase)
    (rs : List (CaseResult F))
    → grade_all F (λ tc. grade_case F lower cfg tc (files tc) (fetch tc)) stream tcs ≡ graded rs
    → map (λ r. r.test_case_id) rs ≡ map (λ tc. tc.id) tcs
grade_all_ids F lower cfg files fetch stream tcs rs h =
    grade_all_ids_of F (λ tc. grade_case F lower cfg tc (files tc) (fetch tc)) stream
      (λ tc x. grade_case_id F lower cfg tc (files tc) (fetch tc) x) tcs rs h

module _ (F : Floats) (lower : ℕ → ℕ) (cfg : Config) (files : TestCase → CaseFiles)
    (fetch : TestCase → Option Entry) where
  grade : TestCase → Graded (CaseResult F)
  grade tc = grade_case F lower cfg tc (files tc) (fetch tc)

  abbrev AllPass : List TestCase → Type 0
  AllPass tcs = All (λ tc. Passes F lower cfg tc (files tc) (fetch tc)) tcs

  grade_all_correct :
      (tcs : List TestCase) (rs : List (CaseResult F))
      → grade_all F grade [] tcs ≡ graded rs
      → (AllCorrect F rs → AllPass tcs) × (AllPass tcs → AllCorrect F rs)
  unfolding grade_all grade lookup_result
  grade_all_correct [] rs h = (λ _. tt, λ _. rw (← nil_of rs h) tt)
    where
      nil_of :
          (rs : List (CaseResult F))
          → ◌≡◌ {A = Graded (List (CaseResult F))} (graded []) (graded rs)
          → ◌≡◌ {A = List (CaseResult F)} [] rs
      nil_of rs e = ground arith
  grade_all_correct (tc ∷ tcs) rs h =
      let (r, rest, hr, hrest, e) = prepend_inverts F (grade tc) (grade_all F grade [] tcs) rs h in
      let ih = grade_all_correct tcs rest hrest in
      let this = grade_case_correct_iff F lower cfg tc (files tc) (fetch tc) in
      rw e (
        λ c. (this.0 (r, hr, c.0), ih.0 c.1),
        λ p. (let (x, hx, done) = this.1 p.0 in ground (arith, hx, hr, done), ih.1 p.1),
      )

-- A run that is graded with no result published before is completed exactly when it has a case and
-- every case passes.
pub run_completed_iff :
    (F : Floats) (lower : ℕ → ℕ) (cfg : Config) (files : TestCase → CaseFiles)
    (fetch : TestCase → Option Entry) (tcs : List TestCase) (rs : List (CaseResult F))
    → grade_all F (λ tc. grade_case F lower cfg tc (files tc) (fetch tc)) [] tcs ≡ graded rs
    → ((score_run F tcs rs).2 ≡ completed)
      ↔ ((0 < length tcs) × All (λ tc. Passes F lower cfg tc (files tc) (fetch tc)) tcs)
unfolding grade
run_completed_iff F lower cfg files fetch tcs rs h =
    let ids = grade_all_ids F lower cfg files fetch [] tcs rs h in
    let score = score_run_iff F tcs rs (
      omega (
        arith,
        ap length ids,
        length-map (λ (r : CaseResult F). r.test_case_id) rs,
        length-map (λ (tc : TestCase). tc.id) tcs,
      )) in
    let all = grade_all_correct F lower cfg files fetch tcs rs h in
    (λ c. ((score.0.0 c).0, all.0 (score.0.0 c).1), λ p. score.0.1 (p.0, all.1 p.1))
