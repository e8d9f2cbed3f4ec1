-- ===== src/Judge/Grading/Verdict.antt =====
-- When gradeCase passes a case, when it ends the run, and what reasons it gives.
use runcodes.Prelude.{
  ℕ, ◌≡◌, refl, sym, ◌∙◌, ◌↔◌, inl, inr, true, false, ◌&&◌, Option, none, some, List, [],
  if◌then◌else◌, arith, is_neg, Text, codes, text_eq, Floats, text_eq-eq, text_eq_refl, Bool-cases,
}
use runcodes.Judge.Cmp.{text_lenient_bytes}
use runcodes.Judge.Cmp.Strict.{canonical, text_equal_bytes_iff}
use runcodes.Judge.Model.{TestCase, correct, unset, CaseResult}
use runcodes.Judge.Report.{MonitorInfo, valid, exit_failure_message}
use runcodes.Judge.Files.{Entry, read_regular_bounded, read_limited}
use runcodes.Judge.Grading.{
  Config, CaseFiles, compare_with, judge_run, with_outcome, case_result_of, Graded, graded, failed,
  compare_output, expected_bytes, Outcome, judge_case, case_info, grade_case,
}

-- What the comparison of a passed case has found.
abbrev pub SameOutput : Text → List ℕ → List ℕ → Type 0
SameOutput kind user expected =
    if text_eq kind (codes "file")
    then user ≡ expected
    else ((ls : List Text) × (canonical user ≡ some ls) × (canonical expected ≡ some ls))

-- A comparison passes a file where all bytes are equal, and a text where both are valid UTF-8 with
-- the same lines, trailing white space left aside.
pub compare_output_iff :
    (lower : ℕ → ℕ) (user expected : List ℕ) (kind : Text)
    → (compare_output lower user expected kind ≡ correct) ↔ SameOutput kind user expected
unfolding compare_output
compare_output_iff lower user expected kind =
    let strict = text_equal_bytes_iff user expected in
    elim (Bool-cases (text_eq kind (codes "file"))) [
      | inl e ↦
          rw (e, compare_output)
            (
              λ h. text_eq-eq user expected (ground arith),
              λ h. ground (arith, text_eq_refl expected),
            )
      | inr e ↦
          rw (e, compare_output)
            (
              λ h. strict.0 (ground (arith, text_lenient_bytes lower user expected)),
              λ h. ground (arith, strict.1 h),
            )
    ]

-- What has to hold of a passed case but for the outputs.
pub record Clean (F : Floats) (i : MonitorInfo F) : Type 0 where
  pub reported : valid F i ≡ true
  pub exited : exit_failure_message F i ≡ none
  pub no_signal : i.signal ≡ []
  pub not_killed : (i.has_exit && is_neg i.exit_status) ≡ false

module _ (F : Floats) (lower : ℕ → ℕ) (cfg : Config) (tc : TestCase) (i : MonitorInfo F)
    (err : Text) where
  Compared : List ℕ → Graded (List ℕ) → Type 0
  Compared u ex =
      (e : List ℕ) × (ex ≡ graded e) × (compare_output lower u e tc.expected_output_type ≡ correct)

  Ready : Type 0
  Ready = (i.signal ≡ []) × ((i.has_exit && is_neg i.exit_status) ≡ false)

  compare_with_passes :
      (u : List ℕ) (ex : Graded (List ℕ)) (o : Outcome F)
      → compare_with F lower u tc.expected_output_type err ex ≡ graded o
      → o.status ≡ correct
      → Compared u ex
  unfolding Compared
  compare_with_passes u failed o h c = cc
  compare_with_passes u (graded e) o h c = (e, refl, ground arith)

  judge_run_passes :
      (u : List ℕ) (ex : Graded (List ℕ)) (msg : Option Text) (o : Outcome F)
      → judge_run F lower tc i err u ex msg ≡ graded o
      → o.status ≡ correct
      → (msg ≡ none) × Ready × Compared u ex
  unfolding Ready
  judge_run_passes u ex (some m) o h c = cc
  judge_run_passes u ex none o h c =
      (refl, (ground arith, ground arith), compare_with_passes u ex o (ground arith) c)

  judge_run_of_clean :
      (u : List ℕ) (e : List ℕ)
      → Ready
      → compare_output lower u e tc.expected_output_type ≡ correct
      → (o : Outcome F) × (judge_run F lower tc i err u (graded e) none ≡ graded o)
        × (o.status ≡ correct)
  unfolding Ready
  judge_run_of_clean u e r c = (
    record { status = correct; reason = unset; status_msg = []; error_message = [] },
    ground arith,
    refl,
  )

  judge_case_passes :
      (user : Option (List ℕ)) (fetch : Option Entry) (o : Outcome F)
      → judge_case F lower cfg tc i err user fetch ≡ graded o
      → o.status ≡ correct
      → Clean F i × ((u : List ℕ) × (user ≡ some u) × Compared u (expected_bytes cfg tc fetch))
  unfolding judge_case Ready
  judge_case_passes none fetch o h c = absurd (ground arith)
  judge_case_passes (some u) fetch o h c =
      let (exited, (quiet, alive), same) =
        judge_run_passes u (expected_bytes cfg tc fetch) (exit_failure_message F i) o (ground arith)
          c in
      (
        record { reported = ground arith; exited = exited; no_signal = quiet; not_killed = alive },
        (u, refl, same),
      )

  judge_case_of_Clean :
      (fetch : Option Entry) (u e : List ℕ)
      → Clean F i
      → expected_bytes cfg tc fetch ≡ graded e
      → compare_output lower u e tc.expected_output_type ≡ correct
      → (o : Outcome F) × (judge_case F lower cfg tc i err (some u) fetch ≡ graded o)
        × (o.status ≡ correct)
  unfolding judge_case Ready
  judge_case_of_Clean fetch u e clean he c =
      let (o, run, ok) = judge_run_of_clean u e (clean.no_signal, clean.not_killed) c in
      (o, ground (arith, run, clean.exited, clean.reported), ok)

  pub with_outcome_inverts :
      (text : Text) (g : Graded (Outcome F)) (r : CaseResult F)
      → with_outcome F tc i text g ≡ graded r
      → (o : Outcome F) × (g ≡ graded o)
        × (r.status ≡ o.status)
        × (r.reason ≡ o.reason)
        × (r.test_case_id ≡ tc.id)
  with_outcome_inverts text failed r h = cc
  with_outcome_inverts text (graded o) r h = (o, refl, ground arith, ground arith, ground arith)

-- What a case has to show to be passed.
abbrev pub Passes : (F : Floats) → (ℕ → ℕ) → Config → TestCase → CaseFiles → Option Entry → Type 0
Passes F lower cfg tc fs fetch =
    Clean F (case_info F lower fs)
    × ((u : List ℕ) × (e : List ℕ) × (read_regular_bounded fs.output_file cfg.max_compare_file_bytes
          ≡ some u)
        × (expected_bytes cfg tc fetch ≡ graded e)
        × (compare_output lower u e tc.expected_output_type ≡ correct))

-- A case is graded as correct exactly when the monitor wrote a usable report, the output could be
-- read, the run neither failed by its exit status nor died of a signal, the expected output is at
-- hand, and the comparison passes.
pub grade_case_correct_iff :
    (F : Floats) (lower : ℕ → ℕ) (cfg : Config) (tc : TestCase) (fs : CaseFiles)
    (fetch : Option Entry)
    → ((r : CaseResult F) × (grade_case F lower cfg tc fs fetch ≡ graded r) × (r.status ≡ correct))
      ↔ Passes F lower cfg tc fs fetch
unfolding grade_case Compared
grade_case_correct_iff F lower cfg tc fs fetch = (forward, backward)
  where
    err : Text
    err = read_limited fs.error_file cfg.max_output_file_size

    text : Text
    text = read_limited fs.output_file cfg.max_output_file_size

    user : Option (List ℕ)
    user = read_regular_bounded fs.output_file cfg.max_compare_file_bytes

    forward :
        ((r : CaseResult F) × (grade_case F lower cfg tc fs fetch ≡ graded r)
          × (r.status ≡ correct))
        → Passes F lower cfg tc fs fetch
    forward (r, h, c) =
        let i = case_info F lower fs in
        let (o, g, status, _, _) =
          with_outcome_inverts F lower cfg tc i err text
            (judge_case F lower cfg tc i err user fetch) r h in
        let (clean, (u, hu, (e, he, hc))) =
          judge_case_passes F lower cfg tc i err user fetch o g (sym status ∙ c) in
        (clean, (u, e, hu, he, hc))

    backward :
        Passes F lower cfg tc fs fetch
        → (r : CaseResult F) × (grade_case F lower cfg tc fs fetch ≡ graded r)
          × (r.status ≡ correct)
    backward (clean, (u, e, hu, he, hc)) =
        let i = case_info F lower fs in
        let (o, g, done) = judge_case_of_Clean F lower cfg tc i err fetch u e clean he hc in
        (case_result_of F tc i text o, rw (hu, g), done)
