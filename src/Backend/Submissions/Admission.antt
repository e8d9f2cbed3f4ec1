-- ===== src/Backend/Submissions/Admission.antt =====
-- validateExercise, validateTestCases and checkSubmissionAdmission: whom they let through.
use runcodes.Prelude.{
  ℕ, ◌<◌, ◌≤◌, ◌≡◌, refl, ◌↔◌, ◌⊎◌, inl, inr, true, false, none, arith, Bool-cases, codes, text_eq,
  text_eq-eq, text_eq_refl,
}
use runcodes.Backend.Submissions.{
  Query, failed, no_rows, row, Standing, is_staff, validate_exercise, validate_test_cases,
  max_pending_submissions_per_user, check_submission_admission,
}

-- Who teaches the class: its owner, and whoever is enrolled in it as a professor.
abbrev pub Teaches : Standing → Type 0
Teaches s = (s.is_owner ≡ true) ⊎ (s.enroll_role ≡ codes "professor")

-- The participants of the class and its teachers, and of these the students only in the open time.
pub record MaySubmit (now : ℕ) (s : Standing) : Type 0 where
  pub participant : (s.enrolled ≡ true) ⊎ (s.is_owner ≡ true)
  pub visible : Teaches s ⊎ (s.show_before ≡ true) ⊎ (s.open_date ≤ now)
  pub in_time : Teaches s ⊎ (s.expired ≡ false)

is_staff-Teaches : (s : Standing) → (is_staff s ≡ true) ↔ Teaches s
is_staff-Teaches s = (
  λ h. elim (Bool-cases s.is_owner) [
    | inl o ↦ inl o
    | inr n ↦ inr (text_eq-eq s.enroll_role (codes "professor") (ground (arith, h, n)))
  ],
  λ t. elim t [
    | inl o ↦ ground (arith, o)
    | inr e ↦
        (let same : text_eq s.enroll_role (codes "professor") ≡ true =
            rw e (text_eq_refl (codes "professor")) in
          ground (arith, same))
  ],
)

-- validateExercise on an exercise that exists lets a user through exactly when the user owns the
-- class or is enrolled in it, and, without being its owner or one of its professors, only when the
-- exercise is shown before its open date or past it, and its deadline has not passed.
pub validate_exercise_iff :
    (now : ℕ) (s : Standing) → (validate_exercise now (row s) ≡ none) ↔ MaySubmit now s
unfolding validate_exercise
validate_exercise_iff now s =
    let staff = is_staff-Teaches s in
    (
      λ h. elim (Bool-cases (is_staff s)) [
        | inl t ↦ record {
          participant = ground (arith, h);
          visible = inl (staff.0 t);
          in_time = inl (staff.0 t);
        }
        | inr f ↦ record {
          participant = ground (arith, h);
          visible = inr (ground (arith, h, f));
          in_time = inr (ground (arith, h, f));
        }
      ],
      λ m. passes (seen staff m.visible) (in_time staff m.in_time) m.participant,
    )
  where
    seen :
        ((is_staff s ≡ true) ↔ Teaches s)
        → Teaches s ⊎ (s.show_before ≡ true) ⊎ (s.open_date ≤ now)
        → (is_staff s ≡ true) ⊎ (s.show_before ≡ true) ⊎ (s.open_date ≤ now)
    seen staff (inl t) = inl (staff.1 t)
    seen staff (inr x) = inr x

    in_time :
        ((is_staff s ≡ true) ↔ Teaches s)
        → Teaches s ⊎ (s.expired ≡ false)
        → (is_staff s ≡ true) ⊎ (s.expired ≡ false)
    in_time staff (inl t) = inl (staff.1 t)
    in_time staff (inr x) = inr x

    passes :
        (is_staff s ≡ true) ⊎ (s.show_before ≡ true) ⊎ (s.open_date ≤ now)
        → (is_staff s ≡ true) ⊎ (s.expired ≡ false)
        → (s.enrolled ≡ true) ⊎ (s.is_owner ≡ true)
        → validate_exercise now (row s) ≡ none
    passes v i p = ground (arith, v, i, p)

pub validate_exercise_row :
    (now : ℕ) (q : Query Standing) → validate_exercise now q ≡ none → (s : Standing) × (q ≡ row s)
unfolding validate_exercise
validate_exercise_row now failed h = cc
validate_exercise_row now no_rows h = cc
validate_exercise_row now (row s) h = (s, refl)

pub validate_test_cases_iff :
    (q : Query ℕ) → (validate_test_cases q ≡ none) ↔ ((n : ℕ) × (q ≡ row n) × (0 < n))
unfolding validate_test_cases
validate_test_cases_iff failed = ((λ h. cc), (λ (n, e, p). cc))
validate_test_cases_iff no_rows = ((λ h. cc), (λ (n, e, p). cc))
validate_test_cases_iff (row c) =
    ((λ h. (c, refl, ground (arith, h))), (λ (n, e, p). ground (arith, e, p)))

pub check_submission_admission_iff :
    (depth : ℕ) (pending queued : Query ℕ)
    → (check_submission_admission depth pending queued ≡ none) ↔ (
        (p : ℕ) × (q : ℕ) × (pending ≡ row p)
        × (queued ≡ row q)
        × (p < max_pending_submissions_per_user)
        × (q < depth))
unfolding check_submission_admission
check_submission_admission_iff depth failed queued = ((λ h. cc), (λ (p, q, e, f, x, y). cc))
check_submission_admission_iff depth no_rows queued = ((λ h. cc), (λ (p, q, e, f, x, y). cc))
check_submission_admission_iff depth (row c) failed =
    ((λ h. ground (arith, h)), (λ (p, q, e, f, x, y). cc))
check_submission_admission_iff depth (row c) no_rows =
    ((λ h. ground (arith, h)), (λ (p, q, e, f, x, y). cc))
check_submission_admission_iff depth (row c) (row d) = (
  (λ h. (c, d, refl, refl, ground (arith, h), ground (arith, h))),
  (λ (p, q, e, f, x, y). ground (arith, e, f, x, y)),
)
