-- ===== src/Backend/Submissions/Creation/Outcome.antt =====
-- What a submission leaves behind, accepted or rejected.
use runcodes.Prelude.{
  ℕ, ◌<◌, ◌≡◌, refl, sym, ap, ◌∙◌, inl, inr, ◌⊎◌, if_elim, Bool, true, false, not, Option, none,
  some, List, [], ◌∷◌, keep, All, arith, Text, text_eq, text_eq_refl, Bool-cases,
}
use runcodes.Backend.Submissions.{
  row, server, SubmissionError, Standing, validate_exercise, validate_test_cases,
  check_submission_admission, max_pending_submissions_per_user, FileType, any_type, matched_type,
  type_error, resolve_file_type,
}
use runcodes.Backend.Submissions.Admission.{
  MaySubmit, validate_exercise_iff, validate_exercise_row, validate_test_cases_iff,
  check_submission_admission_iff,
}
use runcodes.Backend.Submissions.Creation.{
  SubmissionInput, UploadAnswer, uploaded, upload_failed, CommitAnswer, committed, commit_failed,
  Answers, Store, if_inserted, if_uploaded, if_committed, Created, rejected, accepted,
  build_commit_key, delete_source, unless, new_commit, register, admit, with_type,
  create_submission,
}

keep_absent :
    (key : Text) (objects : List Text)
    → All (λ o. text_eq o key ≡ false) objects
    → keep (λ o. not (text_eq o key)) objects ≡ objects
keep_absent key [] h = refl
keep_absent key (o ∷ os) (h, hs) = rw (h, keep_absent key os hs) refl

abbrev pub is_rejected : Created → Bool
is_rejected (rejected e) = true
is_rejected (accepted id) = false

module _ (input : SubmissionInput) (a : Answers) where
  abbrev pub commit_key : Text
  commit_key = build_commit_key a.uuid input.filename

  abbrev pub with_source : Store → Store
  with_source st = record st { objects = commit_key ∷ st.objects }

  -- The same objects, but for the new source where the storage did not remove it.
  abbrev pub SourceGone : Store → Store → Type 0
  SourceGone st st' =
      (st'.objects ≡ st.objects) ⊎ ((a.removed ≡ false) × (st'.objects ≡ commit_key ∷ st.objects))

  -- What a rejected submission leaves: nothing; the object of an upload that stored it and reported an
  -- error; or the row of a commit that was done and reported an error.
  abbrev pub AfterRejection : Store → Store → Type 0
  AfterRejection st st' =
      (st'.consumed ≡ st.consumed)
      × (((st'.commits ≡ st.commits) × SourceGone st st')
          ⊎ ((a.upload ≡ upload_failed true)
              × (st'.commits ≡ st.commits)
              × (st'.objects ≡ commit_key ∷ st.objects))
          ⊎ ((file_type : Option ℕ) × (id : ℕ) × (a.commit ≡ commit_failed true)
              × (a.inserted ≡ some id)
              × (st'.commits ≡ new_commit input a commit_key file_type id ∷ st.commits)
              × SourceGone st st'))

  abbrev LeavesLittle : Store → Created × Store → Type 0
  LeavesLittle st r = is_rejected r.0 ≡ true → AfterRejection st r.1

  -- The store behind the removal of the source.
  abbrev undone : Store → Store
  undone st = delete_source a.removed commit_key (with_source st)

  undone_lem :
      (st : Store)
      → All (λ o. text_eq o commit_key ≡ false) st.objects
      → ((undone st).consumed ≡ st.consumed)
        × ((undone st).commits ≡ st.commits)
        × SourceGone st (undone st)
  unfolding delete_source
  undone_lem st fresh = elim (Bool-cases a.removed) [
    | inl gone ↦
        rw (gone, text_eq_refl commit_key)
          (refl, refl, inl (keep_absent commit_key st.objects fresh))
    | inr kept ↦ rw kept (refl, refl, inr (refl, refl))
  ]

  register_rejected :
      (file_type : Option ℕ) (st : Store)
      → All (λ o. text_eq o commit_key ≡ false) st.objects
      → LeavesLittle st (register input a commit_key file_type (with_source st))
  unfolding register
  register_rejected file_type st fresh =
      let (consumed, commits, gone) = undone_lem st fresh in
      let nothing : AfterRejection st (undone st) = (consumed, inl (commits, gone)) in
      if_elim (LeavesLittle st) (not a.begun) _ _ (λ _ _. nothing)
        (λ _. at_insert nothing consumed commits gone a.inserted refl)
    where
      at_commit :
          AfterRejection st (undone st)
          → (undone st).consumed ≡ st.consumed
          → (undone st).commits ≡ st.commits
          → SourceGone st (undone st)
          → (id : ℕ) (c : CommitAnswer) (rest : Store) → a.inserted ≡ some id
          → a.commit ≡ c
          → LeavesLittle st (
              if_committed c
                (new_commit input a commit_key file_type id)
                (undone st)
                (accepted id, rest))
      at_commit nothing same commits gone id committed rest i e h = cc h
      at_commit nothing same commits gone id (commit_failed true) rest i e h = (
        same,
        inr (
            inr (
              file_type,
              id,
              e,
              i,
              ap (λ t. new_commit input a commit_key file_type id ∷ t) commits,
              gone,
            )),
      )
      at_commit nothing same commits gone id (commit_failed false) rest i e h = nothing

      at_snapshot :
          (o : Option SubmissionError) (rest : Created × Store)
          → AfterRejection st (undone st)
          → LeavesLittle st rest
          → LeavesLittle st (unless o (undone st) rest)
      at_snapshot (some e) rest nothing more h = nothing
      at_snapshot none rest nothing more h = more h

      at_insert :
          AfterRejection st (undone st)
          → (undone st).consumed ≡ st.consumed
          → (undone st).commits ≡ st.commits
          → SourceGone st (undone st)
          → (o : Option ℕ) → a.inserted ≡ o
          → LeavesLittle st (
              if_inserted o
                (rejected server, undone st)
                (λ id. unless a.snapshot (undone st) (
                  if_committed a.commit (new_commit input a commit_key file_type id) (undone st) (
                    accepted id,
                    record (with_source st) {
                      commits = new_commit input a commit_key file_type id ∷ st.commits;
                      consumed = id ∷ st.consumed;
                    },
                  ))))
      at_insert nothing same commits gone none i h = nothing
      at_insert nothing same commits gone (some id) i h =
          at_snapshot a.snapshot _ nothing
            (at_commit nothing same commits gone id a.commit _ i refl) h

  unless_rejected :
      (o : Option SubmissionError) (st : Store) (rest : Created × Store)
      → LeavesLittle st rest
      → LeavesLittle st (unless o st rest)
  unless_rejected (some e) st rest go h = (refl, inl (refl, inl refl))
  unless_rejected none st rest go h = go h

  upload_rejected :
      (u : UploadAnswer) (st : Store) (rest : Created × Store)
      → a.upload ≡ u
      → LeavesLittle st rest
      → LeavesLittle st (if_uploaded u commit_key st rest)
  upload_rejected uploaded st rest e go h = go h
  upload_rejected (upload_failed true) st rest e go h = (refl, inr (inl (e, refl, refl)))
  upload_rejected (upload_failed false) st rest e go h = (refl, inl (refl, inl refl))

  admit_rejected :
      (depth : ℕ) (file_type : Option ℕ) (st : Store)
      → All (λ o. text_eq o commit_key ≡ false) st.objects
      → LeavesLittle st (admit input a depth file_type st)
  unfolding admit
  admit_rejected depth file_type st fresh =
      unless_rejected (check_submission_admission depth a.pending a.queued) st _ (
        if_elim (LeavesLittle st) (not a.judge_ready) _ _ (λ _ _. (refl, inl (refl, inl refl)))
          (λ _. upload_rejected a.upload st _ refl (register_rejected file_type st fresh)))

  with_type_rejected :
      (depth : ℕ) (file_type : FileType) (st : Store)
      → All (λ o. text_eq o commit_key ≡ false) st.objects
      → LeavesLittle st (with_type input a depth file_type st)
  with_type_rejected depth any_type st fresh h = admit_rejected depth none st fresh h
  with_type_rejected depth (matched_type i) st fresh h = admit_rejected depth (some i) st fresh h
  with_type_rejected depth (type_error e) st fresh h = (refl, inl (refl, inl refl))

  unless-accepted :
      (o : Option SubmissionError) (st : Store) (rest : Created × Store) (id : ℕ)
      → (unless o st rest).0 ≡ accepted id
      → (o ≡ none) × (unless o st rest ≡ rest)
  unless-accepted (some e) st rest id h = cc
  unless-accepted none st rest id h = (refl, refl)

-- A submission that is rejected, at whichever step, leaves no consumed stream, and, where its key is
-- new to the storage: no commit and no object, unless the storage did not carry out the removal; or the
-- object of an upload that stored it and reported an error, which nothing removes; or the row of a
-- commit that was done and reported an error, whose source is removed where the storage does so.
pub create_submission_rejected :
    (input : SubmissionInput) (a : Answers) (lower : ℕ → ℕ) (now depth : ℕ) (st : Store)
    → All (λ o. text_eq o (commit_key input a) ≡ false) st.objects
    → is_rejected (create_submission input a lower now depth st).0 ≡ true
    → AfterRejection input a st (create_submission input a lower now depth st).1
unfolding create_submission
create_submission_rejected input a lower now depth st fresh =
    unless_rejected input a (validate_exercise now a.standing) st _ (
      unless_rejected input a (validate_test_cases a.cases) st _ (
        with_type_rejected input a depth (resolve_file_type lower input.filename a.file_types) st
          fresh))

-- What a submission has to satisfy, in terms of what the queries gave.
pub record Admissible (now depth : ℕ) (a : Answers) : Type 0 where
  pub standing : (s : Standing) × (a.standing ≡ row s) × MaySubmit now s
  pub has_cases : (n : ℕ) × (a.cases ≡ row n) × (0 < n)
  pub has_room :
      (p : ℕ) × (q : ℕ) × (a.pending ≡ row p)
      × (a.queued ≡ row q)
      × (p < max_pending_submissions_per_user)
      × (q < depth)
  pub judge_ready : a.judge_ready ≡ true

-- The language that the commit is stored with.
abbrev pub stored_type : FileType → Option (Option ℕ)
stored_type any_type = some none
stored_type (matched_type i) = some (some i)
stored_type (type_error e) = none

module _ (input : SubmissionInput) (a : Answers) where
  abbrev pub registered : Option ℕ → ℕ → Store → Store
  registered file_type id st = record st {
    objects = commit_key input a ∷ st.objects;
    commits = new_commit input a (commit_key input a) file_type id ∷ st.commits;
    consumed = id ∷ st.consumed;
  }

  register-accepted :
      (file_type : Option ℕ) (id : ℕ) (st : Store)
      → (register input a (commit_key input a) file_type (with_source input a st)).0 ≡ accepted id
      → (register input a (commit_key input a) file_type (with_source input a st)).1
        ≡ registered file_type id st
  unfolding register
  register-accepted file_type id st h = ground (arith, h)

  admit-accepted :
      (depth : ℕ) (file_type : Option ℕ) (id : ℕ) (st : Store)
      → (admit input a depth file_type st).0 ≡ accepted id
      → (check_submission_admission depth a.pending a.queued ≡ none)
        × (a.judge_ready ≡ true)
        × ((admit input a depth file_type st).1 ≡ registered file_type id st)
  unfolding admit
  admit-accepted depth file_type id st h =
      (ground (arith, h), ground (arith, h), ground (arith, h, register-accepted file_type id st))

  with_type-accepted :
      (depth : ℕ) (t : FileType) (id : ℕ) (st : Store)
      → (with_type input a depth t st).0 ≡ accepted id
      → (check_submission_admission depth a.pending a.queued ≡ none)
        × (a.judge_ready ≡ true)
        × ((file_type : Option ℕ) × (stored_type t ≡ some file_type)
            × ((with_type input a depth t st).1 ≡ registered file_type id st))
  with_type-accepted depth any_type id st h =
      let (x, y, z) = admit-accepted depth none id st h in (x, y, (none, refl, z))
  with_type-accepted depth (matched_type i) id st h =
      let (x, y, z) = admit-accepted depth (some i) id st h in (x, y, (some i, refl, z))
  with_type-accepted depth (type_error e) id st h = cc

-- A submission that is accepted satisfied every check (the user may submit, the exercise has cases,
-- the user has fewer than two unfinished commits, the queue is not full and the judge is ready), its
-- file type is one that the exercise accepts, and it leaves one queued commit with its source and a
-- consumed stream, all else as it was.
pub create_submission-accepted :
    (input : SubmissionInput) (a : Answers) (lower : ℕ → ℕ) (now depth id : ℕ) (st : Store)
    → (create_submission input a lower now depth st).0 ≡ accepted id
    → Admissible now depth a
      × ((file_type : Option ℕ) × (stored_type (resolve_file_type lower input.filename a.file_types)
            ≡ some file_type)
          × ((create_submission input a lower now depth st).1 ≡ registered input a file_type id st))
unfolding create_submission
create_submission-accepted input a lower now depth id st h =
    let t = resolve_file_type lower input.filename a.file_types in
    let typed = with_type input a depth t st in
    let cased = unless (validate_test_cases a.cases) st typed in
    let (standing, e₁) = unless-accepted input a (validate_exercise now a.standing) st cased id h in
    let (cases, e₂) =
      unless-accepted input a (validate_test_cases a.cases) st typed id
        (ap (λ r. r.0) (sym e₁) ∙ h) in
    let (room, ready, (file_type, stored, same)) =
      with_type-accepted input a depth t id st (ap (λ r. r.0) (sym (e₁ ∙ e₂)) ∙ h) in
    (
      record {
        standing =
            (let (s, found) = validate_exercise_row now a.standing standing in
              (
                s,
                found,
                (validate_exercise_iff now s).0 (ap (validate_exercise now) (sym found) ∙ standing),
              ));
        has_cases = (validate_test_cases_iff a.cases).0 cases;
        has_room = (check_submission_admission_iff depth a.pending a.queued).0 room;
        judge_ready = ready;
      },
      (file_type, stored, ap (λ r. r.1) (e₁ ∙ e₂) ∙ same),
    )
