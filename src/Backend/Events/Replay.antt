-- ===== src/Backend/Events/Replay.antt =====
-- An event that is written twice leaves what it leaves when written once.
use runcodes.Prelude.{
  Option, ◌≡◌, refl, ap, ◌∙◌, Bool, true, List, [], ◌∷◌, Text, inl, inr, Bool-cases, ==_refl,
}
use runcodes.Backend.Events.{
  EventType, status, compilation, case_result, timings, artifact, finished, error, alert, unknown,
  Event, CommitRow, Graded, is_terminal_status, guarded, grade_by, store_graded, set_status,
  set_compilation, set_finished, set_case_result, set_artifact, upsert, non_empty_or, put_status,
  put_compilation, put_finished, same_case, case_row, same_artifact, artifact_row,
}

upsert_twice {ℓ} :
    {R : Type ℓ} (same : R → R → Bool) (r : R) (rows : List R)
    → same r r ≡ true
    → upsert same r (upsert same r rows) ≡ upsert same r rows
unfolding upsert
upsert_twice same r [] h = rw h refl
upsert_twice same r (x ∷ xs) h = elim (Bool-cases (same x r)) [
  | inl t ↦ rw (t, h) refl
  | inr f ↦ rw (f, f, upsert_twice same r xs h) refl
]

guarded_twice :
    (f : CommitRow → CommitRow) (r : CommitRow)
    → f (f r) ≡ f r
    → guarded f (guarded f r) ≡ guarded f r
guarded_twice f r h = elim (Bool-cases (is_terminal_status r.status)) [
  | inl t ↦ rw (t, t) refl
  | inr e ↦ rw e (elim (Bool-cases (is_terminal_status (f r).status)) [
    | inl t' ↦ rw t' refl
    | inr e' ↦ rw (e', h) refl
  ])
]

non_empty_or_twice :
    (s : Text) (o : Option Text) → non_empty_or s (non_empty_or s o) ≡ non_empty_or s o
non_empty_or_twice [] o = refl
non_empty_or_twice (c ∷ s) o = refl

put_finished_twice :
    (ev : Event) (r : CommitRow) → put_finished ev (put_finished ev r) ≡ put_finished ev r
put_finished_twice ev r =
    ap (λ m. record (put_finished ev (put_finished ev r)) { compilation_message = m })
      (non_empty_or_twice ev.compilation_message r.compilation_message)
    ∙ ap (λ m. record (put_finished ev r) { compilation_error = m })
        (non_empty_or_twice ev.compilation_error r.compilation_error)

grade_by_twice :
    (t : EventType) (ev : Event) (g : Graded) → grade_by t ev (grade_by t ev g) ≡ grade_by t ev g
unfolding set_status set_compilation set_finished set_case_result set_artifact
grade_by_twice status ev g =
    ap (λ r. record g { commit = r }) (guarded_twice (put_status ev) g.commit refl)
grade_by_twice compilation ev g =
    ap (λ r. record g { commit = r }) (guarded_twice (put_compilation ev) g.commit refl)
grade_by_twice case_result ev g = elim (Bool-cases (is_terminal_status g.commit.status)) [
  | inl t ↦ rw (t, t) refl
  | inr e ↦
      rw (e, e)
        (ap (λ rs. record g { results = rs })
          (upsert_twice same_case (case_row ev) g.results (==_refl ev.test_case_id)))
]
grade_by_twice artifact ev g =
    ap (λ rs. record g { artifacts = rs })
      (upsert_twice same_artifact (artifact_row ev) g.artifacts (==_refl ev.test_case_id))
grade_by_twice finished ev g =
    ap (λ r. record g { commit = r })
      (guarded_twice (put_finished ev) g.commit (put_finished_twice ev g.commit))
grade_by_twice timings ev g = refl
grade_by_twice error ev g = refl
grade_by_twice alert ev g = refl
grade_by_twice unknown ev g = refl

-- What the judge replays after a lost connection changes nothing that is graded.
pub store_graded_twice :
    (ev : Event) (g : Graded) → store_graded ev (store_graded ev g) ≡ store_graded ev g
unfolding store_graded
store_graded_twice ev g = grade_by_twice ev.type ev g
