-- ===== src/Judge/Publisher/Settled.antt =====
-- The placeholders of the client: each is taken away by the end of the run.
use runcodes.Prelude.{
  ℕ, zero, suc, ◌<◌, ◌≡◌, refl, ap, ◌∙◌, true, false, not, ◌||◌, Option, none, some, List, [], ◌∷◌,
  ◌++◌, length, length-append, ltb, ◌==◌, if_elim, arith, Bool-cases, inl, inr,
}
use runcodes.Judge.Budget.{ArtifactBudget, is_exhausted}
use runcodes.Judge.Publisher.{
  PublishRequest, ArtifactState, pending, failed, Reason, OutputPublisher, new_output_publisher,
  announce, output_publish_queue, output_publish_workers, work, submit, submitted, queue_request,
  FinishedCase, case_publish_request, queue_case_outputs, work_all, close_publisher, Step,
  case_finishes, takes, completes, take_request, pick, step_publisher, run_publisher,
  budget_exceeded, storage_unavailable,
}
use runcodes.Judge.Publisher.Worked.{
  is_pending, spinning, has_request, Waiting, work-Worked, work_all-spinning, has_request-append,
}

-- A case that is announced, and refused or failed at once, has no placeholder.
announce-Waiting :
    (p : OutputPublisher) (id : ℕ) (s : ArtifactState)
    → is_pending s ≡ false
    → Waiting p
    → Waiting (announce id s p)
announce-Waiting p id s e w = record {
  queue_fits = w.queue_fits;
  workers_fit = w.workers_fit;
  still_open = w.still_open;
  held = λ k h. w.held k (ground (arith, h, e));
}

refused-Waiting :
    (p : OutputPublisher) (id : ℕ) (r : Reason)
    → Waiting p
    → Waiting (announce id (failed r) (announce id pending p))
refused-Waiting p id r w = record {
  queue_fits = w.queue_fits;
  workers_fit = w.workers_fit;
  still_open = w.still_open;
  held = λ k h. w.held k (ground (arith, h));
}

accepted-Waiting :
    (p : OutputPublisher) (req : PublishRequest)
    → length p.tasks < output_publish_queue
    → Waiting p
    → Waiting (record (announce req.test_case_id pending p) { tasks = p.tasks ++ req ∷ [] })
accepted-Waiting p req room w = record {
  queue_fits = omega (arith, room, length-append p.tasks (req ∷ []));
  workers_fit = w.workers_fit;
  still_open = w.still_open;
  held = λ k h. grind (arith, h, w.held k, has_request-append k p.tasks (req ∷ []));
}

submit-Waiting :
    (p : OutputPublisher) (req : PublishRequest)
    → Waiting p
    → Waiting (submitted req.test_case_id (submit req (announce req.test_case_id pending p)))
unfolding submit
submit-Waiting p req w =
    let refused = refused-Waiting p req.test_case_id storage_unavailable w in
    if_elim (λ r. Waiting (submitted req.test_case_id r)) (p.closed || p.degraded) _ _
      (λ _. refused)
      (λ _.
        if_elim (λ r. Waiting (submitted req.test_case_id r))
          (ltb (length p.tasks) output_publish_queue) _ _
          (λ e. accepted-Waiting p req (ground (arith, e)) w) (λ _. refused))

queue_case_outputs-Waiting :
    (max : ℕ) (c : FinishedCase) (p : OutputPublisher)
    → Waiting p
    → Waiting (queue_case_outputs max c p)
unfolding queue_case_outputs
queue_case_outputs-Waiting max c p w =
    if_elim Waiting (not c.show_user_output) _ _ (λ _. w)
      (λ _. requested (case_publish_request max c))
  where
    requested :
        (o : Option PublishRequest) → Waiting (elim o [ none ↦ p | some req ↦ queue_request req p ])
    requested none = w
    requested (some req) =
        if_elim Waiting (is_exhausted p.budget) _ _
          (λ _. announce-Waiting p req.test_case_id (failed budget_exceeded) refl w)
          (λ _. submit-Waiting p req w)

take_request-Waiting :
    (p : OutputPublisher) (rs : List PublishRequest)
    → p.tasks ≡ rs
    → length p.working < output_publish_workers
    → Waiting p
    → Waiting (take_request rs p)
take_request-Waiting p [] e room w = w
take_request-Waiting p (r ∷ rs) e room w = record {
  queue_fits = omega (arith, ap length e, w.queue_fits);
  workers_fit = omega (arith, room);
  still_open = w.still_open;
  held = λ k h. grind (arith, rw e at (w.held k h));
}

-- The request at a place, with the others, makes up the list.
abbrev Splits : List PublishRequest → Option (PublishRequest × List PublishRequest) → Type 0
Splits rs none = Unit
Splits rs (some (r, qs)) =
    (suc (length qs) ≡ length rs)
    × ((id : ℕ) → has_request id rs ≡ ((r.test_case_id == id) || has_request id qs))

below-Splits :
    (x : PublishRequest) (rs : List PublishRequest)
    (o : Option (PublishRequest × List PublishRequest))
    → Splits rs o
    → Splits (x ∷ rs) (elim o [ none ↦ none | some (q, qs) ↦ some (q, x ∷ qs) ])
below-Splits x rs none s = tt
below-Splits x rs (some (q, qs)) (n, h) = (omega (arith, n), λ id. ground (arith, h id))

pick-Splits : (i : ℕ) (rs : List PublishRequest) → Splits rs (pick i rs)
unfolding pick
pick-Splits i [] = tt
pick-Splits zero (x ∷ rs) = (refl, λ id. refl)
pick-Splits (suc i) (x ∷ rs) = below-Splits x rs (pick i rs) (pick-Splits i rs)

completed-Waiting :
    (p : OutputPublisher) (o : Option (PublishRequest × List PublishRequest))
    → Splits p.working o
    → Waiting p
    → Waiting (elim o [ none ↦ p | some (r, rs) ↦ work r (record p { working = rs }) ])
completed-Waiting p none s w = w
completed-Waiting p (some (r, rs)) (n, h) w =
    let d = work-Worked r (record p { working = rs }) in
    record {
      queue_fits = rw d.tasks w.queue_fits;
      workers_fit = rw d.working (omega (arith, n, w.workers_fit));
      still_open = d.still ∙ w.still_open;
      held = λ k t. rw (d.tasks, d.working) (grind (arith, d.told k, t, w.held k, h k));
    }

step_publisher-Waiting : (s : Step) (p : OutputPublisher) → Waiting p → Waiting (step_publisher s p)
unfolding step_publisher
step_publisher-Waiting (case_finishes max c) p w = queue_case_outputs-Waiting max c p w
step_publisher-Waiting takes p w =
    if_elim Waiting (ltb (length p.working) output_publish_workers) _ _
      (λ e. take_request-Waiting p p.tasks refl (ground (arith, e)) w) (λ _. w)
step_publisher-Waiting (completes i) p w =
    completed-Waiting p (pick i p.working) (pick-Splits i p.working) w

run_from-Waiting : (ss : List Step) (p : OutputPublisher) → Waiting p → Waiting (run_publisher ss p)
unfolding run_publisher
run_from-Waiting [] p w = w
run_from-Waiting (s ∷ ss) p w =
    run_from-Waiting ss (step_publisher s p) (step_publisher-Waiting s p w)

-- From a new publisher, whichever cases finish and however its workers proceed, at most 8 requests are
-- queued and 4 are with workers, and each case that the client shows a placeholder for has a request
-- that is queued or with a worker.
pub run_publisher-Waiting :
    (ss : List Step) (b : ArtifactBudget) → Waiting (run_publisher ss (new_output_publisher b))
run_publisher-Waiting ss b = run_from-Waiting ss (new_output_publisher b) (record {
  queue_fits = omega arith;
  workers_fit = omega arith;
  still_open = refl;
  held = λ id h. cc;
})

closed_spinning :
    (p : OutputPublisher) (id : ℕ)
    → Waiting p
    → (spinning id (work_all (p.working ++ p.tasks) p).told ≡ true → true ≡ false)
closed_spinning p id w h =
    let (s, none_left) = work_all-spinning (p.working ++ p.tasks) p id h in
    let held = w.held id s in
    ground (arith, held, none_left, has_request-append id p.working p.tasks)

-- From a new publisher, whichever cases finish and however its workers proceed, once it is closed
-- nothing is queued or with a worker, and the client shows no placeholder for any case: each case that
-- was announced as pending has been announced as ready or failed after that.
pub run_publisher_settles :
    (ss : List Step) (b : ArtifactBudget) (id : ℕ)
    → ((close_publisher (run_publisher ss (new_output_publisher b))).tasks ≡ [])
      × ((close_publisher (run_publisher ss (new_output_publisher b))).working ≡ [])
      × (spinning id (close_publisher (run_publisher ss (new_output_publisher b))).told ≡ false)
unfolding close_publisher run_publisher
run_publisher_settles ss b id =
    let p = run_publisher ss (new_output_publisher b) in
    let w = run_publisher-Waiting ss b in
    rw w.still_open (
      refl,
      refl,
      elim (Bool-cases (spinning id (work_all (p.working ++ p.tasks) p).told)) [
        | inl h ↦ cc (closed_spinning p id w h)
        | inr h ↦ h
      ],
    )
