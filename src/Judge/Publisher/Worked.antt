-- ===== src/Judge/Publisher/Worked.antt =====
-- A worker at a request, and the placeholders of the client that its event takes away.
use runcodes.Prelude.{
  ℕ, ◌≤◌, ◌≡◌, refl, Bool, true, false, ◌&&◌, ◌||◌, Option, none, some, List, [], ◌∷◌, ◌++◌, any,
  length, ltb, ◌==◌, if◌then◌else◌, if_elim, arith,
}
use runcodes.Judge.Publisher.{
  PublishRequest, Tally, ArtifactState, pending, Announcement, OutputPublisher,
  output_publish_queue, output_publish_workers, record_failure, outcome, publish_outcome,
  publish_generated_files, work, work_all,
}

abbrev pub is_pending : ArtifactState → Bool
is_pending pending = true
is_pending _ = false

-- The client shows a placeholder for a case: its last event is the pending one.
abbrev pub spinning : ℕ → List Announcement → Bool
spinning id [] = false
spinning id (a ∷ told) = if a.case_id == id then is_pending a.state else spinning id told

abbrev pub has_request : ℕ → List PublishRequest → Bool
has_request id rs = any (λ r. r.test_case_id == id) rs

-- Every placeholder has a request that is queued or with a worker.
pub record Waiting (p : OutputPublisher) : Type 0 where
  pub queue_fits : length p.tasks ≤ output_publish_queue
  pub workers_fit : length p.working ≤ output_publish_workers
  pub still_open : p.closed ≡ false
  pub held :
      (id : ℕ)
      → spinning id p.told ≡ true
      → (has_request id p.working || has_request id p.tasks) ≡ true

-- The counters of a worker change, and nothing else.
pub record Same (p p' : OutputPublisher) : Type 0 where
  pub told : p'.told ≡ p.told
  pub tasks : p'.tasks ≡ p.tasks
  pub working : p'.working ≡ p.working
  pub still : p'.closed ≡ p.closed

abbrev pub Counted : OutputPublisher → OutputPublisher × ArtifactState → Type 0
Counted p r = Same p r.0 × (is_pending r.1 ≡ false)

pub outcome-Counted : (t : Tally) (p : OutputPublisher) → Counted p (outcome t p)
unfolding record_failure
outcome-Counted t p =
    let same : Same p p = record { told = refl; tasks = refl; working = refl; still = refl } in
    if_elim (Counted p) (t.exceeded && t.uploaded == 0) _ _ (λ _. (same, refl))
      (λ _.
        if_elim (Counted p) (ltb 0 t.failed_uploads) _ _
          (λ _. (record { told = refl; tasks = refl; working = refl; still = refl }, refl))
          (λ _.
            if_elim (Counted p) (t.uploaded == 0) _ _
              (λ _. (record { told = refl; tasks = refl; working = refl; still = refl }, refl))
              (λ _. (record { told = refl; tasks = refl; working = refl; still = refl }, refl))))

publish_outcome-Counted : (o : Option Tally) (p : OutputPublisher) → Counted p (publish_outcome o p)
unfolding record_failure
publish_outcome-Counted none p =
    (record { told = refl; tasks = refl; working = refl; still = refl }, refl)
publish_outcome-Counted (some t) p =
    let (s, e) = outcome-Counted t (record p { budget = t.budget }) in
    (record { told = s.told; tasks = s.tasks; working = s.working; still = s.still }, e)

-- A worker's request: its case has no placeholder afterwards, and the other cases keep theirs.
pub record Worked (r : PublishRequest) (p p' : OutputPublisher) : Type 0 where
  pub told :
      (id : ℕ) → spinning id p'.told ≡ (if r.test_case_id == id then false else spinning id p.told)
  pub tasks : p'.tasks ≡ p.tasks
  pub working : p'.working ≡ p.working
  pub still : p'.closed ≡ p.closed

pub work-Worked : (r : PublishRequest) (p : OutputPublisher) → Worked r p (work r p)
unfolding work
work-Worked r p =
    let (s, e) = publish_outcome-Counted (publish_generated_files (λ path. false) r p.budget) p in
    record {
      told = λ id. rw (e, s.told) refl;
      tasks = s.tasks;
      working = s.working;
      still = s.still;
    }

-- Behind all requests, a case has a placeholder only if it had one and none of them is its own.
pub work_all-spinning :
    (rs : List PublishRequest) (p : OutputPublisher) (id : ℕ)
    → spinning id (work_all rs p).told ≡ true
    → (spinning id p.told ≡ true) × (has_request id rs ≡ false)
unfolding work_all
work_all-spinning [] p id h = (h, refl)
work_all-spinning (r ∷ rs) p id h =
    let (s, rest) = work_all-spinning rs (work r p) id h in
    let w = (work-Worked r p).told id in (ground (arith, s, w), ground (arith, s, w, rest))

pub has_request-append :
    (id : ℕ) (rs ss : List PublishRequest)
    → has_request id (rs ++ ss) ≡ (has_request id rs || has_request id ss)
has_request-append id [] ss = refl
has_request-append id (r ∷ rs) ss = ground (arith, has_request-append id rs ss)
