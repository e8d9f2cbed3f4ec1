-- ===== src/Judge/Run/Ending.antt =====
-- Process: every run ends with its timings and one `finished` event, and the result of a case is
-- published once.
use runcodes.Prelude.{
  ℕ, ◌+◌, ◌≤◌, ◌≡◌, refl, Bool, true, false, Option, none, some, List, [], ◌∷◌, ◌++◌, map, Text,
  codes, arith, Floats,
}
use runcodes.Judge.Model.{CaseResult, RunStatus, compilation_error, server_error, timed_out}
use runcodes.Judge.Grading.{Config, graded, grade_all, lookup_result, score_run}
use runcodes.Judge.Grading.Run.{is_graded, score_run_status, grade_all_ids}
use runcodes.Judge.Run.{
  RunError, classify, Job, Published, status, compilation, error, grade_at, RunOutcome, in_order,
  finish, finish_failed, remaining, startup_alert, root_artifact, scored, report_outcome, fail_run,
  run_container, run_events, after_grading,
}
use runcodes.Judge.Run.Shape.{
  Streamed, preamble, running, TimedOut, Blamed, Shape, halted, rejected, interrupted, suite_graded,
  run_container-Shape,
}
use runcodes.Judge.Run.Counts.{
  id_count, case_ids, Distinct, finished_count, result_count, result_count-append,
  finished_count-in_order, finished_count-remaining, hits, result_count-remaining,
  result_count-in_order,
}
use runcodes.Judge.Run.Ends.{
  Ends, Ends-append, Ends-finish, quiet_alert, not_graded, score_not_timeout, failing, told-failing,
}

module _ (F : Floats) (lower : ℕ → ℕ) (cfg : Config) (quoted : Text → Text) where
  abbrev Event : Type 0
  Event = Published F lower cfg quoted

  abbrev ended : List Event → ℕ
  ended evs = finished_count F lower cfg quoted evs

  abbrev told : ℕ → List Event → ℕ
  told id evs = result_count F lower cfg quoted id evs

  module _ (j : Job) where
    -- What the events of a run tell: their end, and the results of the cases.
    pub record Told (evs : List Event) : Type 0 where
      pub verdict : RunStatus
      pub ends : Ends F lower cfg quoted verdict evs
      pub blame : verdict ≡ timed_out → TimedOut F lower cfg quoted j
      pub at_most_once : (id : ℕ) → Distinct j.cases → told id evs ≤ 1
      pub all_told :
          (id : ℕ)
          → Distinct j.cases
          → is_graded verdict ≡ true
          → told id evs ≡ id_count id (case_ids j.cases)

    Told-cons :
        (ev : Event) (evs : List Event)
        → ended (ev ∷ []) ≡ 0
        → ((id : ℕ) → told id (ev ∷ []) ≡ 0)
        → Told evs
        → Told (ev ∷ evs)
    Told-cons ev evs h c t = record {
      verdict = t.verdict;
      ends = Ends-append F lower cfg quoted t.verdict (ev ∷ []) evs h t.ends;
      blame = t.blame;
      at_most_once = λ id d. omega (arith, c id, t.at_most_once id d);
      all_told = λ id d g. omega (arith, c id, t.all_told id d g);
    }

    -- A run that failed behind some events.
    failure-Told :
        (wait : Text) (xs : List Event) (msg err : Text) (e : RunError)
        → ended xs ≡ 0
        → ((id : ℕ) → Distinct j.cases → told id xs ≤ 1)
        → Blamed F lower cfg quoted j e
        → Told (xs ++ failing F lower cfg quoted wait msg err e)
    failure-Told wait xs msg err e h once b = record {
      verdict = classify e;
      ends = Ends-append F lower cfg quoted (classify e) xs _ h (
          Ends-append F lower cfg quoted (classify e) (startup_alert F lower cfg quoted e) _
            (quiet_alert F lower cfg quoted e)
            (Ends-append F lower cfg quoted (classify e) (error _ ∷ []) _ refl
              (Ends-finish F lower cfg quoted (classify e) 0 (F.literal 0 0) msg err)));
      blame = b;
      at_most_once = λ id d. omega (
        arith,
        once id d,
        told-failing F lower cfg quoted id wait msg err e,
        result_count-append F lower cfg quoted id xs (failing F lower cfg quoted wait msg err e),
      );
      all_told = λ id d g. cc (not_graded F lower cfg quoted e g);
    }

    told_suite :
        (id : ℕ) (msg : Text) (rs : List (CaseResult F))
        → Streamed F lower cfg quoted j rs
        → (told id (running F lower cfg quoted j msg ++ in_order F lower cfg quoted rs)
            ≡ hits F lower cfg quoted (lookup_result F rs id))
          × (hits F lower cfg quoted (lookup_result F rs id) ≤ id_count id (case_ids j.cases))
    told_suite id msg rs s =
        let (n, le) = result_count-in_order F lower cfg quoted j id rs s in (omega (arith, n), le)

    ended_suite :
        (msg : Text) (rs : List (CaseResult F))
        → ended (running F lower cfg quoted j msg ++ in_order F lower cfg quoted rs) ≡ 0
    ended_suite msg rs = omega (arith, finished_count-in_order F lower cfg quoted rs)

    -- What follows the results of a run that was graded.
    abbrev closing : RunOutcome F lower cfg quoted → List Event
    closing o =
        root_artifact F lower cfg quoted j.root_uploads
        ++ scored F lower cfg quoted o (score_run F j.cases o.results)

    ended_artifact : (b : Bool) → ended (root_artifact F lower cfg quoted b) ≡ 0
    ended_artifact true = refl
    ended_artifact false = refl

    told-closing : (id : ℕ) (o : RunOutcome F lower cfg quoted) → told id (closing o) ≡ 0
    unfolding finish
    told-closing id o = at j.root_uploads
      where
        at :
            (b : Bool)
            → told id (
                root_artifact F lower cfg quoted b
                ++ scored F lower cfg quoted o (score_run F j.cases o.results))
              ≡ 0
        at true = refl
        at false = refl

    Ends-closing :
        (o : RunOutcome F lower cfg quoted)
        → Ends F lower cfg quoted (score_run F j.cases o.results).2 (closing o)
    Ends-closing o =
        let r = score_run F j.cases o.results in
        Ends-append F lower cfg quoted r.2 (root_artifact F lower cfg quoted j.root_uploads) _
          (ended_artifact j.root_uploads)
          (Ends-finish F lower cfg quoted r.2 r.0 r.1 o.message o.compile_error)

    -- The ids of the results, streamed or graded afterwards, are those of the cases.
    result_ids :
        (rs all_results : List (CaseResult F))
        → grade_all F (grade_at F lower cfg quoted j.stopped) rs j.cases ≡ graded all_results
        → map (λ r. r.test_case_id) all_results ≡ case_ids j.cases
    result_ids rs all_results g =
        grade_all_ids F lower cfg j.stopped.files j.stopped.fetch rs j.cases all_results g

    told-remaining :
        (id : ℕ) (rs all_results : List (CaseResult F))
        → grade_all F (grade_at F lower cfg quoted j.stopped) rs j.cases ≡ graded all_results
        → (hits F lower cfg quoted (lookup_result F rs id)
            + told id (remaining F lower cfg quoted rs all_results))
          ≡ elim (lookup_result F rs id) [ none ↦ id_count id (case_ids j.cases) | some _ ↦ 1 ]
    told-remaining id rs all_results g =
        let ids = result_ids rs all_results g in
        ground (arith, ids, result_count-remaining F lower cfg quoted id rs all_results)

    told_all :
        (id : ℕ) (msg : Text) (rs all_results : List (CaseResult F))
        (o : RunOutcome F lower cfg quoted)
        → Streamed F lower cfg quoted j rs
        → grade_all F (grade_at F lower cfg quoted j.stopped) rs j.cases ≡ graded all_results
        → Distinct j.cases
        → told id (
            (running F lower cfg quoted j msg ++ in_order F lower cfg quoted rs)
            ++ (remaining F lower cfg quoted rs all_results ++ closing o))
          ≡ id_count id (case_ids j.cases)
    told_all id msg rs all_results o s g d =
        let first = running F lower cfg quoted j msg ++ in_order F lower cfg quoted rs in
        let second = remaining F lower cfg quoted rs all_results in
        let (n, le) = told_suite id msg rs s in
        let sum =
          once (lookup_result F rs id) (told id second) (id_count id (case_ids j.cases)) le (d id)
            (told-remaining id rs all_results g) in
        omega (
          arith,
          n,
          sum,
          told-closing id o,
          result_count-append F lower cfg quoted id first (second ++ closing o),
          result_count-append F lower cfg quoted id second (closing o),
        )
      where
        once :
            (r : Option (CaseResult F)) (rest count : ℕ)
            → hits F lower cfg quoted r ≤ count
            → count ≤ 1
            → hits F lower cfg quoted r + rest ≡ elim r [ none ↦ count | some _ ↦ 1 ]
            → hits F lower cfg quoted r + rest ≡ count
        once none rest count le d e = e
        once (some _) rest count le d e = omega (arith, le, d, e)

    told_rejected :
        (id : ℕ) (out err : Text)
        → told id (
            root_artifact F lower cfg quoted j.root_uploads
            ++ finish_failed F lower cfg quoted compilation_error out err)
          ≡ 0
    unfolding finish
    told_rejected id out err = at j.root_uploads
      where
        at :
            (b : Bool)
            → told id (
                root_artifact F lower cfg quoted b
                ++ finish_failed F lower cfg quoted compilation_error out err)
              ≡ 0
        at true = refl
        at false = refl

    abbrev Outcome : Type 0
    Outcome = RunOutcome F lower cfg quoted

    report_outcome-Told :
        (wait : Text) (o : Outcome)
        → Shape F lower cfg quoted j o
        → Told (report_outcome F lower cfg quoted wait j o)
    unfolding report_outcome
    report_outcome-Told wait _ (halted before msg e b) =
        failure-Told wait (preamble F lower cfg quoted j before) msg [] e (ended_pre before)
          (λ id d. told_pre id before) b
      where
        ended_pre : (o : Option Text) → ended (preamble F lower cfg quoted j o) ≡ 0
        ended_pre none = refl
        ended_pre (some _) = refl

        told_pre : (id : ℕ) (o : Option Text) → told id (preamble F lower cfg quoted j o) ≤ 1
        told_pre id none = omega arith
        told_pre id (some _) = omega arith
    report_outcome-Told wait _ (interrupted msg rs e s b) =
        failure-Told wait (running F lower cfg quoted j msg ++ in_order F lower cfg quoted rs) msg
          [] e (ended_suite msg rs)
          (λ id d. (let (n, le) = told_suite id msg rs s in omega (arith, n, le, d id))) b
    report_outcome-Told wait _ (rejected out err) = record {
      verdict = compilation_error;
      ends =
          Ends-append F lower cfg quoted compilation_error (compilation false out err ∷ []) _ refl (
            Ends-append F lower cfg quoted compilation_error
              (root_artifact F lower cfg quoted j.root_uploads) _ (ended_artifact j.root_uploads)
              (Ends-finish F lower cfg quoted compilation_error 0 (F.literal 0 0) out err));
      blame = λ t. cc;
      at_most_once = λ id d. omega (arith, told_rejected id out err);
      all_told = λ id d g. cc;
    }
    report_outcome-Told wait _ (suite_graded msg rs all_results s g) =
        let o =
          after_grading F lower cfg quoted j.grading_error
            (running F lower cfg quoted j msg ++ in_order F lower cfg quoted rs) msg rs
            (graded all_results) in
        let v = (score_run F j.cases all_results).2 in
        record {
          verdict = v;
          ends =
              Ends-append F lower cfg quoted v
                (running F lower cfg quoted j msg ++ in_order F lower cfg quoted rs) _
                (ended_suite msg rs)
                (Ends-append F lower cfg quoted v (remaining F lower cfg quoted rs all_results) _
                  (finished_count-remaining F lower cfg quoted rs all_results) (Ends-closing o));
          blame = λ t.
              cc
                (score_not_timeout F lower cfg quoted v (score_run_status F j.cases all_results) t);
          at_most_once = λ id d. omega (arith, d id, told_all id msg rs all_results o s g d);
          all_told = λ id d _. told_all id msg rs all_results o s g d;
        }

    fail_run-Told : (msg : Text) → Told (fail_run F lower cfg quoted msg)
    unfolding classify finish
    fail_run-Told msg = record {
      verdict = server_error;
      ends = (error msg ∷ [], 0, F.literal 0 0, [], [], refl, refl);
      blame = λ t. cc;
      at_most_once = λ id d. omega arith;
      all_told = λ id d g. cc;
    }

    pub run_events-Told : (wait : Text) → Told (run_events F lower cfg quoted wait j)
    unfolding run_events
    run_events-Told wait =
        Told-cons (status (codes "compiling")) _ refl (λ id. refl)
          (prepared j.prepare_error j.language_error)
      where
        rest : List Event
        rest = report_outcome F lower cfg quoted wait j (run_container F lower cfg quoted j)

        known :
            (l : Option Text)
            → Told (elim l [ some e ↦ fail_run F lower cfg quoted e | none ↦ rest ])
        known none = report_outcome-Told wait _ (run_container-Shape F lower cfg quoted j)
        known (some e) = fail_run-Told e

        prepared :
            (p l : Option Text)
            → Told (elim p [
              | some e ↦ fail_run F lower cfg quoted e
              | none ↦ elim l [ some e ↦ fail_run F lower cfg quoted e | none ↦ rest ]
            ])
        prepared none l = known l
        prepared (some e) l = fail_run-Told e
