-- ===== src/Judge/Run/Shape.antt =====
-- runContainer: every way it returns. A result is stored while the suite runs only by a line that
-- names a case without a result, so the stored results are reached by such steps.
use runcodes.Prelude.{
  ℕ, ◌≡◌, refl, sym, ap, ◌∙◌, ◌⊎◌, inl, inr, true, Option, none, some, List, [], ◌∷◌, ◌++◌, if_elim,
  Text, codes, append_assoc, zero, suc, ℤ, pos, negsuc, Floats,
}
use runcodes.Judge.Model.{TestCase, CaseResult, server_error}
use runcodes.Judge.Report.{compilation_failed}
use runcodes.Judge.Grading.{Config, Graded, graded, failed, grade_all, lookup_result}
use runcodes.Judge.Run.{
  Snapshot, Signal, line, RunError, other_error, milestone_line, case_done_id, find_test_case,
  classify, workspace_aware, at_startup, at_compilation, at_failed_compilation, at_run_start,
  at_run, at_stop, Job, Published, status, compilation, grade_at, case_line, on_line, RunOutcome,
  stopped_with, in_order, after_grading, harness_failure, conclude_suite, after_suite, run_suite,
  after_run_start, execute, compilation_stopped, after_compiling, after_compilation, after_startup,
  drive, unless_failed, wrapped, run_container, report_of, not_streamed,
}
use runcodes.Judge.Run.Milestones.{
  Prints, Fires, IsTimeout, Waited, Started, await_line_keeps, await_line-Waited,
  await_startup-Started, workspace_aware-IsTimeout, workspace_aware_server,
}

module _ (F : Floats) (lower : ℕ → ℕ) (cfg : Config) (quoted : Text → Text) (j : Job) where
  pub data Streamed : List (CaseResult F) → Type 0 where
    nothing_streamed : Streamed []
    stream_case :
        {rs : List (CaseResult F)} (id : ℕ) (tc : TestCase) (now : Snapshot) (r : CaseResult F)
        → Streamed rs
        → find_test_case j.cases id ≡ some tc
        → lookup_result F rs id ≡ none
        → grade_at F lower cfg quoted now tc ≡ graded r
        → Streamed (r ∷ rs)

  stored-Streamed :
      (rs : List (CaseResult F)) (id : ℕ) (tc : TestCase) (now : Snapshot)
      (o : Option (CaseResult F)) (g : Graded (CaseResult F))
      → lookup_result F rs id ≡ o
      → grade_at F lower cfg quoted now tc ≡ g
      → find_test_case j.cases id ≡ some tc
      → Streamed rs
      → Streamed (not_streamed F lower cfg quoted rs o g)
  stored-Streamed rs id tc now none failed l g f s = s
  stored-Streamed rs id tc now none (graded r) l g f s = stream_case id tc now r s f l g
  stored-Streamed rs id tc now (some _) g l e f s = s

  named-Streamed :
      (rs : List (CaseResult F)) (id : ℕ) (now : Snapshot) (o : Option TestCase)
      → find_test_case j.cases id ≡ o
      → Streamed rs
      → Streamed (elim o [
        | none ↦ rs
        | some tc ↦
            not_streamed F lower cfg quoted rs
              (lookup_result F rs id)
              (grade_at F lower cfg quoted now tc)
      ])
  named-Streamed rs id now none f s = s
  named-Streamed rs id now (some tc) f s = stored-Streamed rs id tc now _ _ refl refl f s

  case_line-Streamed :
      (now : Snapshot) (rs : List (CaseResult F)) (o : Option ℕ)
      → Streamed rs
      → Streamed (case_line F lower cfg quoted j now rs o)
  case_line-Streamed now rs none s = s
  case_line-Streamed now rs (some id) s = named-Streamed rs id now _ refl s

  on_line-Streamed :
      (rs : List (CaseResult F)) (l : Text) (now : Snapshot)
      → Streamed rs
      → Streamed (on_line F lower cfg quoted j rs l now)
  unfolding on_line
  on_line-Streamed rs l now s = case_line-Streamed now rs (case_done_id l j.nonce) s

  -- The startup milestone of a phase, and a timer behind it.
  abbrev pub TimedOut : Type 0
  TimedOut =
      (wanted : Text) × (rest : List Signal) × ((wanted
          ≡ milestone_line (codes "compilation.start") j.nonce)
        ⊎ (wanted ≡ milestone_line (codes "run.start") j.nonce))
      × Prints wanted j.log rest
      × Fires rest

  -- The events of a run that has not begun its suite: none, or those of its compilation.
  abbrev pub preamble : Option Text → List (Published F lower cfg quoted)
  preamble none = []
  preamble (some msg) = compilation true msg [] ∷ []

  abbrev pub running : Text → List (Published F lower cfg quoted)
  running msg = compilation true msg [] ∷ status (codes "running") ∷ []

  -- A timeout is one of a phase that was begun.
  abbrev pub Blamed : RunError → Type 0
  Blamed e = IsTimeout e → TimedOut

  pub data Shape : RunOutcome F lower cfg quoted → Type 0 where
    halted :
        (before : Option Text) (msg : Text) (e : RunError)
        → Blamed e
        → Shape (stopped_with F lower cfg quoted (preamble before) msg [] e)
    rejected : (out err : Text) → Shape (compilation_stopped F lower cfg quoted out err)
    interrupted :
        (msg : Text) (rs : List (CaseResult F)) (e : RunError)
        → Streamed rs
        → Blamed e
        → Shape (
            stopped_with F lower cfg quoted
              (running msg ++ in_order F lower cfg quoted rs)
              msg
              rs
              e)
    suite_graded :
        (msg : Text) (rs all_results : List (CaseResult F))
        → Streamed rs
        → grade_all F (grade_at F lower cfg quoted j.stopped) rs j.cases ≡ graded all_results
        → Shape (
            after_grading F lower cfg quoted j.grading_error
              (running msg ++ in_order F lower cfg quoted rs)
              msg
              rs
              (graded all_results))

  server_error-Blamed : (e : RunError) → classify e ≡ server_error → Blamed e
  server_error-Blamed e h t = cc

  other_error-Blamed : (msg : Text) → Blamed (other_error msg)
  unfolding classify
  other_error-Blamed msg t = cc

  after_grading-Shape :
      (msg : Text) (rs : List (CaseResult F)) (g : Graded (List (CaseResult F)))
      → Streamed rs
      → grade_all F (grade_at F lower cfg quoted j.stopped) rs j.cases ≡ g
      → Shape (
          after_grading F lower cfg quoted j.grading_error
            (running msg ++ in_order F lower cfg quoted rs)
            msg
            rs
            g)
  after_grading-Shape msg rs failed s e =
      interrupted msg rs (other_error j.grading_error) s (other_error-Blamed j.grading_error)
  after_grading-Shape msg rs (graded all_results) s e = suite_graded msg rs all_results s e

  harness-Shape :
      (msg : Text) (rs : List (CaseResult F)) (code : Option ℤ)
      → Streamed rs
      → Shape (elim (harness_failure F lower cfg quoted code) [
        | some e ↦
            stopped_with F lower cfg quoted (running msg ++ in_order F lower cfg quoted rs) msg rs e
        | none ↦
            after_grading F lower cfg quoted j.grading_error
              (running msg ++ in_order F lower cfg quoted rs)
              msg
              rs
              (grade_all F (grade_at F lower cfg quoted j.stopped) rs j.cases)
      ])
  harness-Shape msg rs none s = after_grading-Shape msg rs _ s refl
  harness-Shape msg rs (some (pos zero)) s = after_grading-Shape msg rs _ s refl
  harness-Shape msg rs (some (pos (suc n))) s = interrupted msg rs _ s (other_error-Blamed _)
  harness-Shape msg rs (some (negsuc n)) s = interrupted msg rs _ s (other_error-Blamed _)

  quota-Shape :
      (msg : Text) (rs : List (CaseResult F)) (quota : Option Text)
      → Streamed rs
      → Shape (elim quota [
        | some q ↦
            stopped_with F lower cfg quoted
              (running msg ++ in_order F lower cfg quoted rs)
              msg
              rs
              (other_error q)
        | none ↦ elim (harness_failure F lower cfg quoted j.exit_code) [
          | some e ↦
              stopped_with F lower cfg quoted
                (running msg ++ in_order F lower cfg quoted rs)
                msg
                rs
                e
          | none ↦
              after_grading F lower cfg quoted j.grading_error
                (running msg ++ in_order F lower cfg quoted rs)
                msg
                rs
                (grade_all F (grade_at F lower cfg quoted j.stopped) rs j.cases)
        ]
      ])
  quota-Shape msg rs none s = harness-Shape msg rs j.exit_code s
  quota-Shape msg rs (some q) s = interrupted msg rs (other_error q) s (other_error-Blamed q)

  blame_wait :
      (quota : Option Text) (e : RunError) (log : List Signal)
      → (IsTimeout e → Fires log)
      → (Fires log → TimedOut)
      → Blamed (workspace_aware quota e)
  blame_wait quota e log w up t = up (w (workspace_aware-IsTimeout quota e t))

  after_suite-Shape :
      (msg : Text) (rs : List (CaseResult F)) (o : Option RunError) (log rest : List Signal)
      → Streamed rs
      → Waited (milestone_line (codes "run.done") j.nonce) log o rest
      → (Fires log → TimedOut)
      → Shape (after_suite F lower cfg quoted j (running msg) msg (rs, o, rest))
  unfolding conclude_suite
  after_suite-Shape msg rs none log rest s w up = quota-Shape msg rs (j.quota at_stop) s
  after_suite-Shape msg rs (some e) log rest s w up =
      interrupted msg rs _ s (blame_wait (j.quota at_run) e log w up)

  run_suite-Shape :
      (msg : Text) (log : List Signal)
      → (Fires log → TimedOut)
      → Shape (run_suite F lower cfg quoted j (running msg) msg log)
  unfolding run_suite
  run_suite-Shape msg log up =
      let wanted = milestone_line (codes "run.done") j.nonce in
      let f = on_line F lower cfg quoted j in
      after_suite-Shape msg _ _ log _
        (await_line_keeps quoted Streamed wanted f on_line-Streamed log [] nothing_streamed)
        (await_line-Waited quoted wanted f log []) up

  -- A timer behind a part of the log is one behind the whole of it.
  behind_startup :
      (front log rest : List Signal)
      → j.log ≡ front ++ log
      → Prints (milestone_line (codes "run.start") j.nonce) log rest
      → Fires rest
      → TimedOut
  behind_startup front log rest e (f, now, p) fires = (
    milestone_line (codes "run.start") j.nonce,
    rest,
    inr refl,
    (front ++ f, now, e ∙ ap (λ t. front ++ t) p ∙ sym (append_assoc front f _)),
    fires,
  )

  after_run_start-Shape :
      (msg : Text) (front log : List Signal) (o : Option RunError) (rest : List Signal)
      → j.log ≡ front ++ log
      → Started quoted (milestone_line (codes "run.start") j.nonce) log o rest
      → Shape (after_run_start F lower cfg quoted j msg (o, rest))
  after_run_start-Shape msg front log none rest e p =
      run_suite-Shape msg rest (behind_startup front log rest e p)
  after_run_start-Shape msg front log (some err) rest e p =
      halted (some msg) msg _
        (server_error-Blamed _ (workspace_aware_server (j.quota at_run_start) err p))

  execute-Shape :
      (msg : Text) (front log : List Signal)
      → j.log ≡ front ++ log
      → Shape (execute F lower cfg quoted j msg log)
  unfolding execute
  execute-Shape msg front log e =
      after_run_start-Shape msg front log _ _ e
        (await_startup-Started quoted (codes "run.start") j.nonce log)

  failed_compilation-Shape :
      (out err : Text) (quota : Option Text)
      → Shape (elim quota [
        | some q ↦ stopped_with F lower cfg quoted [] out [] (other_error q)
        | none ↦ compilation_stopped F lower cfg quoted out err
      ])
  failed_compilation-Shape out err none = rejected out err
  failed_compilation-Shape out err (some q) = halted none out (other_error q) (other_error-Blamed q)

  after_compiling-Shape :
      (front log : List Signal)
      → j.log ≡ front ++ log
      → Shape (after_compiling F lower cfg quoted j log)
  unfolding after_compiling
  after_compiling-Shape front log e =
      if_elim Shape (compilation_failed F (report_of F lower cfg quoted j)) _ _
        (λ _. failed_compilation-Shape _ _ (j.quota at_failed_compilation))
        (λ _. execute-Shape _ front log e)

  after_compilation-Shape :
      (front log : List Signal) (o : Option RunError) (rest : List Signal)
      → j.log ≡ front ++ log
      → Waited (milestone_line (codes "compilation.done") j.nonce) log o rest
      → (Fires log → TimedOut)
      → Shape (after_compilation F lower cfg quoted j (tt, o, rest))
  after_compilation-Shape front log none rest e (f, now, p) up =
      let done : List Signal = line (milestone_line (codes "compilation.done") j.nonce) now ∷ [] in
      after_compiling-Shape (front ++ (f ++ done)) rest (
        e
        ∙ ap (λ t. front ++ t) (p ∙ sym (append_assoc f done rest))
        ∙ sym (append_assoc front (f ++ done) rest))
  after_compilation-Shape front log (some err) rest e w up =
      halted none [] _ (blame_wait (j.quota at_compilation) err log w up)

  after_startup-Shape :
      (o : Option RunError) (rest : List Signal)
      → Started quoted (milestone_line (codes "compilation.start") j.nonce) j.log o rest
      → Shape (after_startup F lower cfg quoted j (o, rest))
  after_startup-Shape none rest (f, now, p) =
      let start = milestone_line (codes "compilation.start") j.nonce in
      let wanted = milestone_line (codes "compilation.done") j.nonce in
      after_compilation-Shape (f ++ line start now ∷ []) rest _ _ (p ∙ sym (append_assoc f _ rest))
        (await_line-Waited quoted wanted (λ (u : Unit {0}) _ _. u) rest tt)
        (λ fires. (start, rest, inl refl, (f, now, p), fires))
  after_startup-Shape (some err) rest p =
      halted none [] _ (server_error-Blamed _ (workspace_aware_server (j.quota at_startup) err p))

  drive-Shape : Shape (drive F lower cfg quoted j)
  unfolding drive
  drive-Shape =
      if_elim Shape j.compilable _ _
        (λ _.
          after_startup-Shape _ _
            (await_startup-Started quoted (codes "compilation.start") j.nonce j.log))
        (λ _. execute-Shape [] [] j.log refl)

  unless_failed-Shape :
      (prefix : Text) (o : Option Text) (out : RunOutcome F lower cfg quoted)
      → Shape out
      → Shape (unless_failed F lower cfg quoted (wrapped F lower cfg quoted prefix o) out)
  unless_failed-Shape prefix none out s = s
  unless_failed-Shape prefix (some e) out s =
      halted none [] (other_error (prefix ++ e)) (other_error-Blamed (prefix ++ e))

  pub run_container-Shape : Shape (run_container F lower cfg quoted j)
  unfolding run_container
  run_container-Shape =
      unless_failed-Shape (codes "ensure image: ") j.image_error _ (
        unless_failed-Shape [] j.create_error _
          (unless_failed-Shape [] j.start_error _ drive-Shape))
