-- ===== src/Judge/Run/Verdicts.antt =====
-- Process: what the events of a run promise to those who read them.
use runcodes.Prelude.{
  ℕ, ◌≤◌, ◌≡◌, refl, sym, ap, ◌∙◌, true, Option, none, some, List, [], ◌∷◌, ◌++◌, take, Text, codes,
  append_assoc, arith, Floats,
}
use runcodes.Judge.Model.{RunStatus, timed_out, server_error}
use runcodes.Judge.Grading.{Config}
use runcodes.Judge.Grading.Run.{is_graded}
use runcodes.Judge.Run.{Job, Published, timings, finished, error, finish, run_events, process}
use runcodes.Judge.Run.Shape.{TimedOut}
use runcodes.Judge.Run.Counts.{id_count, case_ids, Distinct, result_count}
use runcodes.Judge.Run.Ends.{Ends}
use runcodes.Judge.Run.Ending.{run_events-Told}

module _ (F : Floats) (lower : ℕ → ℕ) (cfg : Config) (quoted : Text → Text) where
  abbrev status_of : Published F lower cfg quoted → Option RunStatus
  status_of (finished s n x msg err) = some s
  status_of _ = none

  abbrev last_status :
      Published F lower cfg quoted → List (Published F lower cfg quoted) → Option RunStatus
  last_status ev [] = status_of ev
  last_status ev (ev' ∷ evs) = last_status ev' evs

  -- The status of the last event, where that is `finished`.
  abbrev pub verdict_of : List (Published F lower cfg quoted) → Option RunStatus
  verdict_of [] = none
  verdict_of (ev ∷ evs) = last_status ev evs

  last_status-append :
      (ev : Published F lower cfg quoted) (front : List (Published F lower cfg quoted))
      (s : RunStatus) (n : ℕ) (x : F.Float) (msg err : Text)
      → last_status ev (front ++ timings ∷ finished s n x msg err ∷ []) ≡ some s
  last_status-append ev [] s n x msg err = refl
  last_status-append ev (ev' ∷ front) s n x msg err = last_status-append ev' front s n x msg err

  verdict_of-append :
      (front : List (Published F lower cfg quoted)) (s : RunStatus) (n : ℕ) (x : F.Float)
      (msg err : Text)
      → verdict_of (front ++ timings ∷ finished s n x msg err ∷ []) ≡ some s
  verdict_of-append [] s n x msg err = refl
  verdict_of-append (ev ∷ front) s n x msg err = last_status-append ev front s n x msg err

  Ends-verdict_of :
      (s : RunStatus) (evs : List (Published F lower cfg quoted))
      → Ends F lower cfg quoted s evs
      → verdict_of evs ≡ some s
  Ends-verdict_of s evs (front, n, x, msg, err, e, c) =
      ap verdict_of e ∙ verdict_of-append front s n x msg err

  same_verdict : (s t : RunStatus) → ◌≡◌ {A = Option RunStatus} (some s) (some t) → s ≡ t
  same_verdict s t e = ground arith

  -- A list that ends with the timings and a `finished` event.
  abbrev pub EndsWithFinished : List (Published F lower cfg quoted) → Type 0
  EndsWithFinished evs =
      (s : RunStatus) × (front : List (Published F lower cfg quoted)) × (n : ℕ) × (x : F.Float)
      × (msg : Text) × (err : Text) × (evs ≡ front ++ timings ∷ finished s n x msg err ∷ [])

  -- Process publishes the timings and then `finished` as its last events, on every path: where it
  -- panics behind any number of events, and where it does not. Without a panic the last event is its
  -- only `finished` event.
  pub process_ends :
      (wait : Text) (j : Job) (k : ℕ) (msg : Text)
      → EndsWithFinished (process F lower cfg quoted wait (some (k, msg)) j)
        × ((s : RunStatus) × Ends F lower cfg quoted s (process F lower cfg quoted wait none j))
  unfolding process finish
  process_ends wait j k msg =
      let before = take k (run_events F lower cfg quoted wait j) in
      let told = run_events-Told F lower cfg quoted j wait in
      (
        (
          server_error,
          before ++ error (codes "internal error: " ++ msg) ∷ [],
          0,
          F.literal 0 0,
          [],
          [],
          sym (append_assoc before (error (codes "internal error: " ++ msg) ∷ []) _),
        ),
        (told.verdict, told.ends),
      )

  -- In a run without a panic, on cases with different ids, the result of a case is published at most
  -- once, whether it was streamed while the container ran or reported afterwards.
  pub case_results_once :
      (wait : Text) (j : Job) (id : ℕ)
      → Distinct j.cases
      → result_count F lower cfg quoted id (process F lower cfg quoted wait none j) ≤ 1
  unfolding process
  case_results_once wait j id d = (run_events-Told F lower cfg quoted j wait).at_most_once id d

  -- If a run without a panic, on cases with different ids, ends as completed or uncompleted, the
  -- result of an id is published as often as the id is that of a case: once for each case, and never
  -- for another id.
  pub case_results_complete :
      (wait : Text) (j : Job) (id : ℕ) (s : RunStatus)
      → Distinct j.cases
      → verdict_of (process F lower cfg quoted wait none j) ≡ some s
      → is_graded s ≡ true
      → result_count F lower cfg quoted id (process F lower cfg quoted wait none j)
        ≡ id_count id (case_ids j.cases)
  unfolding process
  case_results_complete wait j id s d e g =
      let t = run_events-Told F lower cfg quoted j wait in
      let v = Ends-verdict_of t.verdict _ t.ends in
      t.all_told id d (ap is_graded (same_verdict t.verdict s (sym v ∙ e)) ∙ g)

  -- A run without a panic ends as timed out only if the container printed the first milestone of the
  -- compilation or of the run, with the run's nonce, and a timer fired behind it.
  pub timed_out_started :
      (wait : Text) (j : Job)
      → verdict_of (process F lower cfg quoted wait none j) ≡ some timed_out
      → TimedOut F lower cfg quoted j
  unfolding process
  timed_out_started wait j e =
      let t = run_events-Told F lower cfg quoted j wait in
      let v = Ends-verdict_of t.verdict _ t.ends in
      t.blame (same_verdict t.verdict timed_out (sym v ∙ e))
