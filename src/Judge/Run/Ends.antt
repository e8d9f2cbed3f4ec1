-- ===== src/Judge/Run/Ends.antt =====
-- Process: lists of events that end with the timings and one `finished` event.
use runcodes.Prelude.{
  ℕ, ◌≡◌, refl, sym, ap, ◌∙◌, true, false, List, [], ◌∷◌, ◌++◌, Text, append_assoc, arith, Floats,
}
use runcodes.Judge.Model.{RunStatus, timed_out}
use runcodes.Judge.Grading.{Config}
use runcodes.Judge.Grading.Run.{is_graded}
use runcodes.Judge.Run.{
  RunError, startup_error, timeout_error, other_error, classify, Published, timings, error,
  finished, finish, finish_failed, startup_alert, error_text,
}
use runcodes.Judge.Run.Counts.{
  finished_count, result_count, finished_count-append, result_count-append,
}

module _ (F : Floats) (lower : ℕ → ℕ) (cfg : Config) (quoted : Text → Text) where
  abbrev Event : Type 0
  Event = Published F lower cfg quoted

  abbrev ended : List Event → ℕ
  ended evs = finished_count F lower cfg quoted evs

  abbrev told : ℕ → List Event → ℕ
  told id evs = result_count F lower cfg quoted id evs

  -- A list that ends with the timings and its only `finished` event, which has a status.
  abbrev pub Ends : RunStatus → List Event → Type 0
  Ends s evs =
      (front : List Event) × (n : ℕ) × (x : F.Float) × (msg : Text) × (err : Text) × (evs
        ≡ front ++ timings ∷ finished s n x msg err ∷ [])
      × (ended front ≡ 0)

  pub Ends-append :
      (s : RunStatus) (xs ys : List Event) → ended xs ≡ 0 → Ends s ys → Ends s (xs ++ ys)
  Ends-append s xs ys h (front, n, x, msg, err, e, c) = (
    xs ++ front,
    n,
    x,
    msg,
    err,
    ap (λ t. xs ++ t) e ∙ sym (append_assoc xs front _),
    omega (arith, h, c, finished_count-append F lower cfg quoted xs front),
  )

  pub Ends-finish :
      (s : RunStatus) (n : ℕ) (x : F.Float) (msg err : Text)
      → Ends s (finish F lower cfg quoted s n x msg err)
  unfolding finish
  Ends-finish s n x msg err = ([], n, x, msg, err, refl, refl)

  pub told-finish :
      (id : ℕ) (s : RunStatus) (n : ℕ) (x : F.Float) (msg err : Text)
      → told id (finish F lower cfg quoted s n x msg err) ≡ 0
  unfolding finish
  told-finish id s n x msg err = refl

  pub quiet_alert : (e : RunError) → ended (startup_alert F lower cfg quoted e) ≡ 0
  quiet_alert (startup_error _) = refl
  quiet_alert (timeout_error _) = refl
  quiet_alert (other_error _) = refl

  pub told_alert : (id : ℕ) (e : RunError) → told id (startup_alert F lower cfg quoted e) ≡ 0
  told_alert id (startup_error _) = refl
  told_alert id (timeout_error _) = refl
  told_alert id (other_error _) = refl

  pub not_graded : (e : RunError) → is_graded (classify e) ≡ true → true ≡ false
  unfolding classify
  not_graded (startup_error _) g = cc
  not_graded (timeout_error _) g = cc
  not_graded (other_error _) g = cc

  pub score_not_timeout : (s : RunStatus) → is_graded s ≡ true → s ≡ timed_out → true ≡ false
  score_not_timeout s g t = ground arith

  abbrev pub failing : Text → Text → Text → RunError → List Event
  failing wait msg err e =
      startup_alert F lower cfg quoted e
      ++ error (error_text F lower cfg quoted wait e)
        ∷ finish_failed F lower cfg quoted (classify e) msg err

  pub told-failing :
      (id : ℕ) (wait msg err : Text) (e : RunError) → told id (failing wait msg err e) ≡ 0
  told-failing id wait msg err e = omega (
    arith,
    told_alert id e,
    told-finish id (classify e) 0 (F.literal 0 0) msg err,
    result_count-append F lower cfg quoted id (startup_alert F lower cfg quoted e) (
        error (error_text F lower cfg quoted wait e)
        ∷ finish_failed F lower cfg quoted (classify e) msg err),
  )
