-- ===== src/Judge/Run/Milestones.antt =====
-- awaitLine and awaitStartup: what a wait has seen in the log when it returns.
use runcodes.Prelude.{
  ◌≡◌, refl, ap, Option, none, some, List, [], ◌∷◌, ◌++◌, if_elim, Text, text_eq, text_eq-eq,
}
use runcodes.Judge.Model.{timed_out, server_error}
use runcodes.Judge.Run.{
  Snapshot, Signal, line, timer, RunError, startup_error, timeout_error, other_error,
  milestone_line, classify, workspace_aware, await_line, as_startup, await_startup,
}

-- A log that prints a line.
abbrev pub Prints : Text → List Signal → List Signal → Type 0
Prints wanted log rest =
    (front : List Signal) × (now : Snapshot) × (log ≡ front ++ line wanted now ∷ rest)

-- A log in which the timer fires.
abbrev pub Fires : List Signal → Type 0
Fires log = (front : List Signal) × (rest : List Signal) × (log ≡ front ++ timer ∷ rest)

abbrev pub IsTimeout : RunError → Type 0
IsTimeout e = classify e ≡ timed_out

-- How a wait came to its result, with the log behind it.
abbrev pub Waited : Text → List Signal → Option RunError → List Signal → Type 0
Waited wanted log none rest = Prints wanted log rest
Waited wanted log (some e) rest = IsTimeout e → Fires log

module _ (quoted : Text → Text) where
  pub await_line_keeps {ℓ κ} :
      {A : Type ℓ} (P : A → Type κ) (wanted : Text) (f : A → Text → Snapshot → A)
      → ((a : A) (l : Text) (now : Snapshot) → P a → P (f a l now))
      → (log : List Signal) (a : A) → P a
      → P (await_line quoted wanted f a log).0
  unfolding await_line
  await_line_keeps {A} P wanted f step [] a p = p
  await_line_keeps {A} P wanted f step (timer ∷ log) a p = p
  await_line_keeps {A} P wanted f step (line l now ∷ log) a p =
      if_elim (λ (r : A × Option RunError × List Signal). P r.0) (text_eq l wanted) _ _ (λ _. p)
        (λ _. await_line_keeps P wanted f step log (f a l now) (step a l now p))

  Waited-cons :
      (wanted : Text) (s : Signal) (log : List Signal) (o : Option RunError) (rest : List Signal)
      → Waited wanted log o rest
      → Waited wanted (s ∷ log) o rest
  Waited-cons wanted s log none rest (front, now, e) = (s ∷ front, now, ap (λ t. s ∷ t) e)
  Waited-cons wanted s log (some err) rest w =
      λ t. (let (front, after, e) = w t in (s ∷ front, after, ap (λ u. s ∷ u) e))

  pub await_line-Waited {ℓ} :
      {A : Type ℓ} (wanted : Text) (f : A → Text → Snapshot → A) (log : List Signal) (a : A)
      → Waited wanted log (await_line quoted wanted f a log).1 (await_line quoted wanted f a log).2
  unfolding await_line classify
  await_line-Waited {A} wanted f [] a = λ t. cc
  await_line-Waited {A} wanted f (timer ∷ log) a = λ _. ([], log, refl)
  await_line-Waited {A} wanted f (line l now ∷ log) a =
      if_elim (λ (r : A × Option RunError × List Signal). Waited wanted (line l now ∷ log) r.1 r.2)
        (text_eq l wanted) _ _ (λ e. ([], now, ap (λ w. line w now ∷ log) (text_eq-eq l wanted e)))
        (λ _. Waited-cons wanted (line l now) log _ _ (await_line-Waited wanted f log (f a l now)))

  -- Behind a wait for the startup, the milestone was printed or the error is no timeout.
  abbrev pub Started : Text → List Signal → Option RunError → List Signal → Type 0
  Started wanted log none rest = Prints wanted log rest
  Started wanted log (some e) rest = classify e ≡ server_error

  as_startup-Started :
      (milestone wanted : Text) (log : List Signal) (o : Option RunError) (rest : List Signal)
      → Waited wanted log o rest
      → Started wanted log (as_startup milestone o) rest
  unfolding classify
  as_startup-Started m wanted log none rest w = w
  as_startup-Started m wanted log (some (timeout_error _)) rest w = refl
  as_startup-Started m wanted log (some (startup_error _)) rest w = refl
  as_startup-Started m wanted log (some (other_error _)) rest w = refl

  pub await_startup-Started :
      (milestone nonce : Text) (log : List Signal)
      → Started
          (milestone_line milestone nonce)
          log
          (await_startup quoted milestone nonce log).0
          (await_startup quoted milestone nonce log).1
  unfolding await_startup
  await_startup-Started m nonce log =
      as_startup-Started m (milestone_line m nonce) log _ _
        (await_line-Waited (milestone_line m nonce) (λ (u : Unit {0}) _ _. u) log tt)

pub workspace_aware-IsTimeout :
    (quota : Option Text) (e : RunError) → IsTimeout (workspace_aware quota e) → IsTimeout e
unfolding workspace_aware classify
workspace_aware-IsTimeout none e t = t
workspace_aware-IsTimeout (some q) e t = cc

pub workspace_aware_server :
    (quota : Option Text) (e : RunError)
    → classify e ≡ server_error
    → classify (workspace_aware quota e) ≡ server_error
unfolding workspace_aware classify
workspace_aware_server none e t = t
workspace_aware_server (some q) e t = refl
