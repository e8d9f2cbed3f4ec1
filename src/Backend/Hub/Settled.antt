-- ===== src/Backend/Hub/Settled.antt =====
-- No commit is left open: a hub ends with a settled commit unless its context is cancelled.
use runcodes.Prelude.{
  ℕ, zero, suc, ◌≡◌, refl, ◌⊎◌, inl, inr, Bool, true, false, not, List, [], ◌∷◌, All, keep, take,
  ltb, if◌then◌else◌, if_elim, arith, Text, codes, text_eq, is_empty,
}
use runcodes.Backend.Events.{
  EventType, finished, status, compilation, case_result, timings, artifact, error, alert, unknown,
  Event, Graded, CommitRow, stored, is_terminal_status, guarded, mark_server_error, set_finished,
  put_finished, store_graded, write_of,
}
use runcodes.Backend.Hub.{
  Hub, Answers, is_terminal_event, handle_event, read_frames, after_stream, finish, Ending,
  clean_end, broken, Attempt, stream, fail_server_error, marked, Ended, context_cancelled, gave_up,
  run_attempts, run_hub, max_stream_attempts,
}
use runcodes.Backend.Hub.Cursor.{effect, Handled, handle_event-Handled, finish_keeps}
use runcodes.Backend.Hub.Outcome.{Fresh}

abbrev pub settled : Graded → Bool
settled g = is_terminal_status g.commit.status

-- A `finished` event of the judge carries one of the terminal statuses.
abbrev pub Verdict : Event → Type 0
Verdict ev = is_terminal_event ev.type ≡ true → is_terminal_status ev.status ≡ true

terminal_given : (s : Text) → is_terminal_status s ≡ true → is_empty s ≡ false
unfolding is_terminal_status codes text_eq
terminal_given [] h = cc
terminal_given (c ∷ s) h = refl

guarded_settles :
    (f : CommitRow → CommitRow) (r : CommitRow)
    → is_terminal_status (f r).status ≡ true
    → is_terminal_status (guarded f r).status ≡ true
guarded_settles f r h =
    if_elim (λ (x : CommitRow). is_terminal_status x.status ≡ true) (is_terminal_status r.status) r
      (f r) (λ e. e) (λ e. h)

finished_type : (t : EventType) → is_terminal_event t ≡ true → t ≡ finished
finished_type finished h = refl
finished_type status h = cc
finished_type compilation h = cc
finished_type case_result h = cc
finished_type timings h = cc
finished_type artifact h = cc
finished_type error h = cc
finished_type alert h = cc
finished_type unknown h = cc

finished_settles :
    (ev : Event) (g : Graded)
    → is_terminal_event ev.type ≡ true
    → is_terminal_status ev.status ≡ true
    → settled (effect ev g) ≡ true
unfolding effect write_of store_graded set_finished
finished_settles ev g t h =
    rw (finished_type ev.type t, terminal_given ev.status h)
      (guarded_settles (put_finished ev) g.commit h)

server_error_settles : (r : CommitRow) → is_terminal_status (mark_server_error r).status ≡ true
unfolding mark_server_error is_terminal_status codes text_eq
server_error_settles r =
    guarded_settles
      (λ (x : CommitRow). record x { status = codes "server_error"; compilation_finished = true }) r
      refl

failed_settles : (h : Hub) → settled (finish (fail_server_error stored h)).db.graded ≡ true
unfolding fail_server_error
failed_settles h = rw ((finish_keeps (marked stored h)).1) (server_error_settles h.db.graded.commit)

-- A hub that has the terminal event has a settled commit.
abbrev ToldSettled : Hub → Type 0
ToldSettled h = h.terminal ≡ true → settled h.db.graded ≡ true

Handled-ToldSettled :
    (ev : Event) (h h' : Hub) (ok : Bool)
    → Verdict ev
    → h.terminal ≡ false
    → Handled ev h.db.graded h h' ok
    → ToldSettled h'
Handled-ToldSettled ev h h' ok v open_ hd t =
    let last_ : is_terminal_event ev.type ≡ true = ground (arith, hd.flagged, open_, t) in
    let done : ok ≡ true = ground (arith, hd.flagged, open_, t) in
    rw (hd.complete done) (finished_settles ev h.db.graded last_ (v last_))

read_frames-ToldSettled :
    (answers : ℕ → Answers) (e : Ending) (evs : List Event) (h : Hub)
    → All Verdict evs
    → h.terminal ≡ false
    → ToldSettled (read_frames answers e evs h).0
unfolding read_frames
read_frames-ToldSettled answers e [] h v open_ t = cc (open_, t)
read_frames-ToldSettled answers e (ev ∷ evs) h (v, vs) open_ t =
    let hd = handle_event-Handled (answers ev.seq) ev h.db.graded h (inl refl) in
    let h' = (handle_event (answers ev.seq) ev h).0 in
    let ok = (handle_event (answers ev.seq) ev h).1 in
    let told = Handled-ToldSettled ev h h' ok v open_ hd in
    if_elim (λ (r : Hub × Ending). ToldSettled r.0) (not ok) _ _ (λ _. told)
      (λ _.
        if_elim
          (λ (u : Hub). ToldSettled (if u.terminal then (u, e) else read_frames answers e evs u).0)
          (ltb h.last_seq ev.seq) _ _
          (λ _.
            next (record h' { last_seq = ev.seq }) told
              (read_frames-ToldSettled answers e evs (record h' { last_seq = ev.seq }) vs))
          (λ _. next h' told (read_frames-ToldSettled answers e evs h' vs)))
      t
  where
    next :
        (u : Hub)
        → ToldSettled u
        → (u.terminal ≡ false → ToldSettled (read_frames answers e evs u).0)
        → ToldSettled (if u.terminal then (u, e) else read_frames answers e evs u).0
    next u told more =
        if_elim (λ (r : Hub × Ending). ToldSettled r.0) u.terminal _ _ (λ _. told) more

All-keep {ℓ κ} :
    {A : Type ℓ} (P : A → Type κ) (f : A → Bool) (xs : List A) → All P xs → All P (keep f xs)
All-keep P f [] h = tt
All-keep P f (x ∷ xs) (h, hs) =
    if_elim (All P) (f x) _ _ (λ _. (h, All-keep P f xs hs)) (λ _. All-keep P f xs hs)

All-take {ℓ κ} : {A : Type ℓ} (P : A → Type κ) (n : ℕ) (xs : List A) → All P xs → All P (take n xs)
All-take P zero xs h = tt
All-take P (suc n) [] h = tt
All-take P (suc n) (x ∷ xs) (h, hs) = (h, All-take P n xs hs)

stream-ToldSettled :
    (log : List Event) (a : Attempt) (h : Hub)
    → All Verdict log
    → h.terminal ≡ false
    → ToldSettled (stream log a h).0
unfolding stream
stream-ToldSettled log a h v open_ =
    let kept = All-keep Verdict a.served _ (All-keep Verdict (λ ev. ltb h.last_seq ev.seq) log v) in
    if_elim (λ (r : Hub × Ending). ToldSettled r.0) a.opens _ _
      (λ _.
        read_frames-ToldSettled a.answers a.ending _ h (All-take Verdict a.delivered _ kept) open_)
      (λ _ t. cc (open_, t))

abbrev EndsSettled : Hub × Ended → Type 0
EndsSettled r = (r.1 ≡ context_cancelled) ⊎ (settled r.0.db.graded ≡ true)

after_stream-EndsSettled :
    (a : Attempt) (h : Hub) (e : Ending) (again : Hub → Hub × Ended)
    → ToldSettled h
    → (h.terminal ≡ false → EndsSettled (again h))
    → EndsSettled (after_stream stored a h e again)
after_stream-EndsSettled a h e again told more =
    if_elim EndsSettled h.terminal _ _ (λ t. inr (rw ((finish_keeps h).1) (told t)))
      (λ f. if_elim EndsSettled a.cancelled _ _ (λ _. inl refl) (λ _. by_ending e f))
  where
    by_ending :
        (e : Ending)
        → h.terminal ≡ false
        → EndsSettled (elim e [
          | clean_end ↦ (finish (fail_server_error stored h), gave_up)
          | broken ↦ (if a.cancelled_waiting then (finish h, context_cancelled) else again h)
        ])
    by_ending clean_end f = inr (failed_settles h)
    by_ending broken f = if_elim EndsSettled a.cancelled_waiting _ _ (λ _. inl refl) (λ _. more f)

run_attempts-EndsSettled :
    (log : List Event) (attempts : ℕ → Attempt) (n : ℕ) (h : Hub)
    → All Verdict log
    → h.terminal ≡ false
    → EndsSettled (run_attempts stored log attempts n h)
unfolding run_attempts
run_attempts-EndsSettled log attempts zero h v open_ = inr (failed_settles h)
run_attempts-EndsSettled log attempts (suc n) h v open_ =
    let r = stream log (attempts n) h in
    after_stream-EndsSettled (attempts n) r.0 r.1 (λ u. run_attempts stored log attempts n u)
      (stream-ToldSettled log (attempts n) h v open_)
      (λ f. run_attempts-EndsSettled log attempts n r.0 v f)

-- After at most three connections, whatever fails on them and whichever events they lose, a hub
-- ends; unless its context is cancelled the commit is settled by then, by the judge's verdict or as a
-- server error, where the database does that last update and the judge's `finished` events carry
-- terminal statuses.
pub run_hub_settles :
    (log : List Event) (attempts : ℕ → Attempt) (h : Hub)
    → Fresh h
    → All Verdict log
    → ((run_hub stored log attempts h).1 ≡ context_cancelled)
      ⊎ (settled (run_hub stored log attempts h).0.db.graded ≡ true)
unfolding run_hub
run_hub_settles log attempts h fresh verdicts =
    run_attempts-EndsSettled log attempts max_stream_attempts h verdicts fresh.open_
