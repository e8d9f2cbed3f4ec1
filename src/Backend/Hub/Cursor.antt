-- ===== src/Backend/Hub/Cursor.antt =====
-- The cursor of a hub and the rows it stands for: what is written of the event behind the cursor may
-- be written again, and nothing else.
use runcodes.Prelude.{
  ℕ, zero, suc, ◌≤◌, ◌<◌, ◌≡◌, refl, sym, ap, ◌∙◌, ◌⊎◌, inl, inr, Bool, true, false, ◌&&◌, ◌||◌,
  List, [], ◌∷◌, ◌++◌, All, if_elim, arith, Bool-cases,
}
use runcodes.Backend.Events.{
  EventType, Event, Rows, Graded, Answer, stored, lost, unsure, Write, skipped, malformed, writes,
  write_of, persisted, persist_event, store_graded, store_event, grade_by, status, compilation,
  case_result, timings, artifact, finished, error, alert, unknown,
}
use runcodes.Backend.Events.Replay.{store_graded_twice}
use runcodes.Backend.Hub.{
  Hub, Answers, is_supplemental, is_terminal_event, broadcast, finish, persist_terminal,
  terminal_persist_attempts, handle_event, frame_of,
}

-- What one event does to the graded rows when it is written once.
abbrev pub effect_of : Write → Event → Graded → Graded
effect_of skipped ev g = g
effect_of malformed ev g = g
effect_of writes ev g = store_graded ev g

unfoldable pub effect : Event → Graded → Graded
effect ev g = effect_of (write_of ev) ev g

abbrev pub effects : List Event → Graded → Graded
effects [] g = g
effects (ev ∷ evs) g = effects evs (effect ev g)

pub effects-append :
    (xs ys : List Event) (g : Graded) → effects (xs ++ ys) g ≡ effects ys (effects xs g)
effects-append [] ys g = refl
effects-append (x ∷ xs) ys g = effects-append xs ys (effect x g)

pub effect_twice : (ev : Event) (g : Graded) → effect ev (effect ev g) ≡ effect ev g
unfolding effect
effect_twice ev g = by_write (write_of ev)
  where
    by_write : (w : Write) → effect_of w ev (effect_of w ev g) ≡ effect_of w ev g
    by_write skipped = refl
    by_write malformed = refl
    by_write writes = store_graded_twice ev g

-- Rows that hold nothing of the event, or all of it.
abbrev pub Near : Event → Graded → Graded → Type 0
Near ev g c = (c ≡ g) ⊎ (c ≡ effect ev g)

pub effect-Near : (ev : Event) (g c : Graded) → Near ev g c → effect ev c ≡ effect ev g
effect-Near ev g c (inl e) = ap (effect ev) e
effect-Near ev g c (inr e) = ap (effect ev) e ∙ effect_twice ev g

persist_event-Near :
    (a : Answer) (ev : Event) (g : Graded) (db : Rows)
    → Near ev g db.graded
    → Near ev g (persist_event a ev db).0.graded
      × ((persist_event a ev db).1 ≡ true → (persist_event a ev db).0.graded ≡ effect ev g)
unfolding persist_event effect store_event
persist_event-Near a ev g db near = by_write (write_of ev) a (effect-Near ev g db.graded near) near
  where
    by_write :
        (w : Write) (a : Answer)
        → effect_of w ev db.graded ≡ effect_of w ev g
        → (db.graded ≡ g) ⊎ (db.graded ≡ effect_of w ev g)
        → ((((persisted w a ev db).0.graded) ≡ g)
            ⊎ ((persisted w a ev db).0.graded ≡ effect_of w ev g))
          × ((persisted w a ev db).1 ≡ true → (persisted w a ev db).0.graded ≡ effect_of w ev g)
    by_write skipped a e n = (n, λ h. e)
    by_write malformed a e n = (n, λ h. cc)
    by_write writes stored e n = (inr e, λ h. e)
    by_write writes lost e n = (n, λ h. cc)
    by_write writes unsure e n = (inr e, λ h. cc)

persist_terminal-Near :
    (n attempt : ℕ) (answers : Answers) (ev : Event) (g : Graded) (db : Rows)
    → Near ev g db.graded
    → Near ev g (persist_terminal n attempt answers ev db).0.graded
      × ((persist_terminal n attempt answers ev db).1 ≡ true
          → (persist_terminal n attempt answers ev db).0.graded ≡ effect ev g)
unfolding persist_terminal
persist_terminal-Near zero attempt answers ev g db near = (near, λ h. cc)
persist_terminal-Near (suc n) attempt answers ev g db near =
    let (near', done) = persist_event-Near (answers attempt) ev g db near in
    let more =
      persist_terminal-Near n (suc attempt) answers ev g (persist_event (answers attempt) ev db).0
        near' in
    if_elim (λ (r : Rows × Bool). Near ev g r.0.graded × (r.1 ≡ true → r.0.graded ≡ effect ev g))
      (persist_event (answers attempt) ev db).1 _ _ (λ ok. (near', λ h. done ok)) (λ e. more)

supplemental_effect : (ev : Event) (g : Graded) → is_supplemental ev.type ≡ true → effect ev g ≡ g
unfolding effect store_graded
supplemental_effect ev g h = by_write (write_of ev)
  where
    by_type : (t : EventType) → is_supplemental t ≡ true → grade_by t ev g ≡ g
    by_type timings e = refl
    by_type alert e = refl
    by_type status e = cc
    by_type compilation e = cc
    by_type case_result e = cc
    by_type artifact e = cc
    by_type finished e = cc
    by_type error e = cc
    by_type unknown e = cc

    by_write : (w : Write) → effect_of w ev g ≡ g
    by_write skipped = refl
    by_write malformed = refl
    by_write writes = by_type ev.type h

-- What handling an event does to the cursor, the flag and the rows.
pub record Handled (ev : Event) (g : Graded) (h h' : Hub) (ok : Bool) : Type 0 where
  pub same_seq : h'.last_seq ≡ h.last_seq
  pub near : Near ev g h'.db.graded
  pub complete : ok ≡ true → h'.db.graded ≡ effect ev g
  pub flagged : h'.terminal ≡ (h.terminal || (is_terminal_event ev.type && ok))

pub finish_keeps :
    (h : Hub)
    → ((finish h).last_seq ≡ h.last_seq)
      × ((finish h).db ≡ h.db)
      × ((finish h).terminal ≡ h.terminal)
unfolding finish
finish_keeps h = (ground arith, ground arith, ground arith)

handle_terminal :
    (answers : Answers) (ev : Event) (g : Graded) (h : Hub)
    → is_terminal_event ev.type ≡ true
    → Near ev g h.db.graded
    → Handled ev g h (handle_event answers ev h).0 (handle_event answers ev h).1
unfolding handle_event broadcast
handle_terminal answers ev g h t near =
    let (near', done) = persist_terminal-Near terminal_persist_attempts 1 answers ev g h.db near in
    let db = (persist_terminal terminal_persist_attempts 1 answers ev h.db).0 in
    let (s, d, f) =
      finish_keeps (broadcast (frame_of ev) (record h { db = db; terminal = true })) in
    rw t (
      if_elim (λ (r : Hub × Bool). Handled ev g h r.0 r.1)
        (persist_terminal terminal_persist_attempts 1 answers ev h.db).1 _ _
        (λ ok. record {
          same_seq = s;
          near = rw d near';
          complete = λ _. ap (λ r. r.graded) d ∙ done ok;
          flagged = f ∙ ground (arith, t);
        })
        (λ e. record {
          same_seq = refl;
          near = near';
          complete = λ x. cc;
          flagged = ground (arith, t);
        }))

handle_plain :
    (answers : Answers) (ev : Event) (g : Graded) (h : Hub)
    → is_terminal_event ev.type ≡ false
    → Near ev g h.db.graded
    → Handled ev g h (handle_event answers ev h).0 (handle_event answers ev h).1
unfolding handle_event broadcast
handle_plain answers ev g h t near =
    let (near', done) = persist_event-Near (answers 1) ev g h.db near in
    let ok = (persist_event (answers 1) ev h.db).1 in
    rw t (
      if_elim (λ (r : Hub × Bool). Handled ev g h r.0 r.1) (ok || is_supplemental ev.type) _ _
        (λ sent. record {
          same_seq = refl;
          near = near';
          complete = λ _. complete sent near' done;
          flagged = ground (arith, t);
        })
        (λ e. record {
          same_seq = refl;
          near = near';
          complete = λ x. cc;
          flagged = ground (arith, t);
        }))
  where
    complete :
        ((persist_event (answers 1) ev h.db).1 || is_supplemental ev.type) ≡ true
        → Near ev g (persist_event (answers 1) ev h.db).0.graded
        → ((persist_event (answers 1) ev h.db).1 ≡ true
            → (persist_event (answers 1) ev h.db).0.graded ≡ effect ev g)
        → (persist_event (answers 1) ev h.db).0.graded ≡ effect ev g
    complete sent n done = elim (Bool-cases (is_supplemental ev.type)) [
      | inl s ↦ elim n [ inl e ↦ e ∙ sym (supplemental_effect ev g s) | inr e ↦ e ]
      | inr s ↦ done (ground (arith, sent, s))
    ]

pub handle_event-Handled :
    (answers : Answers) (ev : Event) (g : Graded) (h : Hub)
    → Near ev g h.db.graded
    → Handled ev g h (handle_event answers ev h).0 (handle_event answers ev h).1
handle_event-Handled answers ev g h near = elim (Bool-cases (is_terminal_event ev.type)) [
  | inl t ↦ handle_terminal answers ev g h t near
  | inr t ↦ handle_plain answers ev g h t near
]

-- Rising sequence numbers, all above `lo`.
abbrev pub Rising : ℕ → List Event → Type 0
Rising lo [] = Unit
Rising lo (ev ∷ evs) = (lo < ev.seq) × Rising ev.seq evs

-- The rows hold the events of `done` written once each, and perhaps the next of `todo`.
abbrev pub Holds : Graded → List Event → List Event → Graded → Type 0
Holds g₀ done [] c = c ≡ effects done g₀
Holds g₀ done (ev ∷ todo) c = Near ev (effects done g₀) c

abbrev pub ends_with_finished : List Event → Bool
ends_with_finished [] = false
ends_with_finished (ev ∷ []) = is_terminal_event ev.type
ends_with_finished (ev ∷ ev' ∷ evs) = ends_with_finished (ev' ∷ evs)

-- A hub that has written `done` of the log. Once it is terminal, `done` ends with the event that
-- carries the result, and the rows hold exactly `done`.
pub record At (log : List Event) (g₀ : Graded) (h : Hub) (done todo : List Event) : Type 0 where
  pub split : log ≡ done ++ todo
  pub behind_cursor : All (λ (ev : Event). ev.seq ≤ h.last_seq) done
  pub before_cursor : Rising h.last_seq todo
  pub rows : Holds g₀ done todo h.db.graded
  pub result :
      h.terminal ≡ true → (ends_with_finished done ≡ true) × (h.db.graded ≡ effects done g₀)
