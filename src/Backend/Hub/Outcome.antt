-- ===== src/Backend/Hub/Outcome.antt =====
-- A hub over a whole run of attempts: what it has written, and that it ends with a settled commit.
use runcodes.Prelude.{
  ℕ, zero, suc, ◌≤◌, ◌≡◌, refl, sym, ap, ◌∙◌, ◌⊎◌, inl, inr, Bool, true, false, not, List, [], ◌∷◌,
  ◌++◌, keep, take, All, ltb, if◌then◌else◌, if_elim, arith, append_assoc, lt→ltb,
}
use runcodes.Backend.Events.{Event, Rows, Graded, Answer, stored, lost, unsure, mark_server_error}
use runcodes.Backend.Hub.{
  Hub, Answers, is_terminal_event, finish, handle_event, Ending, clean_end, broken, read_frames,
  behind, Attempt, stream, fail_server_error, marked, Ended, finished_event, context_cancelled,
  gave_up, after_stream, run_attempts, run_hub, max_stream_attempts,
}
use runcodes.Backend.Hub.Cursor.{
  effects, effects-append, Handled, handle_event-Handled, Rising, Holds, ends_with_finished, At,
  finish_keeps,
}

keep_behind : (n lo : ℕ) (evs : List Event) → n ≤ lo → Rising lo evs → behind n evs ≡ evs
keep_behind n lo [] h r = refl
keep_behind n lo (ev ∷ evs) h (r, rs) =
    rw (lt→ltb n ev.seq (omega arith))
      (ap (λ t. ev ∷ t) (keep_behind n ev.seq evs (omega arith) rs))

behind_split :
    (n : ℕ) (done todo : List Event)
    → All (λ (ev : Event). ev.seq ≤ n) done
    → Rising n todo
    → behind n (done ++ todo) ≡ todo
behind_split n [] todo h r = keep_behind n n todo (omega arith) r
behind_split n (ev ∷ done) todo (h, hs) r = rw (not_behind) (behind_split n done todo hs r)
  where
    not_behind : ltb n ev.seq ≡ false
    not_behind = ground arith

-- An attempt that loses no event.
abbrev pub ServesAll : Attempt → Type 0
ServesAll a = (ev : Event) → a.served ev ≡ true

keep_served : (a : Attempt) (evs : List Event) → ServesAll a → keep a.served evs ≡ evs
keep_served a [] all_ = refl
keep_served a (ev ∷ evs) all_ = rw (all_ ev) (ap (λ t. ev ∷ t) (keep_served a evs all_))

behind_weaken :
    (m n : ℕ) (evs : List Event)
    → m ≤ n
    → All (λ (ev : Event). ev.seq ≤ m) evs
    → (x : Event) → x.seq ≤ n
    → All (λ (ev : Event). ev.seq ≤ n) (evs ++ x ∷ [])
behind_weaken m n [] h a x hx = (hx, tt)
behind_weaken m n (ev ∷ evs) h (a, rest) x hx = (omega arith, behind_weaken m n evs h rest x hx)

ends-append :
    (evs : List Event) (ev : Event)
    → ends_with_finished (evs ++ ev ∷ []) ≡ is_terminal_event ev.type
ends-append [] ev = refl
ends-append (x ∷ []) ev = refl
ends-append (x ∷ y ∷ evs) ev = ends-append (y ∷ evs) ev

module _ (log : List Event) (g₀ : Graded) where
  -- The hub behind an event that was written.
  advance-At :
      (h h' : Hub) (done : List Event) (ev : Event) (todo : List Event)
      → At log g₀ h done (ev ∷ todo)
      → h.terminal ≡ false
      → Handled ev (effects done g₀) h h' true
      → At log g₀ (record h' { last_seq = ev.seq }) (done ++ ev ∷ []) todo
  advance-At h h' done ev todo at open_ hd =
      let written : h'.db.graded ≡ effects (done ++ ev ∷ []) g₀ =
        hd.complete refl ∙ sym (effects-append done (ev ∷ []) g₀) in
      record {
        split = at.split ∙ sym (append_assoc done (ev ∷ []) todo);
        behind_cursor =
            behind_weaken h.last_seq ev.seq done (omega (arith, at.before_cursor.0))
              at.behind_cursor ev (omega arith);
        before_cursor = at.before_cursor.1;
        rows = holds todo written;
        result = λ t. (ends-append done ev ∙ ground (arith, hd.flagged, open_, t), written);
      }
    where
      holds :
          (todo : List Event)
          → h'.db.graded ≡ effects (done ++ ev ∷ []) g₀
          → Holds g₀ (done ++ ev ∷ []) todo h'.db.graded
      holds [] e = e
      holds (x ∷ xs) e = inl e

  stay-At :
      (h h' : Hub) (done : List Event) (ev : Event) (todo : List Event)
      → At log g₀ h done (ev ∷ todo)
      → h.terminal ≡ false
      → Handled ev (effects done g₀) h h' false
      → At log g₀ h' done (ev ∷ todo)
  stay-At h h' done ev todo at open_ hd = record {
    split = at.split;
    behind_cursor = rw hd.same_seq at.behind_cursor;
    before_cursor = rw hd.same_seq at.before_cursor;
    rows = hd.near;
    result = λ t. cc (no t);
  }
    where
      no : h'.terminal ≡ true → true ≡ false
      no t = ground (arith, hd.flagged, open_, t)

  abbrev Somewhere : Hub → Type 0
  Somewhere h = (done : List Event) × (todo : List Event) × At log g₀ h done todo

  answered-At :
      (e : Ending) (go : Hub → Hub × Ending) (done : List Event) (ev : Event) (todo : List Event)
      (h h' : Hub) (ok : Bool)
      → ((done' : List Event) (u : Hub)
          → At log g₀ u done' todo
          → u.terminal ≡ false
          → Somewhere (go u).0)
      → At log g₀ h done (ev ∷ todo)
      → h.terminal ≡ false
      → Handled ev (effects done g₀) h h' ok
      → Somewhere
          (if not ok
            then (h', broken)
            else if h'.terminal
            then (record h' { last_seq = ev.seq }, e)
            else go (record h' { last_seq = ev.seq })).0
  answered-At e go done ev todo h h' false more at open_ hd =
      (done, ev ∷ todo, stay-At h h' done ev todo at open_ hd)
  answered-At e go done ev todo h h' true more at open_ hd =
      let at' = advance-At h h' done ev todo at open_ hd in
      if_elim (λ (r : Hub × Ending). Somewhere r.0) h'.terminal _ _
        (λ _. (done ++ ev ∷ [], todo, at'))
        (λ f. more (done ++ ev ∷ []) (record h' { last_seq = ev.seq }) at' f)

  read_frames-At :
      (answers : ℕ → Answers) (e : Ending) (k : ℕ) (todo done : List Event) (h : Hub)
      → At log g₀ h done todo
      → h.terminal ≡ false
      → Somewhere (read_frames answers e (take k todo) h).0
  unfolding read_frames
  read_frames-At answers e zero todo done h at open_ = (done, todo, at)
  read_frames-At answers e (suc k) [] done h at open_ = (done, [], at)
  read_frames-At answers e (suc k) (ev ∷ todo) done h at open_ =
      rw (lt→ltb h.last_seq ev.seq at.before_cursor.0) (
        answered-At e (λ u. read_frames answers e (take k todo) u) done ev todo h
          (handle_event (answers ev.seq) ev h).0 (handle_event (answers ev.seq) ev h).1
          (λ done' u at' f. read_frames-At answers e k todo done' u at' f) at open_
          (handle_event-Handled (answers ev.seq) ev (effects done g₀) h at.rows))

  stream-At :
      (a : Attempt) (done todo : List Event) (h : Hub)
      → At log g₀ h done todo
      → h.terminal ≡ false
      → ServesAll a
      → Somewhere (stream log a h).0
  unfolding stream
  stream-At a done todo h at open_ all_ =
      if_elim (λ (r : Hub × Ending). Somewhere r.0) a.opens _ _
        (λ _.
          rw
            (keep_served a (behind h.last_seq log) all_
              ∙ ap (behind h.last_seq) at.split
              ∙ behind_split h.last_seq done todo at.behind_cursor at.before_cursor)
            (read_frames-At a.answers a.ending a.delivered todo done h at open_))
        (λ _. (done, todo, at))

  -- The rows a run ends with: by its result they hold `done` once each, and otherwise `done` and
  -- perhaps the event behind it, with the commit marked or not.
  abbrev pub EndsAs : Ended → Rows → List Event → List Event → Type 0
  EndsAs finished_event db done todo =
      (ends_with_finished done ≡ true) × (db.graded ≡ effects done g₀)
  EndsAs context_cancelled db done todo = Holds g₀ done todo db.graded
  EndsAs gave_up db done todo =
      (c : Graded) × Holds g₀ done todo c
      × ((db.graded ≡ c) ⊎ (db.graded ≡ record c { commit = mark_server_error c.commit }))

  abbrev RanTo : Hub × Ended → Type 0
  RanTo r =
      (done : List Event) × (todo : List Event) × (log ≡ done ++ todo) × EndsAs r.1 r.0.db done todo

  gives_up :
      (mark : Answer) (h : Hub) → Somewhere h → RanTo (finish (fail_server_error mark h), gave_up)
  unfolding fail_server_error
  gives_up mark h (done, todo, at) =
      rw ((finish_keeps (marked mark h)).1)
        (done, todo, at.split, (h.db.graded, at.rows, by_mark mark))
    where
      by_mark :
          (m : Answer)
          → ((marked m h).db.graded ≡ h.db.graded)
            ⊎ ((marked m h).db.graded
                ≡ record h.db.graded { commit = mark_server_error h.db.graded.commit })
      by_mark stored = inr refl
      by_mark lost = inl refl
      by_mark unsure = inr refl

  cancels : (h : Hub) → Somewhere h → RanTo (finish h, context_cancelled)
  cancels h (done, todo, at) = rw ((finish_keeps h).1) (done, todo, at.split, at.rows)

  after_stream-RanTo :
      (mark : Answer) (a : Attempt) (h : Hub) (e : Ending) (again : Hub → Hub × Ended)
      → Somewhere h
      → (h.terminal ≡ false → RanTo (again h))
      → RanTo (after_stream mark a h e again)
  after_stream-RanTo mark a h e again (done, todo, at) more =
      if_elim RanTo h.terminal _ _
        (λ t. rw ((finish_keeps h).1) (done, todo, at.split, at.result t))
        (λ f. if_elim RanTo a.cancelled _ _ (λ _. cancels h (done, todo, at)) (λ _. by_ending e f))
    where
      by_ending :
          (e : Ending)
          → h.terminal ≡ false
          → RanTo (elim e [
            | clean_end ↦ (finish (fail_server_error mark h), gave_up)
            | broken ↦ (if a.cancelled_waiting then (finish h, context_cancelled) else again h)
          ])
      by_ending clean_end f = gives_up mark h (done, todo, at)
      by_ending broken f =
          if_elim RanTo a.cancelled_waiting _ _ (λ _. cancels h (done, todo, at)) (λ _. more f)

  run_attempts-RanTo :
      (mark : Answer) (attempts : ℕ → Attempt) (n : ℕ) (h : Hub)
      → Somewhere h
      → h.terminal ≡ false
      → ((k : ℕ) → ServesAll (attempts k))
      → RanTo (run_attempts mark log attempts n h)
  unfolding run_attempts
  run_attempts-RanTo mark attempts zero h at f all_ = gives_up mark h at
  run_attempts-RanTo mark attempts (suc n) h (done, todo, at) f all_ =
      let h' = (stream log (attempts n) h).0 in
      let there = stream-At (attempts n) done todo h at f (all_ n) in
      after_stream-RanTo mark (attempts n) h' (stream log (attempts n) h).1
        (λ u. run_attempts mark log attempts n u) there
        (λ f'. run_attempts-RanTo mark attempts n h' there f' all_)

-- A hub that has read nothing.
pub record Fresh (h : Hub) : Type 0 where
  pub at_start : h.last_seq ≡ 0
  pub open_ : h.terminal ≡ false

-- Where the connections lose none of the events they give (the judge holds them all and drops none),
-- and whatever else fails (connections that do not open or break anywhere, writes that are lost or
-- that are done with an error reported), over a log with rising sequence numbers: a hub that ends by
-- the result has written the graded rows exactly as if each event up to `finished` had been
-- written once, in order; one that is cancelled or gives up has written such a prefix of the log,
-- perhaps with the event behind it, and has marked the commit at most.
pub run_hub-once :
    (log : List Event) (mark : Answer) (attempts : ℕ → Attempt) (h : Hub)
    → Rising 0 log
    → Fresh h
    → ((n : ℕ) → ServesAll (attempts n))
    → (done : List Event) × (todo : List Event) × (log ≡ done ++ todo)
      × EndsAs log h.db.graded
          (run_hub mark log attempts h).1
          (run_hub mark log attempts h).0.db
          done
          todo
unfolding run_hub
run_hub-once log mark attempts h rising fresh all_ =
    run_attempts-RanTo log h.db.graded mark attempts max_stream_attempts h
      (
        [],
        log,
        record {
          split = refl;
          behind_cursor = tt;
          before_cursor = rw (fresh.at_start) rising;
          rows = holds log;
          result = λ t. cc (t, fresh.open_);
        },
      )
      fresh.open_ all_
  where
    holds : (log : List Event) → Holds h.db.graded [] log h.db.graded
    holds [] = refl
    holds (ev ∷ evs) = inl refl
