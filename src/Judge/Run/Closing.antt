-- ===== src/Judge/Run/Closing.antt =====
-- Process and the hub (judge/internal/events/hub.go): the events of a run, published on the topic of
-- its commit while others subscribe to it, cancel and read.
use runcodes.Prelude.{
  ℕ, suc, ◌≡◌, refl, ap, ◌∙◌, true, false, Option, none, some, List, [], ◌∷◌, ◌++◌, keep, ltb, Text,
  arith, Floats,
}
use runcodes.Judge.Model.{RunStatus}
use runcodes.Judge.Grading.{Config}
use runcodes.Judge.Events.{
  Name, is_finished, Frame, Topic, new_topic, publish_topic, backlog_after, Call, publishes,
  step_topic, run_topic,
}
use runcodes.Judge.Events.Delivery.{
  run_done, finished_replayed, is_publish, publish_topic_keeps_open, other_call_keeps_open,
}
use runcodes.Judge.Run.{
  Job, Published, status, compilation, case_result, artifact, timings, alert, error, finished,
  process, run_events,
}
use runcodes.Judge.Run.Counts.{finished_count}
use runcodes.Judge.Run.Ending.{run_events-Told}

module _ (F : Floats) (lower : ℕ → ℕ) (cfg : Config) (quoted : Text → Text) where
  abbrev Event : Type 0
  Event = Published F lower cfg quoted

  -- The event's name on the stream: the methods of the hub.
  abbrev pub name_of : Event → Name
  name_of (status s) = Name.status
  name_of (compilation ok msg err) = Name.compilation
  name_of (case_result r) = Name.case_result
  name_of artifact = Name.artifact
  name_of timings = Name.timings
  name_of (alert m) = Name.alert
  name_of (error msg) = Name.error
  name_of (finished s n x msg err) = Name.finished

  -- The judge's own encoding of an event with its number.
  module _ (marshal : Event → ℕ → Option (List ℕ)) where
    -- The calls on a topic when the events are published in their order, with any other calls
    -- between.
    pub data Woven : List Event → List Call → Type 0 where
      nothing_left : {cs : List Call} → Woven [] cs
      publishing :
          (reads : ℕ → ℕ) (ev : Event) {evs : List Event} {cs : List Call}
          → Woven evs cs
          → Woven (ev ∷ evs) (publishes reads (name_of ev) (marshal ev) ∷ cs)
      another_call :
          (c : Call) {evs : List Event} {cs : List Call}
          → is_publish c ≡ false
          → Woven evs cs
          → Woven evs (c ∷ cs)

    -- Every `finished` event can be encoded.
    abbrev pub Encodes : Type 0
    Encodes =
        (s : RunStatus) (n : ℕ) (x : F.Float) (msg err : Text) (seq : ℕ)
        → (bytes : List ℕ) × (marshal (finished s n x msg err) seq ≡ some bytes)

    abbrev pub Closed : Topic → Type 0
    Closed t =
        (t.done ≡ true)
        × ((pre : List Frame) × (f : Frame) × (backlog_after 0 t ≡ pre ++ f ∷ [])
            × (f.name ≡ Name.finished))

    not_finished :
        (ev : Event)
        → finished_count F lower cfg quoted (ev ∷ []) ≡ 0
        → is_finished (name_of ev) ≡ false
    not_finished (status s) h = refl
    not_finished (compilation ok msg err) h = refl
    not_finished (case_result r) h = refl
    not_finished artifact h = refl
    not_finished timings h = refl
    not_finished (alert m) h = refl
    not_finished (error msg) h = refl
    not_finished (finished s n x msg err) h = ground arith

    closes_now :
        (s : RunStatus) (n : ℕ) (x : F.Float) (msg err : Text) (reads : ℕ → ℕ) (t : Topic)
        (cs : List Call)
        → Encodes
        → t.done ≡ false
        → Closed
            (run_topic (publish_topic reads Name.finished (marshal (finished s n x msg err)) t) cs)
    unfolding backlog_after
    closes_now s n x msg err reads t cs enc o =
        let ev : Event = finished s n x msg err in
        let (bytes, m) = enc s n x msg err (suc t.next) in
        let (d, _, _, (pre, e)) =
          finished_replayed reads (marshal ev) t bytes 0 o m (omega arith) in
        let t' = publish_topic reads Name.finished (marshal ev) t in
        let (fs, _, d') = run_done t' cs d in
        (
          d',
          (
            pre,
            record { seq = suc t.next; name = Name.finished; data_bytes = bytes },
            ap (λ frames. keep (λ g. ltb 0 g.seq) frames) fs ∙ e,
            refl,
          ),
        )

    -- A list of events of which only the last is `finished`.
    data OnlyLast : List Event → Type 0 where
      last_one :
          (s : RunStatus) (n : ℕ) (x : F.Float) (msg err : Text)
          → OnlyLast (finished s n x msg err ∷ [])
      earlier :
          (ev : Event) {evs : List Event}
          → is_finished (name_of ev) ≡ false
          → OnlyLast evs
          → OnlyLast (ev ∷ evs)

    Ends-OnlyLast :
        (front : List Event) (s : RunStatus) (n : ℕ) (x : F.Float) (msg err : Text)
        → finished_count F lower cfg quoted front ≡ 0
        → OnlyLast (front ++ timings ∷ finished s n x msg err ∷ [])
    Ends-OnlyLast [] s n x msg err c = earlier timings refl (last_one s n x msg err)
    Ends-OnlyLast (ev ∷ front) s n x msg err c =
        earlier ev (not_finished ev (omega (arith, c)))
          (Ends-OnlyLast front s n x msg err (omega (arith, c)))

    Woven-closes :
        (evs : List Event) (cs : List Call) (t : Topic)
        → Encodes
        → Woven evs cs
        → OnlyLast evs
        → t.done ≡ false
        → Closed (run_topic t cs)
    unfolding run_topic step_topic
    Woven-closes _ cs t enc nothing_left l o = elim l [ ]
    Woven-closes evs (c ∷ cs) t enc (another_call _ q w) l o =
        Woven-closes evs cs (step_topic t c) enc w l (other_call_keeps_open t c q o)
    Woven-closes _ (c ∷ cs) t enc (publishing reads _ w) (last_one s n x msg err) o =
        closes_now s n x msg err reads t cs enc o
    Woven-closes (_ ∷ evs) (c ∷ cs) t enc (publishing reads ev w) (earlier _ q l) o =
        Woven-closes evs cs (publish_topic reads (name_of ev) (marshal ev) t) enc w l
          (publish_topic_keeps_open reads (name_of ev) (marshal ev) t q o)

    -- Where the events of a run without a panic are published on a new topic, in their order and
    -- with any subscriptions, cancellations and reads between them, and every `finished` event can be
    -- encoded, the topic is done in the end, and a replay from its start ends with `finished`.
    pub process_closes_topic :
        (wait : Text) (j : Job) (cs : List Call)
        → Encodes
        → Woven (process F lower cfg quoted wait none j) cs
        → Closed (run_topic new_topic cs)
    unfolding process new_topic
    process_closes_topic wait j cs enc w =
        let t = run_events-Told F lower cfg quoted j wait in
        let (front, n, x, msg, err, e, c) = t.ends in
        Woven-closes (run_events F lower cfg quoted wait j) cs new_topic enc w
          (rw e (Ends-OnlyLast front t.verdict n x msg err c)) refl
