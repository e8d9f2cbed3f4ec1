-- ===== src/Judge/Events/Delivery.antt =====
-- The terminal event of a topic: it closes the topic for good, and every later reader finds it.
use runcodes.Prelude.{
  ℕ, suc, ◌+◌, ◌-◌, ◌≤◌, ◌<◌, ◌≡◌, refl, ap, ◌∙◌, Bool, true, false, ◌||◌, Option, none, some, List,
  [], ◌∷◌, ◌++◌, map, length, keep, ltb, arith, inl, inr, Bool-cases, if_elim, lt→ltb,
}
use runcodes.Judge.Events.{
  Name, is_finished, status, compilation, case_result, timings, artifact, finished, error, alert,
  settle, Frame, Topic, size, max_frames, max_topic_bytes, evict_frames, append_frame, deliver,
  close_topic, publish_frame, publish_encoded, publish_topic, backlog_after, subscribe_topic,
  cancel_topic, receive_topic, Call, publishes, subscribes, cancels, receives, step_topic,
  run_topic,
}

-- The log of a topic: what a finished topic never changes.
record SameLog (t u : Topic) : Type 0 where
  frames : u.frames ≡ t.frames
  next : u.next ≡ t.next
  done : u.done ≡ true

step_done : (t : Topic) (c : Call) → t.done ≡ true → SameLog t (step_topic t c)
unfolding step_topic publish_topic subscribe_topic cancel_topic receive_topic
step_done t (publishes reads name marshal) h =
    if_elim (SameLog t) t.done t _ (λ _. record { frames = refl; next = refl; done = h })
      (λ e. cc (h, e))
step_done t (subscribes id from) h =
    if_elim (SameLog t) t.done _ _ (λ _. record { frames = refl; next = refl; done = h })
      (λ e. cc (h, e))
step_done t (cancels id) h = record { frames = refl; next = refl; done = h }
step_done t (receives id) h = record { frames = refl; next = refl; done = h }

-- Once a topic is done, no publication, subscription, cancellation or read changes its log or
-- opens it again.
pub run_done :
    (t : Topic) (cs : List Call)
    → t.done ≡ true
    → ((run_topic t cs).frames ≡ t.frames)
      × ((run_topic t cs).next ≡ t.next)
      × ((run_topic t cs).done ≡ true)
unfolding run_topic
run_done t [] h = (refl, refl, h)
run_done t (c ∷ cs) h =
    let same = step_done t c h in
    let (f, n, d) = run_done (step_topic t c) cs same.done in (f ∙ same.frames, n ∙ same.next, d)

evict_frames_last :
    (b : ℕ) (fs : List Frame) (f : Frame)
    → (pre : List Frame) × ((evict_frames b (fs ++ f ∷ [])).1 ≡ pre ++ f ∷ [])
unfolding evict_frames
evict_frames_last b [] f = ([], refl)
evict_frames_last b (g ∷ []) f =
    elim (Bool-cases (ltb max_frames (length (g ∷ f ∷ [])) || ltb max_topic_bytes b)) [
      | inl e ↦ ([], rw e)
      | inr e ↦ (g ∷ [], rw e)
    ]
evict_frames_last b (g ∷ h ∷ fs) f =
    elim (Bool-cases (ltb max_frames (length (g ∷ h ∷ (fs ++ f ∷ []))) || ltb max_topic_bytes b)) [
      | inl e ↦ rw e (evict_frames_last (b - size g) (h ∷ fs) f)
      | inr e ↦ (g ∷ h ∷ fs, rw e)
    ]

keep_last :
    (from : ℕ) (fs : List Frame) (f : Frame)
    → from < f.seq
    → (pre : List Frame) × (keep (λ g. ltb from g.seq) (fs ++ f ∷ []) ≡ pre ++ f ∷ [])
keep_last from [] f h = ([], rw (lt→ltb from f.seq h))
keep_last from (g ∷ fs) f h =
    let (pre, e) = keep_last from fs f h in
    elim (Bool-cases (ltb from g.seq)) [
      | inl yes_ ↦ (g ∷ pre, rw (yes_, e))
      | inr no_ ↦ (pre, rw (no_, e))
    ]

publish_topic_open :
    (reads : ℕ → ℕ) (name : Name) (marshal : ℕ → Option (List ℕ)) (t : Topic) (bytes : List ℕ)
    → t.done ≡ false
    → marshal (suc t.next) ≡ some bytes
    → publish_topic reads name marshal t
      ≡ publish_frame reads name bytes (record t { next = suc t.next })
unfolding publish_topic
publish_topic_open reads name marshal t bytes e m =
    let t' : Topic = record t { next = suc t.next } in
    if_elim (λ u. u ≡ publish_encoded reads name (marshal (suc t.next)) t') t.done t _
      (λ d. cc (e, d)) (λ _. refl)
    ∙ ap (λ o. publish_encoded reads name o t') m

-- Where `finished` is published on a topic that is not done, and its payload can be encoded, the
-- topic is done, the channel of every subscriber is closed, behind what the buffer takes of the frame,
-- and no channel that was closed is forgotten, no subscriber is left, and whoever subscribes from a
-- number given before gets a backlog that ends with the `finished` frame.
pub finished_replayed :
    (reads : ℕ → ℕ) (marshal : ℕ → Option (List ℕ)) (t : Topic) (bytes : List ℕ) (from : ℕ)
    → t.done ≡ false
    → marshal (suc t.next) ≡ some bytes
    → from ≤ t.next
    → ((publish_topic reads finished marshal t).done ≡ true)
      × ((publish_topic reads finished marshal t).subs ≡ [])
      × ((publish_topic reads finished marshal t).closed
          ≡ map
              (deliver reads (record { seq = suc t.next; name = finished; data_bytes = bytes }))
              t.subs
            ++ t.closed)
      × ((pre : List Frame) × (backlog_after from (publish_topic reads finished marshal t)
            ≡ pre ++ record { seq = suc t.next; name = finished; data_bytes = bytes } ∷ []))
unfolding publish_frame append_frame close_topic backlog_after
finished_replayed reads marshal t bytes from e m h =
    let f : Frame = record { seq = suc t.next; name = finished; data_bytes = bytes } in
    let (pre, p) = evict_frames_last (t.bytes + size f) t.frames f in
    let (pre', q) = keep_last from pre f (omega arith) in
    rw (publish_topic_open reads finished marshal t bytes e m) (refl, refl, refl, (pre', rw p q))

settle_open :
    (name : Name) (t : Topic)
    → is_finished name ≡ false
    → t.done ≡ false
    → (settle name t).done ≡ false
settle_open status t n d = d
settle_open compilation t n d = d
settle_open case_result t n d = d
settle_open timings t n d = d
settle_open artifact t n d = d
settle_open finished t n d = cc
settle_open error t n d = d
settle_open alert t n d = d

publish_encoded_open :
    (reads : ℕ → ℕ) (name : Name) (o : Option (List ℕ)) (t : Topic)
    → is_finished name ≡ false
    → t.done ≡ false
    → (publish_encoded reads name o t).done ≡ false
unfolding publish_frame append_frame
publish_encoded_open reads name none t n d = d
publish_encoded_open reads name (some bytes) t n d = settle_open name _ n d

-- Only `finished` closes a topic.
pub publish_topic_keeps_open :
    (reads : ℕ → ℕ) (name : Name) (marshal : ℕ → Option (List ℕ)) (t : Topic)
    → is_finished name ≡ false
    → t.done ≡ false
    → (publish_topic reads name marshal t).done ≡ false
unfolding publish_topic
publish_topic_keeps_open reads name marshal t n d =
    if_elim (λ (u : Topic). u.done ≡ false) t.done _ _ (λ e. cc d)
      (λ _. publish_encoded_open reads name _ _ n d)

abbrev pub is_publish : Call → Bool
is_publish (publishes reads name marshal) = true
is_publish _ = false

-- A subscription, a cancellation or a read does not close it.
pub other_call_keeps_open :
    (t : Topic) (c : Call) → is_publish c ≡ false → t.done ≡ false → (step_topic t c).done ≡ false
unfolding step_topic subscribe_topic cancel_topic receive_topic
other_call_keeps_open t (publishes reads name marshal) o d = cc
other_call_keeps_open t (subscribes id from) o d = ground arith
other_call_keeps_open t (cancels id) o d = d
other_call_keeps_open t (receives id) o d = d
