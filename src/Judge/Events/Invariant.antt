-- ===== src/Judge/Events/Invariant.antt =====
-- What holds of a topic after any sequence of publications, subscriptions, cancellations and reads.
use runcodes.Prelude.{
  ℕ, suc, ◌+◌, ◌≤◌, ◌<◌, ◌≡◌, refl, Bool, true, false, not, ◌||◌, Option, none, some, List, [], ◌∷◌,
  ◌++◌, map, keep, All, length, ltb, if◌then◌else◌, ◌==◌, arith, Bool-cases, append_assoc,
  append-nil, if_elim, inl, inr,
}
use runcodes.Judge.Events.{
  Name, finished, error, Frame, Channel, Topic, new_topic, size, append_frame, send, drain, deliver,
  settle, close_topic, publish_frame, publish_encoded, publish_topic, backlog_after, new_channel,
  subscribe_topic, cancel_topic, receive_topic, Call, publishes, subscribes, cancels, receives,
  step_topic, run_topic, is_finished, is_error, has_room,
}
use runcodes.Judge.Events.Chain.{
  Between, Between-append, Between-raise, Between-lower, total, total-append, evict_frames-total,
  evict_frames-Between, evict_frames-Bounded, Bounded,
}

-- What a subscriber has got, the backlog and then the channel, has rising numbers from `lo` up to
-- the last number given.
abbrev pub InOrder : ℕ → ℕ → Channel → Type 0
InOrder lo hi c = Between lo hi (c.backlog ++ c.sent)

send-InOrder :
    (lo mid hi : ℕ) (f : Frame) (c : Channel)
    → InOrder lo mid c
    → mid < f.seq
    → f.seq ≤ hi
    → InOrder lo hi (send f c)
unfolding send
send-InOrder lo mid hi f c b m h = elim (Bool-cases (has_room c)) [
  | inl e ↦ rw e (
      rw (← append_assoc c.backlog c.sent (f ∷ []))
        (Between-append lo mid hi f (c.backlog ++ c.sent) b m h))
  | inr e ↦ rw e (Between-raise lo mid hi (c.backlog ++ c.sent) (omega arith) b)
]

drain-InOrder : (lo hi k : ℕ) (c : Channel) → InOrder lo hi c → InOrder lo hi (drain k c)
unfolding drain
drain-InOrder lo hi k c b = elim (Bool-cases (ltb (length c.sent) (c.taken + k))) [
  | inl e ↦ rw e b
  | inr e ↦ rw e b
]

deliver_cases {ℓ} :
    (P : Channel → Type ℓ) (reads : ℕ → ℕ) (f : Frame) (c : Channel)
    → P (send f c)
    → P (send f (drain (reads c.id) c))
    → P (deliver reads f c)
unfolding deliver
deliver_cases P reads f c now later =
    if_elim P (is_finished f.name || is_error f.name) _ _
      (λ _. if_elim P (has_room c) _ _ (λ _. now) (λ _. later)) (λ _. now)

pub deliver-InOrder :
    (lo mid hi : ℕ) (reads : ℕ → ℕ) (f : Frame) (c : Channel)
    → InOrder lo mid c
    → mid < f.seq
    → f.seq ≤ hi
    → InOrder lo hi (deliver reads f c)
deliver-InOrder lo mid hi reads f c b m h =
    deliver_cases (InOrder lo hi) reads f c (send-InOrder lo mid hi f c b m h)
      (send-InOrder lo mid hi f (drain (reads c.id) c) (drain-InOrder lo mid (reads c.id) c b) m h)

map-InOrder :
    (lo mid hi : ℕ) (g : Channel → Channel)
    → ((c : Channel) → InOrder lo mid c → InOrder lo hi (g c))
    → (cs : List Channel) → All (InOrder lo mid) cs
    → All (InOrder lo hi) (map g cs)
map-InOrder lo mid hi g step [] a = tt
map-InOrder lo mid hi g step (c ∷ cs) a = (step c a.0, map-InOrder lo mid hi g step cs a.1)

raise-InOrder :
    (lo mid hi : ℕ)
    → mid ≤ hi
    → (cs : List Channel) → All (InOrder lo mid) cs
    → All (InOrder lo hi) cs
raise-InOrder lo mid hi h [] a = tt
raise-InOrder lo mid hi h (c ∷ cs) a =
    (Between-raise lo mid hi (c.backlog ++ c.sent) h a.0, raise-InOrder lo mid hi h cs a.1)

keep-All {ℓ κ} :
    {A : Type ℓ} (P : A → Type κ) (p : A → Bool) (xs : List A) → All P xs → All P (keep p xs)
keep-All P p [] a = tt
keep-All P p (x ∷ xs) a = elim (Bool-cases (p x)) [
  | inl e ↦ rw e (a.0, keep-All P p xs a.1)
  | inr e ↦ rw e (keep-All P p xs a.1)
]

append-All {ℓ κ} :
    {A : Type ℓ} (P : A → Type κ) (xs ys : List A) → All P xs → All P ys → All P (xs ++ ys)
append-All P [] ys a b = b
append-All P (x ∷ xs) ys a b = (a.0, append-All P xs ys a.1 b)

-- The frames are in order and within their bounds, `bytes` is their size, a topic that is done has
-- no subscriber, and every channel has got its frames in order.
pub record Inv (t : Topic) : Type 0 where
  pub chain : Between 0 t.next t.frames
  pub sized : t.bytes ≡ total t.frames
  pub bounded : Bounded t.bytes t.frames
  pub quiet : t.done ≡ true → t.subs ≡ []
  pub live : All (InOrder 0 t.next) t.subs
  pub over : All (InOrder 0 t.next) t.closed

new_topic-Inv : Inv new_topic
unfolding new_topic total
new_topic-Inv = record {
  chain = omega arith;
  sized = refl;
  bounded = inl (omega arith);
  quiet = λ h. cc;
  live = tt;
  over = tt;
}

close_topic-Inv : (t : Topic) → Inv t → Inv (close_topic t)
unfolding close_topic
close_topic-Inv t v = record {
  chain = v.chain;
  sized = v.sized;
  bounded = v.bounded;
  quiet = λ _. refl;
  live = tt;
  over = append-All (InOrder 0 t.next) t.subs t.closed v.live v.over;
}

arm-Inv : (t : Topic) → Inv t → Inv (record t { armed = true })
arm-Inv t v = record {
  chain = v.chain;
  sized = v.sized;
  bounded = v.bounded;
  quiet = v.quiet;
  live = v.live;
  over = v.over;
}

settle-Inv : (n : Name) (t : Topic) → Inv t → Inv (settle n t)
settle-Inv finished t v = close_topic-Inv t v
settle-Inv error t v = arm-Inv t v
settle-Inv _ t v = v

-- A topic as it is left by the taking of a number: its frames stop before it.
publish_frame-Inv :
    (reads : ℕ → ℕ) (name : Name) (bytes : List ℕ) (t : Topic)
    → t.done ≡ false
    → Inv t
    → Inv (publish_frame reads name bytes (record t { next = suc t.next }))
unfolding publish_frame append_frame
publish_frame-Inv reads name bytes t open_ v =
    let f : Frame = record { seq = suc t.next; name = name; data_bytes = bytes } in
    let grown = t.frames ++ f ∷ [] in
    settle-Inv name _ (record {
      chain =
          evict_frames-Between (t.bytes + size f) 0 (suc t.next) grown
            (Between-append 0 t.next (suc t.next) f t.frames v.chain (omega arith) (omega arith));
      sized =
          evict_frames-total (t.bytes + size f) grown
            (omega (arith, total-append t.frames f, v.sized));
      bounded = evict_frames-Bounded (t.bytes + size f) grown;
      quiet = λ h. cc (open_, h);
      live =
          map-InOrder 0 t.next (suc t.next) (deliver reads f)
            (λ c b. deliver-InOrder 0 t.next (suc t.next) reads f c b (omega arith) (omega arith))
            t.subs v.live;
      over = raise-InOrder 0 t.next (suc t.next) (omega arith) t.closed v.over;
    })

skip-Inv : (t : Topic) → Inv t → Inv (record t { next = suc t.next })
skip-Inv t v = record {
  chain = Between-raise 0 t.next (suc t.next) t.frames (omega arith) v.chain;
  sized = v.sized;
  bounded = v.bounded;
  quiet = v.quiet;
  live = raise-InOrder 0 t.next (suc t.next) (omega arith) t.subs v.live;
  over = raise-InOrder 0 t.next (suc t.next) (omega arith) t.closed v.over;
}

publish_encoded-Inv :
    (reads : ℕ → ℕ) (name : Name) (o : Option (List ℕ)) (t : Topic)
    → t.done ≡ false
    → Inv t
    → Inv (publish_encoded reads name o (record t { next = suc t.next }))
publish_encoded-Inv reads name none t e v = skip-Inv t v
publish_encoded-Inv reads name (some bytes) t e v = publish_frame-Inv reads name bytes t e v

publish_topic-Inv :
    (reads : ℕ → ℕ) (name : Name) (marshal : ℕ → Option (List ℕ)) (t : Topic)
    → Inv t
    → Inv (publish_topic reads name marshal t)
unfolding publish_topic
publish_topic-Inv reads name marshal t v =
    if_elim Inv t.done t _ (λ _. v)
      (λ e. publish_encoded-Inv reads name (marshal (suc t.next)) t e v)

keep-chain :
    (from lo hi : ℕ) (fs : List Frame)
    → Between lo hi fs
    → Between lo hi (keep (λ f. ltb from f.seq) fs)
keep-chain from lo hi [] b = b
keep-chain from lo hi (f ∷ fs) b = elim (Bool-cases (ltb from f.seq)) [
  | inl e ↦ rw e (b.0, keep-chain from f.seq hi fs b.1)
  | inr e ↦ rw e (Between-lower f.seq lo hi _ (omega arith) (keep-chain from f.seq hi fs b.1))
]

subscribe_topic-Inv : (id from : ℕ) (t : Topic) → Inv t → Inv (subscribe_topic id from t)
unfolding subscribe_topic
subscribe_topic-Inv id from t v =
    let got : InOrder 0 t.next (new_channel id from t) =
      rw (append-nil (backlog_after from t)) (keep-chain from 0 t.next t.frames v.chain) in
    if_elim Inv t.done _ _
      (λ _. record {
        chain = v.chain;
        sized = v.sized;
        bounded = v.bounded;
        quiet = v.quiet;
        live = v.live;
        over = (got, v.over);
      })
      (λ e. record {
        chain = v.chain;
        sized = v.sized;
        bounded = v.bounded;
        quiet = λ h. cc (e, h);
        live = (got, v.live);
        over = v.over;
      })

cancel_topic-Inv : (id : ℕ) (t : Topic) → Inv t → Inv (cancel_topic id t)
unfolding cancel_topic
cancel_topic-Inv id t v = record {
  chain = v.chain;
  sized = v.sized;
  bounded = v.bounded;
  quiet = λ h. rw (v.quiet h) refl;
  live = keep-All (InOrder 0 t.next) (λ c. not (c.id == id)) t.subs v.live;
  over =
      append-All (InOrder 0 t.next) _ t.closed
        (keep-All (InOrder 0 t.next) (λ c. c.id == id) t.subs v.live) v.over;
}

read-InOrder :
    (id hi : ℕ) (c : Channel) → InOrder 0 hi c → InOrder 0 hi (if c.id == id then drain 1 c else c)
read-InOrder id hi c b = elim (Bool-cases (c.id == id)) [
  | inl e ↦ rw e (drain-InOrder 0 hi 1 c b)
  | inr e ↦ rw e b
]

receive_topic-Inv : (id : ℕ) (t : Topic) → Inv t → Inv (receive_topic id t)
unfolding receive_topic
receive_topic-Inv id t v = record {
  chain = v.chain;
  sized = v.sized;
  bounded = v.bounded;
  quiet = λ h. rw (v.quiet h) refl;
  live = map-InOrder 0 t.next t.next _ (read-InOrder id t.next) t.subs v.live;
  over = map-InOrder 0 t.next t.next _ (read-InOrder id t.next) t.closed v.over;
}

-- Every step keeps a topic well formed.
pub step_topic-Inv : (t : Topic) (c : Call) → Inv t → Inv (step_topic t c)
unfolding step_topic
step_topic-Inv t (publishes reads name marshal) v = publish_topic-Inv reads name marshal t v
step_topic-Inv t (subscribes id from) v = subscribe_topic-Inv id from t v
step_topic-Inv t (cancels id) v = cancel_topic-Inv id t v
step_topic-Inv t (receives id) v = receive_topic-Inv id t v

run_from-Inv : (t : Topic) (cs : List Call) → Inv t → Inv (run_topic t cs)
unfolding run_topic
run_from-Inv t [] v = v
run_from-Inv t (c ∷ cs) v = run_from-Inv (step_topic t c) cs (step_topic-Inv t c v)

-- After any publications, subscriptions, cancellations and reads the retained frames are in rising
-- order, `bytes` is their size, at most one frame stands over the bounds of 1024 frames and 16 MiB,
-- a finished topic has no subscriber left, and what each subscriber was given, backlog and live
-- frames together, is in rising order with no frame twice.
pub run_topic-Inv : (cs : List Call) → Inv (run_topic new_topic cs)
run_topic-Inv cs = run_from-Inv new_topic cs new_topic-Inv
