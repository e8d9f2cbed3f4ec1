-- ===== src/Backend/Throttle/Cooldown.antt =====
-- What the throttles promise over any sequence of reservations and releases.
use runcodes.Prelude.{
  ℕ, ◌+◌, ◌≤◌, ◌<◌, ◌≡◌, refl, ◌∙◌, ◌⊎◌, inl, inr, Bool, true, false, some, List, [], ◌∷◌, length,
  ltb, arith, Text, text_eq, text_eq-eq, Bool-cases, ltb→lt,
}
use runcodes.Backend.Throttle.{
  Throttle, find_time, make_room, Refusal, reserved, refused_empty, refused_cooling_down,
  refused_table_full, reserve, release, alert_reserve, alert_release,
}
use runcodes.Backend.Throttle.Table.{
  length-make_room-le, length-delete_key-le, length-set_time-le, find-make_room_live, find-set_same,
  find-set_other, find-delete_other, DistinctKeys, DistinctKeys-delete, DistinctKeys-set_time,
  DistinctKeys-make_room,
}

abbrev pub is_reserved : Refusal → Bool
is_reserved reserved = true
is_reserved refused_empty = false
is_reserved refused_cooling_down = false
is_reserved refused_table_full = false

-- A use of the throttle.
pub data Use : Type 0 where
  attempt : Text → ℕ → Use
  free : Text → Use

abbrev pub use_step : Throttle → Use → Throttle
use_step t (attempt key now) = (reserve key now t).0
use_step t (free key) = release key t

abbrev pub use_all : Throttle → List Use → Throttle
use_all t [] = t
use_all t (u ∷ us) = use_all (use_step t u) us

-- Uses between the times `from` and `to`, in the order of their times, none of which frees `key`.
abbrev pub Between : Text → ℕ → ℕ → List Use → Type 0
Between key from to [] = from ≤ to
Between key from to (attempt j now ∷ us) = (from ≤ now) × Between key now to us
Between key from to (free j ∷ us) = (text_eq j key ≡ false) × Between key from to us

-- The key was used at `t`, and at the time `u` it is still recorded or its cooldown is over.
abbrev Recorded : Text → ℕ → ℕ → Throttle → Type 0
Recorded key t u T =
    (t ≤ u) × (((s : ℕ) × (find_time key T.last_sent ≡ some s) × (t ≤ s)) ⊎ (t + T.cooldown ≤ u))

reserve-cooldown :
    (key : Text) (now : ℕ) (T : Throttle) → (reserve key now T).0.cooldown ≡ T.cooldown
unfolding reserve
reserve-cooldown key now T = ground arith

reserve-max : (key : Text) (now : ℕ) (T : Throttle) → (reserve key now T).0.max ≡ T.max
unfolding reserve
reserve-max key now T = ground arith

use_all-cooldown : (us : List Use) (T : Throttle) → (use_all T us).cooldown ≡ T.cooldown
unfolding release
use_all-cooldown [] T = refl
use_all-cooldown (attempt j now ∷ us) T =
    use_all-cooldown us (reserve j now T).0 ∙ reserve-cooldown j now T
use_all-cooldown (free j ∷ us) T = use_all-cooldown us (release j T)

-- A reservation leaves the record of another key, or of the same one with a later time.
reserve-find_live :
    (key j : Text) (now s : ℕ) (T : Throttle)
    → find_time key T.last_sent ≡ some s
    → now < s + T.cooldown
    → (find_time key (reserve j now T).0.last_sent ≡ some s)
      ⊎ (find_time key (reserve j now T).0.last_sent ≡ some now)
unfolding reserve
reserve-find_live key j now s T h live = elim (Bool-cases (text_eq j key)) [
  | inl same ↦ ground (
    arith,
    find-make_room_live key T.cooldown T.max now s T.last_sent h live,
    find-set_same key now (make_room T.cooldown T.max now T.last_sent),
    text_eq-eq j key same,
  )
  | inr other ↦ ground (
    arith,
    find-make_room_live key T.cooldown T.max now s T.last_sent h live,
    find-set_other key j now (make_room T.cooldown T.max now T.last_sent) other,
  )
]

Recorded-attempt :
    (key j : Text) (t u now : ℕ) (T : Throttle)
    → u ≤ now
    → Recorded key t u T
    → Recorded key t now (reserve j now T).0
Recorded-attempt key j t u now T h (before, inr over) =
    (omega arith, inr (omega (arith, reserve-cooldown j now T)))
Recorded-attempt key j t u now T h (before, inl (s, found, later)) =
    elim (Bool-cases (ltb now (s + T.cooldown))) [
      | inl live ↦ (
        omega arith,
        inl (elim (reserve-find_live key j now s T found (ltb→lt now _ live)) [
          | inl kept ↦ (s, kept, later)
          | inr set ↦ (now, set, omega arith)
        ]),
      )
      | inr over ↦ (
        omega arith,
        inr (omega (arith, reserve-cooldown j now T, not_ltb now (s + T.cooldown) over)),
      )
    ]
  where
    not_ltb : (a b : ℕ) → ltb a b ≡ false → b ≤ a
    not_ltb a b h = ground arith

Recorded-all :
    (us : List Use) (key : Text) (t u v : ℕ) (T : Throttle)
    → Between key u v us
    → Recorded key t u T
    → Recorded key t v (use_all T us)
unfolding release
Recorded-all [] key t u v T h (before, inl found) = (omega arith, inl found)
Recorded-all [] key t u v T h (before, inr over) = (omega arith, inr (omega arith))
Recorded-all (attempt j now ∷ us) key t u v T (h, hs) r =
    Recorded-all us key t now v (reserve j now T).0 hs (Recorded-attempt key j t u now T h r)
Recorded-all (free j ∷ us) key t u v T (h, hs) (before, inl (s, found, later)) =
    Recorded-all us key t u v (release j T) hs
      (before, inl (s, find-delete_other key j T.last_sent h ∙ found, later))
Recorded-all (free j ∷ us) key t u v T (h, hs) (before, inr over) =
    Recorded-all us key t u v (release j T) hs (before, inr over)

reserve-Recorded :
    (key : Text) (t : ℕ) (T : Throttle)
    → (reserve key t T).1 ≡ reserved
    → Recorded key t t (reserve key t T).0
unfolding reserve
reserve-Recorded key t T h = (
  omega arith,
  inl (
    t,
    ground (arith, find-set_same key t (make_room T.cooldown T.max t T.last_sent)),
    omega arith,
  ),
)

reserved-not_cooling :
    (key : Text) (now s : ℕ) (T : Throttle)
    → (reserve key now T).1 ≡ reserved
    → find_time key T.last_sent ≡ some s
    → s + T.cooldown ≤ now
unfolding reserve
reserved-not_cooling key now s T h found = ground arith

-- Whatever the throttle held before: of two reservations of one key that both succeed, the second is
-- at least the cooldown after the first, whichever reservations of any keys and releases of other
-- keys come between them in the order of their times. A full table or a stale entry changes nothing.
pub cooldown_apart :
    (key : Text) (t now : ℕ) (us : List Use) (T : Throttle)
    → Between key t now us
    → (reserve key t T).1 ≡ reserved
    → (reserve key now (use_all (reserve key t T).0 us)).1 ≡ reserved
    → t + T.cooldown ≤ now
cooldown_apart key t now us T between first second =
    let T₁ = (reserve key t T).0 in
    let (before, cases) = Recorded-all us key t t now T₁ between (reserve-Recorded key t T first) in
    let same = use_all-cooldown us T₁ ∙ reserve-cooldown key t T in
    elim cases [
      | inl (s, found, later) ↦
          omega (arith, same, reserved-not_cooling key now s (use_all T₁ us) second found)
      | inr over ↦ omega (arith, same)
    ]

-- The table is a map within the throttle's bound.
pub record WellFormed (t : Throttle) : Type 0 where
  pub distinct : DistinctKeys t.last_sent
  pub bounded : length t.last_sent ≤ t.max

reserve-DistinctKeys :
    (key : Text) (now : ℕ) (T : Throttle)
    → DistinctKeys T.last_sent
    → DistinctKeys (reserve key now T).0.last_sent
unfolding reserve
reserve-DistinctKeys key now T h =
    let room = DistinctKeys-make_room T.cooldown T.max now T.last_sent h in
    ground (arith, h, room, DistinctKeys-set_time key now _ room)

reserve-length :
    (key : Text) (now : ℕ) (T : Throttle)
    → length T.last_sent ≤ T.max
    → length (reserve key now T).0.last_sent ≤ T.max
unfolding reserve
reserve-length key now T h =
    let room = make_room T.cooldown T.max now T.last_sent in
    ground
      (arith, length-make_room-le T.cooldown T.max now T.last_sent, length-set_time-le key now room)

-- Any sequence of reservations and releases keeps the table a map with at most `max` entries.
use_all-WellFormed : (us : List Use) (T : Throttle) → WellFormed T → WellFormed (use_all T us)
unfolding release
use_all-WellFormed [] T w = w
use_all-WellFormed (attempt key now ∷ us) T w =
    use_all-WellFormed us (reserve key now T).0 (record {
      distinct = reserve-DistinctKeys key now T w.distinct;
      bounded = omega (arith, reserve-length key now T w.bounded, reserve-max key now T);
    })
use_all-WellFormed (free key ∷ us) T w = use_all-WellFormed us (release key T) (record {
  distinct = DistinctKeys-delete key T.last_sent w.distinct;
  bounded = omega (arith, length-delete_key-le key T.last_sent, w.bounded);
})

-- The cooldown of alerts.go and the throttle of mail-throttle.go are the same machine: a reservation
-- leaves the same table and succeeds together, and so does a release.
pub alert_reserve-reserve :
    (key : Text) (now : ℕ) (T : Throttle)
    → (alert_reserve key now T ≡ ((reserve key now T).0, is_reserved (reserve key now T).1))
      × (alert_release key T ≡ release key T)
unfolding alert_reserve reserve alert_release release
alert_reserve-reserve key now T = (ground arith, refl)
