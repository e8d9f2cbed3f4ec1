-- ===== src/Backend/Throttle/Tests.antt =====
-- The throttles at concrete inputs.
use runcodes.Prelude.{
  ◌+◌, ◌≤◌, ◌≡◌, refl, true, false, ◌&&◌, ◌||◌, ltb, List, [], ◌∷◌, arith, Text, text_eq, is_empty,
}
use runcodes.Backend.Throttle.{
  Throttle, reserve, reserved, refused_cooling_down, release, alert_reserve, alert_release, Gate,
  gate_begin, gate_done, set_time, delete_key,
}
use runcodes.Backend.Throttle.Cooldown.{
  Use, attempt, free, use_all, Between, cooldown_apart, WellFormed, is_reserved,
  alert_reserve-reserve,
}
use runcodes.Backend.Throttle.Slots.{gate_begin-reserve}

abbrev fresh : Throttle
fresh = record { last_sent = []; cooldown = 5; max = 2 }

abbrev ada : Text
ada = b'a' ∷ []

abbrev bob : Text
bob = b'b' ∷ []

abbrev busy : List Use
busy = attempt bob 3 ∷ attempt ada 4 ∷ free bob ∷ []

second_reserved : (reserve ada 9 (use_all (reserve ada 2 fresh).0 busy)).1 ≡ reserved
unfolding reserve release delete_key set_time text_eq
second_reserved = refl

too_soon : (reserve ada 4 (reserve ada 2 fresh).0).1 ≡ refused_cooling_down
unfolding reserve set_time text_eq
too_soon = refl

busy-Between : Between ada 2 9 busy
unfolding text_eq
busy-Between = (omega arith, (omega arith, (refl, omega arith)))

first_reserved : (reserve ada 2 fresh).1 ≡ reserved
unfolding reserve
first_reserved = refl

cooldown_apart_example : 2 + fresh.cooldown ≤ 9
cooldown_apart_example =
    cooldown_apart ada 2 9 busy fresh busy-Between first_reserved second_reserved

fresh-WellFormed : WellFormed fresh
fresh-WellFormed = record { distinct = tt; bounded = omega arith }

alert_reserve-reserve_example :
    (alert_reserve ada 2 fresh ≡ ((reserve ada 2 fresh).0, is_reserved (reserve ada 2 fresh).1))
    × (alert_release ada fresh ≡ release ada fresh)
alert_reserve-reserve_example = alert_reserve-reserve ada 2 fresh

abbrev gate : Gate
gate = record { table = fresh; slots_used = 1; slots = 2 }

gate_begin-reserve_example :
    ((gate_begin ada 2 gate).1 ≡ (
      (is_empty ada || is_reserved (reserve ada 2 gate.table).1) && ltb gate.slots_used gate.slots))
    × (is_empty ada ≡ false
        → (gate_begin ada 2 gate).1 ≡ true
        → (gate_begin ada 2 gate).0.table ≡ (reserve ada 2 gate.table).0)
    × ((gate_begin ada 2 gate).0.slots_used ≤ (gate_begin ada 2 gate).0.slots)
    × ((gate_begin ada 2 gate).1 ≡ true
        → (gate_done (gate_begin ada 2 gate).0).slots_used ≡ gate.slots_used)
gate_begin-reserve_example = gate_begin-reserve ada 2 gate (omega arith)
