-- ===== src/Backend/Throttle/Slots.antt =====
-- The bulletin's gate: the throttle of its keys together with a bounded number of deliveries.
use runcodes.Prelude.{
  ℕ, ◌≤◌, ◌≡◌, Bool, true, false, ◌&&◌, ◌||◌, not, ltb, if◌then◌else◌, arith, Text, is_empty,
}
use runcodes.Backend.Throttle.{
  Throttle, reserve, send_within_cooldown, release, Gate, gate_begin, gate_done,
}
use runcodes.Backend.Throttle.Cooldown.{is_reserved}

-- A delivery for a key begins exactly when the throttle would reserve the key and a slot is free; one
-- without a key begins exactly when a slot is free. A delivery that begins leaves the table that the
-- reservation leaves, and takes one slot; a gate never holds more slots than it has, and `done`
-- after a delivery that began frees its slot.
pub gate_begin-reserve :
    (key : Text) (now : ℕ) (g : Gate)
    → g.slots_used ≤ g.slots
    → ((gate_begin key now g).1
        ≡ ((is_empty key || is_reserved (reserve key now g.table).1) && ltb g.slots_used g.slots))
      × (is_empty key ≡ false
          → (gate_begin key now g).1 ≡ true
          → (gate_begin key now g).0.table ≡ (reserve key now g.table).0)
      × ((gate_begin key now g).0.slots_used ≤ (gate_begin key now g).0.slots)
      × ((gate_begin key now g).1 ≡ true
          → (gate_done (gate_begin key now g).0).slots_used ≡ g.slots_used)
unfolding gate_begin reserve gate_done
gate_begin-reserve key now g h = (ground arith, ground arith, ground arith, ground arith)

-- A transactional message is sent exactly when its address is reserved; one that fails leaves no
-- reservation of the address, and one that succeeds keeps it.
send_within_cooldown_lem :
    (key : Text) (now : ℕ) (ok : Bool) (t : Throttle)
    → ((send_within_cooldown key now ok t).1 ≡ is_reserved (reserve key now t).1)
      × ((send_within_cooldown key now ok t).0 ≡ (
          if is_reserved (reserve key now t).1 && not ok
          then release key (reserve key now t).0
          else (reserve key now t).0))
unfolding send_within_cooldown
send_within_cooldown_lem key now ok t = (ground arith, ground arith)
