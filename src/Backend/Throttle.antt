-- ===== src/Backend/Throttle.antt =====
-- The cooldowns that bound e-mail: backend/services/mail-throttle.go, the cooldown of
-- backend/alerts/alerts.go and the gate of backend/services/bulletin-service.go. A time is a number
-- of nanoseconds; `now.Sub(last) < cooldown` is `now < last + cooldown`. A map from keys to times is
-- the list of its entries. A mutex makes each operation one step.
pub mod Table
pub mod Cooldown
pub mod Slots
mod Tests
use runcodes.Prelude.{
  ℕ, zero, suc, ◌+◌, ◌-◌, Bool, true, false, not, ◌&&◌, Option, none, some, List, [], ◌∷◌, length,
  ltb, leb, if◌then◌else◌, keep, Text, text_eq, is_empty,
}

pub record Sent : Type 0 where
  pub key : Text
  pub time : ℕ

pub record Throttle : Type 0 where
  pub last_sent : List Sent
  pub cooldown : ℕ
  pub max : ℕ

-- m[key]
unfoldable pub find_time : Text → List Sent → Option ℕ
find_time k [] = none
find_time k (e ∷ es) = if text_eq e.key k then some e.time else find_time k es

-- delete(m, key)
unfoldable pub delete_key : Text → List Sent → List Sent
delete_key k es = keep (λ e. not (text_eq e.key k)) es

-- m[key] = now
unfoldable pub set_time : Text → ℕ → List Sent → List Sent
unfolding delete_key
set_time k now es = record { key = k; time = now } ∷ delete_key k es

-- The entries that the loop over a full map leaves.
unfoldable pub evict_expired : ℕ → ℕ → List Sent → List Sent
evict_expired cooldown now es = keep (λ e. ltb now (e.time + cooldown)) es

-- The table after room was made for one more entry where it was full.
unfoldable pub make_room : ℕ → ℕ → ℕ → List Sent → List Sent
make_room cooldown max now es = if leb max (length es) then evict_expired cooldown now es else es

abbrev pub cooling : ℕ → ℕ → Option ℕ → Bool
cooling cooldown now none = false
cooling cooldown now (some last) = ltb now (last + cooldown)

pub data Refusal : Type 0 where
  reserved : Refusal
  refused_empty : Refusal
  refused_cooling_down : Refusal
  refused_table_full : Refusal

-- recipientThrottle.reserve; `reserved` is the empty reason, with which it returns true. A full
-- table stays evicted when the reservation is refused.
unfoldable pub reserve : Text → ℕ → Throttle → Throttle × Refusal
unfolding find_time make_room
reserve key now t =
    let room = make_room t.cooldown t.max now t.last_sent in
    if is_empty key
    then (t, refused_empty)
    else if cooling t.cooldown now (find_time key t.last_sent)
    then (t, refused_cooling_down)
    else if leb t.max (length room)
    then (record t { last_sent = room }, refused_table_full)
    else (record t { last_sent = set_time key now room }, reserved)

unfoldable pub release : Text → Throttle → Throttle
release key t = record t { last_sent = delete_key key t.last_sent }

-- sendWithinCooldown over an address that is already normalised; `ok` says whether the send, when it
-- is made, succeeds. The Boolean says whether it was made.
unfoldable pub send_within_cooldown : Text → ℕ → Bool → Throttle → Throttle × Bool
unfolding reserve release
send_within_cooldown key now ok t =
    let (t', answer) = reserve key now t in
    elim answer [
      | reserved ↦ (if ok then t' else release key t', true)
      | refused_empty ↦ (t', false)
      | refused_cooling_down ↦ (t', false)
      | refused_table_full ↦ (t', false)
    ]

-- cooldown.reserve and cooldown.release of alerts.go, whose table has the same fields.
unfoldable pub alert_reserve : Text → ℕ → Throttle → Throttle × Bool
unfolding find_time make_room
alert_reserve key now c =
    let room = make_room c.cooldown c.max now c.last_sent in
    if is_empty key
    then (c, false)
    else if cooling c.cooldown now (find_time key c.last_sent)
    then (c, false)
    else if leb c.max (length room)
    then (record c { last_sent = room }, false)
    else (record c { last_sent = set_time key now room }, true)

unfoldable pub alert_release : Text → Throttle → Throttle
alert_release key c = record c { last_sent = delete_key key c.last_sent }

-- bulletinNotifyGate: the table, and the slots in use with their capacity.
pub record Gate : Type 0 where
  pub table : Throttle
  pub slots_used : ℕ
  pub slots : ℕ

abbrev with_slot : Gate → List Sent → List Sent → Gate × Bool
with_slot g kept used =
    let full : Gate = record g { table = record g.table { last_sent = kept } } in
    let taken : Gate = record g {
      table = record g.table { last_sent = used };
      slots_used = suc g.slots_used;
    } in
    if ltb g.slots_used g.slots then (taken, true) else (full, false)

-- begin: an empty key passes the cooldown and leaves no entry.
unfoldable pub gate_begin : Text → ℕ → Gate → Gate × Bool
unfolding find_time make_room set_time
gate_begin key now g =
    let room = make_room g.table.cooldown g.table.max now g.table.last_sent in
    if is_empty key
    then with_slot g g.table.last_sent g.table.last_sent
    else if cooling g.table.cooldown now (find_time key g.table.last_sent)
    then (g, false)
    else if leb g.table.max (length room)
    then (record g { table = record g.table { last_sent = room } }, false)
    else with_slot g room (set_time key now room)

-- done
unfoldable pub gate_done : Gate → Gate
gate_done g = record g { slots_used = g.slots_used - 1 }
