-- ===== src/Judge/Report/Fields.antt =====
-- readMonitor and Valid: which lines make a report usable.
use runcodes.Prelude.{
  ℕ, ◌≡◌, refl, Bool, true, false, ◌&&◌, ◌||◌, Option, none, some, List, [], ◌∷◌, any, arith, ℤ,
  Text, codes, text_eq, text_eq-eq, parse_int, Floats, split,
}
use runcodes.Judge.Report.{
  MonitorInfo, key_value, no_info, duration, assign, assign_entry, read_lines, read_monitor, valid,
  with_time, with_cpu, with_exit, with_mem,
}

abbrev is_some {ℓ} : {A : Type ℓ} → Option A → Bool
is_some none = false
is_some (some a) = true

abbrev pub is_signal_entry : Option (Text × Text) → Bool
is_signal_entry none = false
is_signal_entry (some (k, v)) = text_eq k (codes "signal")

module _ (F : Floats) where
  abbrev pub is_time_entry : Option (Text × Text) → Bool
  is_time_entry none = false
  is_time_entry (some (k, v)) = text_eq k (codes "time") && is_some (duration F v)

key_time :
    (k : Text)
    → text_eq k (codes "time") ≡ true
    → (text_eq k (codes "signal") ≡ false) × (text_eq k (codes "exit_status") ≡ false)
unfolding codes text_eq
key_time k h = rw (text_eq-eq k _ h) (refl, refl)

module _ (F : Floats) (i : MonitorInfo F) where
  with_exit_flags :
      (o : Option ℤ)
      → ((with_exit F i o).has_signal ≡ i.has_signal) × ((with_exit F i o).has_time ≡ i.has_time)
  with_exit_flags none = (refl, refl)
  with_exit_flags (some n) = (refl, refl)

  with_mem_flags :
      (o : Option ℤ)
      → ((with_mem F i o).has_signal ≡ i.has_signal) × ((with_mem F i o).has_time ≡ i.has_time)
  with_mem_flags none = (refl, refl)
  with_mem_flags (some n) = (refl, refl)

  with_cpu_flags :
      (o : Option F.Float)
      → ((with_cpu F i o).has_signal ≡ i.has_signal) × ((with_cpu F i o).has_time ≡ i.has_time)
  with_cpu_flags none = (refl, refl)
  with_cpu_flags (some n) = (refl, refl)

  with_time_flags :
      (o : Option F.Float)
      → ((with_time F i o).has_signal ≡ i.has_signal)
        × ((with_time F i o).has_time ≡ (i.has_time || is_some o))
  with_time_flags none = (refl, ground arith)
  with_time_flags (some n) = (refl, ground arith)

  assign_flags :
      (k v : Text)
      → ((assign F i k v).has_signal ≡ (i.has_signal || text_eq k (codes "signal")))
        × ((assign F i k v).has_time
            ≡ (i.has_time || (text_eq k (codes "time") && is_some (duration F v))))
  unfolding assign
  assign_flags k v = ground (
    arith,
    key_time k,
    with_exit_flags (parse_int v),
    with_mem_flags (parse_int v),
    with_cpu_flags (duration F v),
    with_time_flags (duration F v),
  )

module _ (F : Floats) (lower : ℕ → ℕ) where
  assign_entry_flags :
      (i : MonitorInfo F) (e : Option (Text × Text))
      → ((assign_entry F i e).has_signal ≡ (i.has_signal || is_signal_entry e))
        × ((assign_entry F i e).has_time ≡ (i.has_time || is_time_entry F e))
  assign_entry_flags i none = (ground arith, ground arith)
  assign_entry_flags i (some (k, v)) = assign_flags F i k v

  read_lines_flags :
      (ls : List Text) (i : MonitorInfo F)
      → ((read_lines F lower i ls).has_signal
          ≡ (i.has_signal || any (λ l. is_signal_entry (key_value lower l)) ls))
        × ((read_lines F lower i ls).has_time
            ≡ (i.has_time || any (λ l. is_time_entry F (key_value lower l)) ls))
  unfolding read_lines
  read_lines_flags [] i = (ground arith, ground arith)
  read_lines_flags (l ∷ ls) i =
      let e = key_value lower l in
      let (s, t) = assign_entry_flags i e in
      let (s', t') = read_lines_flags ls (assign_entry F i e) in
      (ground (arith, s, s'), ground (arith, t, t'))

-- A report is usable exactly when one of its lines gives a signal (which may be empty) and one a
-- time that parses and is at least 0; comments, other keys and other lines do not matter.
valid-read_monitor :
    (F : Floats) (lower : ℕ → ℕ) (raw : Text)
    → valid F (read_monitor F lower (some raw)) ≡ (
        any (λ l. is_signal_entry (key_value lower l)) (split b'\n' raw)
        && any (λ l. is_time_entry F (key_value lower l)) (split b'\n' raw))
unfolding read_monitor
valid-read_monitor F lower raw =
    let (s, t) = read_lines_flags F lower (split b'\n' raw) (no_info F) in ground (arith, s, t)
