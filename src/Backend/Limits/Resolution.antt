-- ===== src/Backend/Limits/Resolution.antt =====
-- The resolution of limits in Go against the snapshot in SQL, and what the sources tell.
use runcodes.Prelude.{ℕ, ◌≡◌, refl, Option, none, some, List, arith, ℤ}
use runcodes.Backend.Limits.{
  Limits, Source, platform, exercise, test_case, or_else, source_or, or_no_overrides,
  resolve_limits, Row, find_row, case_limits, snapshot_limits,
}

-- The limits that the professor sees for a case and a language are those that a submission in that
-- language is graded under, and a submission with no language is graded under the platform's.
pub case_limits-snapshot :
    (base : Limits) (exercises cases : List Row) (exercise_id case_id language : ℕ)
    → ((case_limits base exercises cases exercise_id case_id language).0
        ≡ snapshot_limits base exercises cases exercise_id case_id (some language))
      × (snapshot_limits base exercises cases exercise_id case_id none ≡ base)
unfolding case_limits resolve_limits snapshot_limits
case_limits-snapshot base exercises cases exercise_id case_id language =
    (ground arith, ground arith)

-- A source names the layer that gave the value: the most specific one that overrides it.
abbrev pub Truthful : ℤ → Option ℤ → Option ℤ → ℤ → Source → Type 0
Truthful base by_exercise by_case value source =
    (source ≡ test_case → by_case ≡ some value)
    × (source ≡ exercise → (by_case ≡ none) × (by_exercise ≡ some value))
    × (source ≡ platform → (by_case ≡ none) × (by_exercise ≡ none) × (value ≡ base))

-- For each of the four limits of a case under a language, the source that is shown names the most
-- specific layer that overrides the limit, and the limit is that layer's value.
pub case_limits-sources :
    (base : Limits) (exercises cases : List Row) (exercise_id case_id language : ℕ)
    → let e = or_no_overrides (find_row exercise_id language exercises) in
      let c = or_no_overrides (find_row case_id language cases) in
      let r = case_limits base exercises cases exercise_id case_id language in
      Truthful base.cpu_time e.cpu_time c.cpu_time r.0.cpu_time r.1.cpu_time
      × Truthful base.mem_usage e.mem_usage c.mem_usage r.0.mem_usage r.1.mem_usage
      × Truthful base.stack e.stack c.stack r.0.stack r.1.stack
      × Truthful base.file_size e.file_size c.file_size r.0.file_size r.1.file_size
unfolding case_limits resolve_limits
case_limits-sources base exercises cases exercise_id case_id language =
    let e = or_no_overrides (find_row exercise_id language exercises) in
    let c = or_no_overrides (find_row case_id language cases) in
    (
      field base.cpu_time e.cpu_time c.cpu_time,
      field base.mem_usage e.mem_usage c.mem_usage,
      field base.stack e.stack c.stack,
      field base.file_size e.file_size c.file_size,
    )
  where
    field :
        (b : ℤ) (e c : Option ℤ)
        → Truthful b e c
            (or_else c (or_else e b))
            (source_or c test_case (source_or e exercise platform))
    field b none none = (λ h. cc, λ h. cc, λ h. (refl, refl, refl))
    field b (some v) none = (λ h. cc, λ h. (refl, refl), λ h. cc)
    field b e (some w) = (λ h. refl, λ h. cc, λ h. cc)
