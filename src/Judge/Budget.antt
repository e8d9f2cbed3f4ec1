-- ===== src/Judge/Budget.antt =====
-- The artifact budget of judge/internal/engine/outputs.go: how many bytes one run may publish. Sizes
-- are natural numbers; the compare-and-swap makes a reservation one step. A run's budget is never
-- nil here.
pub mod Reservations
mod Tests
use runcodes.Prelude.{
  ℕ, zero, suc, ◌+◌, ◌-◌, Bool, true, false, not, ◌&&◌, ◌||◌, List, [], ◌∷◌, ltb, leb, ◌==◌,
  if◌then◌else◌,
}

pub record ArtifactBudget : Type 0 where
  pub limit : ℕ
  pub used : ℕ
  pub exhausted : Bool

unfoldable pub new_artifact_budget : ℕ → ArtifactBudget
new_artifact_budget limit = record { limit = limit; used = 0; exhausted = false }

-- `b.used > b.limit - n` on signed numbers is `limit < used + n`.
unfoldable pub reserve_bytes : ℕ → ArtifactBudget → ArtifactBudget × Bool
reserve_bytes n b =
    if b.limit == 0 || n == 0
    then (b, true)
    else if ltb b.limit (b.used + n)
    then (record b { exhausted = true }, false)
    else (record b { used = b.used + n }, true)

unfoldable pub release_bytes : ℕ → ArtifactBudget → ArtifactBudget
release_bytes n b =
    if b.limit == 0 || n == 0
    then b
    else if ltb (b.used - n) b.limit
    then record b { used = b.used - n; exhausted = false }
    else record b { used = b.used - n }

unfoldable pub is_exhausted : ArtifactBudget → Bool
is_exhausted b = not (b.limit == 0) && (b.exhausted || leb b.limit b.used)

-- A run's budget with the uploads that hold a reservation, newest first.
pub record Uploads : Type 0 where
  pub budget : ArtifactBudget
  pub held : List ℕ

-- A worker asks for a size, or the upload with that place among the held ones fails.
pub data Upload : Type 0 where
  asks : ℕ → Upload
  fails : ℕ → Upload

abbrev pub at_or_zero : List ℕ → ℕ → ℕ
at_or_zero [] i = 0
at_or_zero (n ∷ ns) zero = n
at_or_zero (n ∷ ns) (suc i) = at_or_zero ns i

abbrev pub without : List ℕ → ℕ → List ℕ
without [] i = []
without (n ∷ ns) zero = ns
without (n ∷ ns) (suc i) = n ∷ without ns i

unfoldable pub upload_step : Upload → Uploads → Uploads
unfolding reserve_bytes release_bytes
upload_step (asks n) u =
    let (b, ok) = reserve_bytes n u.budget in
    if ok then record { budget = b; held = n ∷ u.held } else record u { budget = b }
upload_step (fails i) u = record {
  budget = release_bytes (at_or_zero u.held i) u.budget;
  held = without u.held i;
}

unfoldable pub upload_all : List Upload → Uploads → Uploads
unfolding upload_step
upload_all [] u = u
upload_all (x ∷ xs) u = upload_all xs (upload_step x u)
