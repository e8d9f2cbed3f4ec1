-- ===== src/Judge/Budget/Reservations.antt =====
-- The budget holds whatever the workers do.
use runcodes.Prelude.{
  ℕ, zero, suc, ◌+◌, ◌≤◌, ◌<◌, ◌≡◌, refl, true, false, ◌||◌, List, [], ◌∷◌, leb, ◌==◌, arith,
}
use runcodes.Judge.Budget.{
  ArtifactBudget, new_artifact_budget, reserve_bytes, release_bytes, is_exhausted, Uploads, Upload,
  asks, fails, at_or_zero, without, upload_step, upload_all,
}

abbrev pub sum : List ℕ → ℕ
sum [] = 0
sum (n ∷ ns) = n + sum ns

sum-without : (ns : List ℕ) (i : ℕ) → at_or_zero ns i + sum (without ns i) ≡ sum ns
sum-without [] i = refl
sum-without (n ∷ ns) zero = refl
sum-without (n ∷ ns) (suc i) = omega (arith, sum-without ns i)

-- The bytes in use are those of the uploads that hold them, and fit the limit; the budget says that
-- it is exhausted wherever it is used up.
pub record Within (limit : ℕ) (u : Uploads) : Type 0 where
  pub same_limit : u.budget.limit ≡ limit
  pub exact : u.budget.used ≡ sum u.held
  pub fits : u.budget.used ≤ limit

upload_step-Within :
    (limit : ℕ) (x : Upload) (u : Uploads)
    → 0 < limit
    → Within limit u
    → Within limit (upload_step x u)
unfolding upload_step reserve_bytes release_bytes
upload_step-Within limit (asks n) u h w = record {
  same_limit = ground (arith, w.same_limit);
  exact = ground (arith, w.exact, w.same_limit, h);
  fits = ground (arith, w.fits, w.same_limit);
}
upload_step-Within limit (fails i) u h w = record {
  same_limit = ground (arith, w.same_limit);
  exact = ground (arith, w.exact, w.same_limit, h, sum-without u.held i);
  fits = ground (arith, w.fits, w.same_limit);
}

-- From a new budget with a limit above 0, whichever uploads ask for room and whichever of those that
-- got it fail, in any order: the bytes in use are the sum of what the uploads hold that got room and
-- did not fail, and never exceed the limit.
pub upload_all-Within :
    (limit : ℕ) (xs : List Upload)
    → 0 < limit
    → Within limit (upload_all xs (record { budget = new_artifact_budget limit; held = [] }))
unfolding new_artifact_budget upload_all
upload_all-Within limit xs h =
    from xs (record { budget = new_artifact_budget limit; held = [] })
      (record { same_limit = refl; exact = refl; fits = omega arith })
  where
    from : (xs : List Upload) (u : Uploads) → Within limit u → Within limit (upload_all xs u)
    from [] u w = w
    from (x ∷ xs) u w = from xs (upload_step x u) (upload_step-Within limit x u h w)

-- A reservation is granted exactly where the limit is off, nothing is asked for or the bytes fit; one
-- that is refused leaves the budget exhausted, and releasing a reservation that fitted makes room for
-- it again.
reserve_bytes_lem :
    (n : ℕ) (b : ArtifactBudget)
    → ((reserve_bytes n b).1 ≡ (b.limit == 0 || n == 0 || leb (b.used + n) b.limit))
      × ((reserve_bytes n b).1 ≡ false → is_exhausted (reserve_bytes n b).0 ≡ true)
      × ((reserve_bytes n b).1 ≡ true
          → (reserve_bytes n (release_bytes n (reserve_bytes n b).0)).1 ≡ true)
unfolding reserve_bytes release_bytes is_exhausted
reserve_bytes_lem n b = (ground arith, ground arith, ground arith)
