-- ===== src/Backend/Submissions/SafeNames.antt =====
-- sanitizeFilename: the names that an object key can end in.
use runcodes.Prelude.{
  inl, inr, ℕ, ◌≡◌, refl, Bool, true, false, ◌&&◌, [], ◌∷◌, map, All, is_empty, if_elim, Text,
  codes, trim_left, trim_right, Bool-cases,
}
use runcodes.Backend.Submissions.{is_safe, safe_char, dot, or_submission, sanitize_filename}

module _ (p : ℕ → Bool) where
  abbrev LeadFree : Text → Type 0
  LeadFree [] = Unit
  LeadFree (c ∷ s) = p c ≡ false

  trim_left-LeadFree : (s : Text) → LeadFree (trim_left p s)
  unfolding trim_left
  trim_left-LeadFree [] = tt
  trim_left-LeadFree (c ∷ s) = if_elim LeadFree (p c) _ _ (λ h. trim_left-LeadFree s) (λ h. h)

  trim_right-LeadFree : (s : Text) → LeadFree s → LeadFree (trim_right p s)
  unfolding trim_right
  trim_right-LeadFree [] h = tt
  trim_right-LeadFree (c ∷ s) h =
      if_elim LeadFree (is_empty (trim_right p s) && p c) _ _ (λ e. tt) (λ e. h)

  LeadFree-trim_left : (s : Text) → LeadFree s → trim_left p s ≡ s
  unfolding trim_left
  LeadFree-trim_left [] h = refl
  LeadFree-trim_left (c ∷ s) h = rw h refl

  trim_right_twice : (s : Text) → trim_right p (trim_right p s) ≡ trim_right p s
  unfolding trim_right
  trim_right_twice [] = refl
  trim_right_twice (c ∷ s) = elim (Bool-cases (is_empty (trim_right p s) && p c)) [
    | inl e ↦ rw e refl
    | inr e ↦ rw (e, trim_right_twice s, e) refl
  ]

  module _ {ℓ} (P : ℕ → Type ℓ) where
    trim_left-All : (s : Text) → All P s → All P (trim_left p s)
    unfolding trim_left
    trim_left-All [] h = tt
    trim_left-All (c ∷ s) (h, hs) =
        if_elim (All P) (p c) _ _ (λ e. trim_left-All s hs) (λ e. (h, hs))

    trim_right-All : (s : Text) → All P s → All P (trim_right p s)
    unfolding trim_right
    trim_right-All [] h = tt
    trim_right-All (c ∷ s) (h, hs) =
        if_elim (All P) (is_empty (trim_right p s) && p c) _ _ (λ e. tt)
          (λ e. (h, trim_right-All s hs))

safe_char_safe : (c : ℕ) → is_safe (safe_char c) ≡ true
safe_char_safe c = if_elim (λ d. is_safe d ≡ true) (is_safe c) c b'_' (λ h. h) (λ h. refl)

map-safe : (s : Text) → All (λ c. is_safe c ≡ true) (map safe_char s)
map-safe [] = tt
map-safe (c ∷ s) = (safe_char_safe c, map-safe s)

-- A name of a key: safe characters only, not empty, no dot at its start or its end.
pub record SafeName (s : Text) : Type 0 where
  pub safe : All (λ c. is_safe c ≡ true) s
  pub given : is_empty s ≡ false
  pub no_first_dot : trim_left dot s ≡ s
  pub no_last_dot : trim_right dot s ≡ s

or_submission-SafeName :
    (s : Text)
    → All (λ c. is_safe c ≡ true) s
    → trim_left dot s ≡ s
    → trim_right dot s ≡ s
    → SafeName (or_submission s)
unfolding codes trim_left trim_right
or_submission-SafeName [] h l r = record {
  safe = (refl, (refl, (refl, (refl, (refl, (refl, (refl, (refl, (refl, (refl, tt))))))))));
  given = refl;
  no_first_dot = refl;
  no_last_dot = refl;
}
or_submission-SafeName (c ∷ s) h l r = record {
  safe = h;
  given = refl;
  no_first_dot = l;
  no_last_dot = r;
}

dots_trimmed :
    (s : Text)
    → All (λ c. is_safe c ≡ true) s
    → SafeName (or_submission (trim_right dot (trim_left dot s)))
dots_trimmed s h =
    let t = trim_left dot s in
    or_submission-SafeName (trim_right dot t)
      (trim_right-All dot (λ c. is_safe c ≡ true) t (trim_left-All dot (λ c. is_safe c ≡ true) s h))
      (LeadFree-trim_left dot (trim_right dot t)
        (trim_right-LeadFree dot t (trim_left-LeadFree dot s)))
      (trim_right_twice dot t)

-- Whatever file name is submitted, what sanitizeFilename keeps of it is a safe name: letters, digits,
-- `.`, `_` and `-` only (so no path separator), not empty, and no dot at either end.
pub sanitize_filename-SafeName : (filename : Text) → SafeName (sanitize_filename filename)
unfolding sanitize_filename
sanitize_filename-SafeName filename = dots_trimmed _ (map-safe _)
