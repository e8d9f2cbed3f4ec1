-- ===== src/Backend/Submissions/FileTypes.antt =====
-- bestFileTypeMatch and sanitizeFilename: which entry wins, and which names a key can have.
use runcodes.Prelude.{
  ℕ, ◌≤◌, ◌<◌, ◌≡◌, refl, ◌⊎◌, inl, inr, Bool, true, false, ◌&&◌, Option, none, some, List, [], ◌∷◌,
  suc, get_elem?, All, arith, byte_length, Bool-cases,
}
use runcodes.Backend.Submissions.{AllowedFileType, better, choose, best_file_type_match}

-- No better match: a shorter extension, or the same length and no smaller id.
abbrev pub Beaten : AllowedFileType → AllowedFileType → Type 0
Beaten best c =
    (byte_length c.extension < byte_length best.extension)
    ⊎ ((byte_length c.extension ≡ byte_length best.extension) × (best.id ≤ c.id))

-- What the loop holds after the candidates `seen`.
abbrev pub Best : (AllowedFileType → Bool) → Option AllowedFileType → List AllowedFileType → Type 0
Best matching none cs = All (λ c. matching c ≡ false) cs
Best matching (some b) cs = (matching b ≡ true) × All (λ c. matching c ≡ true → Beaten b c) cs

Beaten_trans : (a b c : AllowedFileType) → better a b ≡ true → Beaten b c → Beaten a c
Beaten_trans a b c h w = ground (arith, h, w)

All-map {ℓ κ μ} :
    {A : Type ℓ} {P : A → Type κ} {Q : A → Type μ} (f : (a : A) → P a → Q a) (xs : List A)
    → All P xs
    → All Q xs
All-map f [] h = tt
All-map f (x ∷ xs) (h, hs) = (f x h, All-map f xs hs)

module _ (matching : AllowedFileType → Bool) where
  choose_keeps :
      (c : AllowedFileType) (b : Option AllowedFileType) (seen : List AllowedFileType)
      → Best matching b seen
      → Best matching (choose (matching c) c b) seen
  choose_keeps c none seen h = elim (Bool-cases (matching c)) [
    | inl m ↦ rw m (m, All-map (λ x o h'. ground (arith, o, h')) seen h)
    | inr m ↦ rw m h
  ]
  choose_keeps c (some b) seen (mb, h) = elim (Bool-cases (matching c && better c b)) [
    | inl t ↦ rw t (
      ground (arith, t),
      All-map (λ x w h'. Beaten_trans c b x (ground (arith, t)) (w h')) seen h,
    )
    | inr t ↦ rw t (mb, h)
  ]

  -- The candidate itself is not better than what is kept.
  choose_self :
      (c : AllowedFileType) (b : Option AllowedFileType)
      → Best matching b []
      → Best matching (choose (matching c) c b) (c ∷ [])
  choose_self c none h = elim (Bool-cases (matching c)) [
    | inl m ↦ rw m (m, ((λ h'. inr (refl, omega arith)), tt))
    | inr m ↦ rw m (m, tt)
  ]
  choose_self c (some b) (mb, h) = elim (Bool-cases (matching c && better c b)) [
    | inl t ↦ rw t (ground (arith, t), ((λ h'. inr (refl, omega arith)), tt))
    | inr t ↦ rw t (mb, ((λ h'. ground (arith, t, h')), tt))
  ]

  loop_keeps :
      (cs : List AllowedFileType) (b : Option AllowedFileType) (seen : List AllowedFileType)
      → Best matching b seen
      → Best matching (best_file_type_match matching b cs) seen
  unfolding best_file_type_match
  loop_keeps [] b seen h = h
  loop_keeps (c ∷ cs) b seen h =
      loop_keeps cs (choose (matching c) c b) seen (choose_keeps c b seen h)

  Best_cons :
      (c : AllowedFileType) (r : Option AllowedFileType) (cs : List AllowedFileType)
      → Best matching r (c ∷ [])
      → Best matching r cs
      → Best matching r (c ∷ cs)
  Best_cons c none cs (h, _) hs = (h, hs)
  Best_cons c (some r) cs (m, (h, _)) (_, hs) = (m, (h, hs))

  Best_nil :
      (b : Option AllowedFileType) (seen : List AllowedFileType)
      → Best matching b seen
      → Best matching b []
  Best_nil none seen h = tt
  Best_nil (some b) seen (m, h) = (m, tt)

  loop_Best :
      (cs : List AllowedFileType) (b : Option AllowedFileType)
      → Best matching b []
      → Best matching (best_file_type_match matching b cs) cs
  unfolding best_file_type_match
  loop_Best [] b h = h
  loop_Best (c ∷ cs) b h =
      let b' = choose (matching c) c b in
      let self = choose_self c b h in
      Best_cons c (best_file_type_match matching b' cs) cs (loop_keeps cs b' (c ∷ []) self)
        (loop_Best cs b' (Best_nil b' (c ∷ []) self))

  loop_from :
      (cs : List AllowedFileType) (b : Option AllowedFileType) (r : AllowedFileType)
      → best_file_type_match matching b cs ≡ some r
      → (b ≡ some r) ⊎ ((i : ℕ) × (get_elem? cs i ≡ some r))
  unfolding best_file_type_match
  loop_from [] b r h = inl h
  loop_from (c ∷ cs) b r h = elim (loop_from cs (choose (matching c) c b) r h) [
    | inl e ↦ elim (chosen b e) [ inl e' ↦ inl e' | inr e' ↦ inr (0, e') ]
    | inr (i, e) ↦ inr (suc i, e)
  ]
    where
      chosen :
          (b : Option AllowedFileType)
          → choose (matching c) c b ≡ some r
          → (b ≡ some r) ⊎ (some c ≡ some r)
      chosen none e = ground (arith, e)
      chosen (some d) e = ground (arith, e)

-- bestFileTypeMatch over any catalog: with no result, no entry matches the file; a result is an entry
-- of the catalog that matches, and no other entry that matches has a longer extension, or one of the
-- same length and a smaller id.
pub best_file_type_match_lem :
    (matching : AllowedFileType → Bool) (cs : List AllowedFileType)
    → Best matching (best_file_type_match matching none cs) cs
      × ((r : AllowedFileType)
          → best_file_type_match matching none cs ≡ some r
          → (i : ℕ) × (get_elem? cs i ≡ some r))
best_file_type_match_lem matching cs = (loop_Best matching cs none tt, from)
  where
    from :
        (r : AllowedFileType)
        → best_file_type_match matching none cs ≡ some r
        → (i : ℕ) × (get_elem? cs i ≡ some r)
    from r h = elim (loop_from matching cs none r h) [ inl e ↦ cc | inr p ↦ p ]
