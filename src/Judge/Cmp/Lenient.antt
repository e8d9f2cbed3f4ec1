-- ===== src/Judge/Cmp/Lenient.antt =====
-- What the lenient comparison of cmp.go decides, and what it does with blank lines at the end.
use runcodes.Prelude.{
  ℕ, zero, suc, ◌<◌, ◌≡◌, refl, ◌∙◌, ◌⊎◌, inl, inr, Bool, true, false, not, ◌&&◌, some, List, [],
  ◌∷◌, length, keep, if◌then◌else◌, arith, Text, Bool-cases, is_empty,
}
use runcodes.Judge.Cmp.{blank, skip_blank, lines_match, lenient_round, lenient_loop, lines_lenient}

abbrev pub nonblank : List Text → List Text
nonblank ls = keep (λ l. not (blank l)) ls

-- The last line is blank.
pub ends_blank : List Text → Bool
ends_blank [] = false
ends_blank (l ∷ []) = blank l
ends_blank (l ∷ m ∷ ls) = ends_blank (m ∷ ls)

pub match_lines : (ℕ → ℕ) → List Text → List Text → Bool
match_lines lower [] [] = true
match_lines lower [] (y ∷ b) = false
match_lines lower (x ∷ a) [] = false
match_lines lower (x ∷ a) (y ∷ b) = lines_match lower x y && match_lines lower a b

-- What the skipping leaves: nothing of blank lines, or a line that is not blank and the rest.
record Skipped (ls : List Text) (x : Text) (rest : List Text) : Type 0 where
  skips : skip_blank ls ≡ x ∷ rest
  solid : blank x ≡ false
  same : nonblank ls ≡ x ∷ nonblank rest
  ends : ends_blank ls ≡ ends_blank rest
  shorter : length rest < length ls

record Blanks (ls : List Text) : Type 0 where
  skips : skip_blank ls ≡ []
  same : nonblank ls ≡ []
  ends : ends_blank ls ≡ not (is_empty ls)

ends_blank_cons :
    (l : Text) (ls : List Text) → blank l ≡ false → ends_blank (l ∷ ls) ≡ ends_blank ls
unfolding ends_blank
ends_blank_cons l [] e = e
ends_blank_cons l (m ∷ ls) e = refl

ends_blank_skip :
    (l : Text) (ls : List Text)
    → blank l ≡ true
    → ends_blank (l ∷ ls) ≡ (if is_empty ls then true else ends_blank ls)
unfolding ends_blank
ends_blank_skip l [] e = e
ends_blank_skip l (m ∷ ls) e = refl

ends_blank_before :
    (l : Text) (ls : List Text) {x : Text} {rest : List Text}
    → skip_blank ls ≡ x ∷ rest
    → ends_blank (l ∷ ls) ≡ ends_blank ls
unfolding ends_blank skip_blank
ends_blank_before l [] e = cc
ends_blank_before l (m ∷ ls) e = refl

skip_view : (ls : List Text) → Blanks ls ⊎ ((x : Text) × (rest : List Text) × Skipped ls x rest)
unfolding skip_blank ends_blank
skip_view [] = inl (record { skips = refl; same = refl; ends = refl })
skip_view (l ∷ ls) = elim (Bool-cases (blank l)) [
  | inr solid ↦ inr (
    l,
    ls,
    record {
      skips = ground arith;
      solid = solid;
      same = ground arith;
      ends = ends_blank_cons l ls solid;
      shorter = omega arith;
    },
  )
  | inl gone ↦ elim (skip_view ls) [
    | inl b ↦ inl (record {
      skips = ground (arith, b.skips);
      same = ground (arith, b.same);
      ends = ground (arith, b.ends, ends_blank_skip l ls);
    })
    | inr (x, rest, s) ↦ inr (
      x,
      rest,
      record {
        skips = ground (arith, s.skips);
        solid = s.solid;
        same = ground (arith, s.same);
        ends = ends_blank_before l ls s.skips ∙ s.ends;
        shorter = omega (arith, s.shorter);
      },
    )
  ]
]

match_lines_nil : (lower : ℕ → ℕ) (b : List Text) → match_lines lower [] b ≡ is_empty b
unfolding match_lines
match_lines_nil lower [] = refl
match_lines_nil lower (y ∷ b) = refl

match_lines_nil_right : (lower : ℕ → ℕ) (a : List Text) → match_lines lower a [] ≡ is_empty a
unfolding match_lines
match_lines_nil_right lower [] = refl
match_lines_nil_right lower (x ∷ a) = refl

-- Skipping leaves nothing exactly where every line is blank.
is_empty-skip_blank : (ls : List Text) → is_empty (skip_blank ls) ≡ is_empty (nonblank ls)
is_empty-skip_blank ls = elim (skip_view ls) [
  | inl b ↦ ground (arith, b.skips, b.same)
  | inr (x, rest, s) ↦ ground (arith, s.skips, s.same)
]

abbrev verdict : (ℕ → ℕ) → List Text → List Text → Bool
verdict lower a b =
    match_lines lower (nonblank a) (nonblank b) && not (ends_blank a && ends_blank b)

verdict_nil : (lower : ℕ → ℕ) (b : List Text) → verdict lower [] b ≡ is_empty (skip_blank b)
unfolding ends_blank
verdict_nil lower b = ground (arith, match_lines_nil lower (nonblank b), is_empty-skip_blank b)

verdict_nil_right : (lower : ℕ → ℕ) (a : List Text) → verdict lower a [] ≡ is_empty (skip_blank a)
unfolding ends_blank
verdict_nil_right lower a =
    ground (arith, match_lines_nil_right lower (nonblank a), is_empty-skip_blank a)

-- Where both sides have lines: nothing but blank lines on one of them refuses, and otherwise the
-- first lines that are not blank decide, with what follows them.
module _ (lower : ℕ → ℕ) (a b : List Text) where
  all_blank :
      is_empty b ≡ false → Blanks a → verdict lower a b ≡ is_empty a && is_empty (nonblank b)
  all_blank hb s = elim (skip_view b) [
    | inl t ↦ ground (arith, s.same, s.ends, t.same, t.ends, match_lines_nil lower (nonblank b))
    | inr (y, rb, t) ↦ ground (arith, s.same, s.ends, t.same, match_lines_nil lower (nonblank b))
  ]

  all_blank_right :
      is_empty a ≡ false → Blanks b → verdict lower a b ≡ is_empty b && is_empty (nonblank a)
  all_blank_right ha s = elim (skip_view a) [
    | inl t ↦ ground (arith, s.same, s.ends, t.same, t.ends, match_lines_nil lower [])
    | inr (x, ra, t) ↦
        ground (arith, s.same, s.ends, t.same, match_lines_nil_right lower (nonblank a))
  ]

  both_solid :
      (x y : Text) (ra rb : List Text)
      → Skipped a x ra
      → Skipped b y rb
      → verdict lower a b ≡ lines_match lower x y && verdict lower ra rb
  unfolding match_lines
  both_solid x y ra rb s t = ground (arith, s.same, s.ends, t.same, t.ends)

skip_blank_nil : skip_blank [] ≡ []
unfolding skip_blank
skip_blank_nil = refl

lenient_loop_lem :
    (lower : ℕ → ℕ) (f : ℕ) (a b : List Text)
    → length a < f
    → lenient_loop lower f a b ≡ some (verdict lower a b)
unfolding lenient_loop lenient_round
lenient_loop_lem lower zero a b h = absurd (omega arith)
lenient_loop_lem lower (suc f) [] b h = ground (arith, verdict_nil lower b, skip_blank_nil)
lenient_loop_lem lower (suc f) (u ∷ a) [] h =
    ground (arith, verdict_nil_right lower (u ∷ a), skip_blank_nil)
lenient_loop_lem lower (suc f) (u ∷ a) (v ∷ b) h = elim (skip_view (u ∷ a)) [
  | inl s ↦ ground (arith, s.skips, all_blank lower (u ∷ a) (v ∷ b) refl s)
  | inr (x, ra, s) ↦ elim (skip_view (v ∷ b)) [
    | inl t ↦ ground (arith, s.skips, t.skips, all_blank_right lower (u ∷ a) (v ∷ b) refl t)
    | inr (y, rb, t) ↦ ground (
      arith,
      s.skips,
      t.skips,
      both_solid lower (u ∷ a) (v ∷ b) x y ra rb s t,
      lenient_loop_lem lower f ra rb (omega (arith, s.shorter)),
    )
  ]
]

-- The lenient comparison ends, and accepts exactly the pairs whose lines that are not blank match
-- one by one and that do not both end with a blank line.
pub lines_lenient_lem :
    (lower : ℕ → ℕ) (a b : List Text)
    → lines_lenient lower a b
      ≡ some (match_lines lower (nonblank a) (nonblank b) && not (ends_blank a && ends_blank b))
unfolding lines_lenient
lines_lenient_lem lower a b = lenient_loop_lem lower (suc (length a)) a b (omega arith)
