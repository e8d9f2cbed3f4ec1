-- ===== src/Judge/Cmp.antt =====
-- judge/internal/cmp/cmp.go: the strict, the lenient and the numeric comparison of two texts. A
-- file is the bytes that reading it gave, `none` when it could not be read. `lower` is
-- unicode.ToLower on one code point.
pub mod Utf8
pub mod Strict
pub mod Lenient
pub mod Numeric
mod Tests
use runcodes.Prelude.{
  ℕ, zero, suc, ◌≡◌, Bool, true, false, ◌&&◌, ◌||◌, Option, none, some, List, [], ◌∷◌, map, length,
  if◌then◌else◌, ◌==◌, Text, text_eq, is_empty, split, trim_right, trim_space, is_space, fields,
  Floats,
}
use Utf8.{decode}

-- Drops the last line where it is empty.
drop_last_empty : List Text → List Text
drop_last_empty [] = []
drop_last_empty (l ∷ []) = if is_empty l then [] else l ∷ []
drop_last_empty (l ∷ m ∷ ls) = l ∷ drop_last_empty (m ∷ ls)

unfoldable pub split_lines : Text → List Text
unfolding drop_last_empty
split_lines [] = []
split_lines (c ∷ s) = drop_last_empty (split b'\n' (c ∷ s))

-- textLines; readText is the same over what reading the file gave.
unfoldable pub text_lines : List ℕ → Option (List Text)
text_lines raw = elim (decode raw) [ none ↦ none | some content ↦ some (split_lines content) ]

pub read_text : Option (List ℕ) → Option (List Text)
read_text none = none
read_text (some raw) = text_lines raw

abbrev both_lines {ℓ} :
    {A : Type ℓ} → A → (List Text → List Text → A) → Option (List Text) → Option (List Text) → A
both_lines bad f none b = bad
both_lines bad f (some a) none = bad
both_lines bad f (some a) (some b) = f a b

unfoldable pub trim_right_space : Text → Text
trim_right_space s = trim_right is_space s

same_lines : List Text → List Text → Bool
same_lines [] b = true
same_lines (x ∷ a) [] = false
same_lines (x ∷ a) (y ∷ b) =
    if text_eq (trim_right_space x) (trim_right_space y) then same_lines a b else false

unfoldable pub lines_equal : List Text → List Text → Bool
unfolding same_lines
lines_equal a b = if length a == length b then same_lines a b else false

unfoldable pub text_equal_bytes : List ℕ → List ℕ → Bool
text_equal_bytes a b = both_lines false lines_equal (text_lines a) (text_lines b)

pub text_equal : Option (List ℕ) → Option (List ℕ) → Bool
text_equal a b = both_lines false lines_equal (read_text a) (read_text b)

pub blank : Text → Bool
blank l = is_empty (trim_space l)

-- for i < len(a) && strings.TrimSpace(a[i]) == "" { i++ }
pub skip_blank : List Text → List Text
skip_blank [] = []
skip_blank (l ∷ ls) = if blank l then skip_blank ls else l ∷ ls

same_tokens : List Text → List Text → Bool
same_tokens [] [] = true
same_tokens [] (u ∷ us) = false
same_tokens (t ∷ ts) [] = false
same_tokens (t ∷ ts) (u ∷ us) = if text_eq t u then same_tokens ts us else false

module _ (lower : ℕ → ℕ) where
  -- The test on the current lines: equal, or equal tokens regardless of case.
  pub lines_match : Text → Text → Bool
  unfolding same_tokens
  lines_match x y =
      if text_eq x y then true else same_tokens (fields (map lower x)) (fields (map lower y))

  -- One round behind the skipping of blank lines; `go` is the rest of the loop.
  lenient_round : (List Text → List Text → Option Bool) → List Text → List Text → Option Bool
  lenient_round go [] b = some false
  lenient_round go (x ∷ a) [] = some false
  lenient_round go (x ∷ a) (y ∷ b) = if lines_match x y then go a b else some false

  -- The loop of linesLenient. `none` means that the fuel ran out.
  lenient_loop : ℕ → List Text → List Text → Option Bool
  lenient_loop zero a b = none
  lenient_loop (suc f) a b =
      let round = lenient_round (lenient_loop f) (skip_blank a) (skip_blank b) in
      if is_empty a || is_empty b
      then some (is_empty (skip_blank a) && is_empty (skip_blank b))
      else round

  pub lines_lenient : List Text → List Text → Option Bool
  unfolding lenient_loop lenient_round
  lines_lenient a b = lenient_loop (suc (length a)) a b

  pub text_lenient_bytes : List ℕ → List ℕ → Option Bool
  text_lenient_bytes a b = both_lines (some false) lines_lenient (text_lines a) (text_lines b)

  pub text_lenient : Option (List ℕ) → Option (List ℕ) → Option Bool
  text_lenient a b = both_lines (some false) lines_lenient (read_text a) (read_text b)

module _ (F : Floats) where
  open F use {Float, parse, literal, sub, neg, lt}

  abbrev pub abs_diff : Float → Float → Float
  abs_diff x y = let d = sub x y in if lt d (literal 0 0) then neg d else d

  abbrev close : Float → Text → Text → Option Float → Option Float → Bool
  close eps t u (some x) (some y) = if lt eps (abs_diff x y) then false else true
  close eps t u (some x) none = text_eq t u
  close eps t u none y = text_eq t u

  number_tokens : Float → List Text → List Text → Bool
  number_tokens eps [] us = true
  number_tokens eps (t ∷ ts) [] = false
  number_tokens eps (t ∷ ts) (u ∷ us) =
      if close eps t u (parse t) (parse u) then number_tokens eps ts us else false

  number_lines : Float → List Text → List Text → Bool
  unfolding number_tokens
  number_lines eps [] b = true
  number_lines eps (x ∷ a) [] = false
  number_lines eps (x ∷ a) (y ∷ b) =
      if length (fields x) == length (fields y)
      then (if number_tokens eps (fields x) (fields y) then number_lines eps a b else false)
      else false

  pub number_equal : Option (List ℕ) → Option (List ℕ) → Float → Bool
  unfolding number_lines
  number_equal fa fb eps =
      if lt eps (literal 0 0)
      then false
      else both_lines false (λ a b. if length a == length b then number_lines eps a b else false)
          (read_text fa) (read_text fb)
