-- ===== src/Backend/Sse/Lines.antt =====
-- The lines of a stream that was put together from lines, and the text that trimming leaves alone.
use runcodes.Prelude.{
  ℕ, ◌≡◌, refl, ap, true, false, ◌||◌, [], ◌∷◌, ◌++◌, All, ◌==◌, arith, Text, is_space, trim_left,
  trim_right, trim_space, decimal, is_digit, decimal_digits,
}
use runcodes.Backend.Sse.{drop_cr, raw_lines}

-- No `\n` and no `\r`.
abbrev pub OneLine : Text → Type 0
OneLine s = All (λ c. (c == b'\n' || c == b'\r') ≡ false) s

pub raw_lines_line : (l s : Text) → OneLine l → raw_lines (l ++ (b'\n' ∷ s)) ≡ l ∷ raw_lines s
unfolding raw_lines
raw_lines_line [] s h = refl
raw_lines_line (c ∷ l) s h = ground (arith, h.0, raw_lines_line l s h.1)

pub drop_cr_line : (l : Text) → OneLine l → drop_cr l ≡ l
unfolding drop_cr
drop_cr_line [] h = refl
drop_cr_line (c ∷ []) h = ground (arith, h.0)
drop_cr_line (c ∷ d ∷ s) h = ap (◌∷◌ c) (drop_cr_line (d ∷ s) h.1)

pub OneLine-append : (s t : Text) → OneLine s → OneLine t → OneLine (s ++ t)
OneLine-append [] t a b = b
OneLine-append (c ∷ s) t a b = (a.0, OneLine-append s t a.1 b)

digit_line : (s : Text) → All (λ c. is_digit c ≡ true) s → OneLine s
digit_line [] h = tt
digit_line (c ∷ s) h = (ground (arith, h.0), digit_line s h.1)

trim_right_solid : (s : Text) → All (λ c. is_space c ≡ false) s → trim_right is_space s ≡ s
unfolding trim_right
trim_right_solid [] h = refl
trim_right_solid (c ∷ s) h = ground (arith, h.0, trim_right_solid s h.1)

trim_space_solid : (s : Text) → All (λ c. is_space c ≡ false) s → trim_space s ≡ s
unfolding trim_space trim_left
trim_space_solid [] h = trim_right_solid [] tt
trim_space_solid (c ∷ s) h = rw (h.0) (trim_right_solid (c ∷ s) h)

digit_solid : (c : ℕ) → is_digit c ≡ true → is_space c ≡ false
unfolding is_space
digit_solid c h = ground arith

digits_solid : (s : Text) → All (λ c. is_digit c ≡ true) s → All (λ c. is_space c ≡ false) s
digits_solid [] h = tt
digits_solid (c ∷ s) h = (digit_solid c h.0, digits_solid s h.1)

pub decimal-OneLine : (n : ℕ) → OneLine (decimal n)
decimal-OneLine n = digit_line (decimal n) (decimal_digits n)

pub trim_space-decimal : (n : ℕ) → trim_space (decimal n) ≡ decimal n
trim_space-decimal n = trim_space_solid (decimal n) (digits_solid (decimal n) (decimal_digits n))

-- A space in front goes with the trimming.
pub trim_space_lead : (s : Text) → trim_space (b' ' ∷ s) ≡ trim_space s
unfolding trim_space trim_left is_space
trim_space_lead s = refl
