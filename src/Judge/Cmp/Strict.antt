-- ===== src/Judge/Cmp/Strict.antt =====
-- What the strict comparison of cmp.go decides.
use runcodes.Prelude.{
  ℕ, ◌≡◌, refl, ap, ◌↔◌, true, false, Option, none, some, List, [], ◌∷◌, map, length, arith, Text,
  text_eq-eq, text_eq_refl,
}
use runcodes.Judge.Cmp.{
  trim_right_space, same_lines, lines_equal, text_lines, text_equal_bytes, both_lines,
}

-- The lines as the comparison sees them: without their trailing white space.
abbrev trimmed : Option (List Text) → Option (List Text)
trimmed none = none
trimmed (some ls) = some (map trim_right_space ls)

abbrev pub canonical : List ℕ → Option (List Text)
canonical raw = trimmed (text_lines raw)

same_lines-eq :
    (a b : List Text)
    → length a ≡ length b
    → same_lines a b ≡ true
    → map trim_right_space a ≡ map trim_right_space b
unfolding same_lines
same_lines-eq [] [] e h = refl
same_lines-eq [] (y ∷ b) e h = absurd (omega arith)
same_lines-eq (x ∷ a) [] e h = absurd (omega arith)
same_lines-eq (x ∷ a) (y ∷ b) e h =
    ground
      (arith, text_eq-eq (trim_right_space x) (trim_right_space y), same_lines-eq a b (omega arith))

same_lines_of_eq :
    (a b : List Text) → map trim_right_space a ≡ map trim_right_space b → lines_equal a b ≡ true
unfolding lines_equal same_lines
same_lines_of_eq [] [] e = refl
same_lines_of_eq [] (y ∷ b) e = cc
same_lines_of_eq (x ∷ a) [] e = cc
same_lines_of_eq (x ∷ a) (y ∷ b) e =
    ground (arith, same_lines_of_eq a b, text_eq_refl (trim_right_space y))

pub lines_equal_iff :
    (a b : List Text) → (lines_equal a b ≡ true) ↔ (map trim_right_space a ≡ map trim_right_space b)
unfolding lines_equal
lines_equal_iff a b = (λ h. same_lines-eq a b (ground arith) (ground arith), same_lines_of_eq a b)

both_equal :
    (la lb : Option (List Text))
    → (both_lines false lines_equal la lb ≡ true)
      ↔ ((ls : List Text) × (trimmed la ≡ some ls) × (trimmed lb ≡ some ls))
both_equal none lb = (λ h. cc, λ (ls, p, q). cc p)
both_equal (some a) none = (λ h. cc, λ (ls, p, q). cc q)
both_equal (some a) (some b) = (
  λ h. (map trim_right_space b, ap some ((lines_equal_iff a b).0 h), refl),
  λ (ls, p, q). (lines_equal_iff a b).1 (cc (p, q)),
)

-- Two outputs are strictly equal exactly when both are valid UTF-8 and, split into lines with
-- trailing white space removed, they are the same list of lines.
pub text_equal_bytes_iff :
    (a b : List ℕ)
    → (text_equal_bytes a b ≡ true)
      ↔ ((ls : List Text) × (canonical a ≡ some ls) × (canonical b ≡ some ls))
unfolding text_equal_bytes
text_equal_bytes_iff a b = both_equal (text_lines a) (text_lines b)
