-- ===== src/Judge/Cmp/Numeric.antt =====
-- cmp.go, NumberEqual: the comparison does not depend on which file comes first.
use runcodes.Prelude.{
  ℕ, ◌≡◌, refl, true, false, Option, none, some, List, [], ◌∷◌, length, if◌then◌else◌, ◌==◌, arith,
  Text, text_eq_comm, ap, Floats, fields,
}
use runcodes.Judge.Cmp.{
  abs_diff, close, number_tokens, number_lines, number_equal, both_lines, read_text,
}

module _ (F : Floats) (law : (x y : F.Float) → abs_diff F x y ≡ abs_diff F y x)
    (eps : F.Float) where
  close_comm : (t u : Text) (x y : Option F.Float) → close F eps t u x y ≡ close F eps u t y x
  close_comm t u none none = text_eq_comm t u
  close_comm t u none (some y) = text_eq_comm t u
  close_comm t u (some x) none = text_eq_comm t u
  close_comm t u (some x) (some y) = ap (λ d. if F.lt eps d then false else true) (law x y)

  number_tokens_comm :
      (ts us : List Text)
      → length ts ≡ length us
      → number_tokens F eps ts us ≡ number_tokens F eps us ts
  unfolding number_tokens
  number_tokens_comm [] [] h = refl
  number_tokens_comm [] (u ∷ us) h = absurd (omega arith)
  number_tokens_comm (t ∷ ts) [] h = absurd (omega arith)
  number_tokens_comm (t ∷ ts) (u ∷ us) h =
      rw (close_comm t u (F.parse t) (F.parse u), number_tokens_comm ts us (omega arith))

  number_lines_comm :
      (a b : List Text) → length a ≡ length b → number_lines F eps a b ≡ number_lines F eps b a
  unfolding number_lines
  number_lines_comm [] [] h = refl
  number_lines_comm [] (y ∷ b) h = absurd (omega arith)
  number_lines_comm (x ∷ a) [] h = absurd (omega arith)
  number_lines_comm (x ∷ a) (y ∷ b) h =
      ground (arith, number_tokens_comm (fields x) (fields y), number_lines_comm a b (omega arith))

  both_comm :
      (a b : Option (List Text))
      → both_lines false (λ a b. if length a == length b then number_lines F eps a b else false) a b
        ≡ both_lines false
            (λ a b. if length a == length b then number_lines F eps a b else false)
            b
            a
  both_comm none none = refl
  both_comm none (some b) = refl
  both_comm (some a) none = refl
  both_comm (some a) (some b) = ground (arith, number_lines_comm a b)

-- Where |x - y| and |y - x| are one number, the numeric comparison gives the same answer with the
-- two files exchanged.
number_equal_comm :
    (F : Floats) (law : (x y : F.Float) → abs_diff F x y ≡ abs_diff F y x) (fa fb : Option (List ℕ))
    (eps : F.Float)
    → number_equal F fa fb eps ≡ number_equal F fb fa eps
unfolding number_equal
number_equal_comm F law fa fb eps =
    ground (arith, both_comm F law eps (read_text fa) (read_text fb))
