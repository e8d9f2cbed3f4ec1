-- ===== src/Prelude/Decimal.antt =====
-- fmt's %d, and strconv.ParseInt(s, 10, 64).
use Prim.Native.Nat.{ℕ, zero, suc, ◌+◌, ◌-◌, ◌*◌, ◌/◌, ◌%◌, ◌^◌}
use mathlib.Core.Path.{◌≡◌}
use native.Mathlib.Omega.{arith}
use mathlib.Core.Bool.{Bool, true, false, ◌&&◌}
use mathlib.Core.Option.{Option, none, some}
use mathlib.Core.List.{List, [], ◌∷◌, ◌++◌, reverse, reverse-cons}
use runcodes.Prelude.Lists.{All}
use runcodes.Prelude.Tests.{ltb, leb, ◌==◌, if◌then◌else◌}
use runcodes.Prelude.Int.{ℤ, pos, negsuc}
use runcodes.Prelude.Strings.{Text}

-- The digits of a number, least first. The fuel bounds their number.
digits_rev : ℕ → ℕ → Text
digits_rev zero n = []
digits_rev (suc f) n =
    let more = digits_rev f (n / 10) in (b'0' + n % 10) ∷ (if ltb n 10 then [] else more)

unfoldable pub decimal : ℕ → Text
unfolding digits_rev
decimal n = reverse (digits_rev (suc n) n)

unfoldable pub decimal_int : ℤ → Text
unfolding decimal
decimal_int (pos n) = decimal n
decimal_int (negsuc n) = b'-' ∷ decimal (suc n)

abbrev pub is_digit : ℕ → Bool
is_digit c = leb b'0' c && leb c b'9'

parse_digits : ℕ → Text → Option ℕ
parse_digits acc [] = some acc
parse_digits acc (c ∷ s) =
    let rest = parse_digits (acc * 10 + (c - b'0')) s in if is_digit c then rest else none

-- At least one digit, and at most `most` in value.
unfoldable pub parse_nat : ℕ → Text → Option ℕ
unfolding parse_digits
parse_nat most [] = none
parse_nat most (c ∷ s) = elim (parse_digits 0 (c ∷ s)) [
  | none ↦ none
  | some n ↦ if leb n most then some n else none
]

abbrev as_negative : ℕ → ℤ
as_negative zero = pos 0
as_negative (suc n) = negsuc n

unfoldable pub parse_int : Text → Option ℤ
unfolding parse_nat
parse_int [] = none
parse_int (c ∷ s) =
    if c == b'-'
    then elim (parse_nat (2 ^ 63) s) [ none ↦ none | some n ↦ some (as_negative n) ]
    else if c == b'+'
    then elim (parse_nat (2 ^ 63 - 1) s) [ none ↦ none | some n ↦ some (pos n) ]
    else elim (parse_nat (2 ^ 63 - 1) (c ∷ s)) [ none ↦ none | some n ↦ some (pos n) ]

digits_rev_digits : (f n : ℕ) → All (λ c. is_digit c ≡ true) (digits_rev f n)
unfolding digits_rev
digits_rev_digits zero n = tt
digits_rev_digits (suc f) n = (ground arith, more (ltb n 10) (digits_rev_digits f (n / 10)))
  where
    more :
        (b : Bool)
        → All (λ c. is_digit c ≡ true) (digits_rev f (n / 10))
        → All (λ c. is_digit c ≡ true) (if b then [] else digits_rev f (n / 10))
    more true h = tt
    more false h = h

reverse-All {ℓ κ} : {A : Type ℓ} (P : A → Type κ) (xs : List A) → All P xs → All P (reverse xs)
reverse-All {A} P [] h = tt
reverse-All {A} P (x ∷ xs) h = rw (reverse-cons x xs) (snoc (reverse xs) (reverse-All P xs h.1))
  where
    snoc : (ys : List A) → All P ys → All P (ys ++ x ∷ [])
    snoc [] a = (h.0, tt)
    snoc (y ∷ ys) a = (a.0, snoc ys a.1)

-- Every character of a printed number is a digit.
pub decimal_digits : (n : ℕ) → All (λ c. is_digit c ≡ true) (decimal n)
unfolding decimal
decimal_digits n =
    reverse-All (λ c. is_digit c ≡ true) (digits_rev (suc n) n) (digits_rev_digits (suc n) n)
