-- ===== src/Backend/Validation.antt =====
-- backend/validation/input-validation.go: passwords and bounded strings. `none` is a nil error.
pub mod Passwords
mod Tests
use runcodes.Prelude.{
  ℕ, Bool, true, false, not, ◌&&◌, ◌||◌, Option, none, some, List, [], ◌∷◌, any, length, ltb, leb,
  ◌==◌, if◌then◌else◌, is_empty, Text, codes, byte_length,
}

pub data ValidationError : Type 0 where
  required_field : ValidationError
  input_too_short : ValidationError
  input_too_long : ValidationError
  password_too_long : ValidationError
  must_contain_uppercase : ValidationError
  must_contain_lowercase : ValidationError
  must_contain_digit : ValidationError
  must_contain_special_character : ValidationError

unfoldable pub validate_required_string : Text → ℕ → Option ValidationError
validate_required_string name max =
    if is_empty name
    then some required_field
    else if ltb max (length name)
    then some input_too_long
    else none

unfoldable pub validate_optional_string : Text → ℕ → Option ValidationError
validate_optional_string value max = if ltb max (length value) then some input_too_long else none

abbrev pub is_upper : ℕ → Bool
is_upper c = leb b'A' c && leb c b'Z'

abbrev pub is_lower : ℕ → Bool
is_lower c = leb b'a' c && leb c b'z'

abbrev pub is_figure : ℕ → Bool
is_figure c = leb b'0' c && leb c b'9'

-- !@#$%^&*()_+-=[]{};':"\|,.<>/?~`
abbrev special_chars : List ℕ
special_chars =
    33 ∷ 64 ∷ 35 ∷ 36 ∷ 37 ∷ 94 ∷ 38 ∷ 42 ∷ 40 ∷ 41 ∷ 95 ∷ 43 ∷ 45 ∷ 61 ∷ 91 ∷ 93 ∷ 123 ∷ 125 ∷ 59
    ∷ 39 ∷ 58 ∷ 34 ∷ 92 ∷ 124 ∷ 44 ∷ 46 ∷ 60 ∷ 62 ∷ 47 ∷ 63 ∷ 126 ∷ 96 ∷ []

unfoldable pub is_special : ℕ → Bool
is_special c = any (λ s. s == c) special_chars

pub record Seen : Type 0 where
  pub upper : Bool
  pub lower : Bool
  pub digit : Bool
  pub special : Bool

-- The switch of the loop: its first case that fits.
unfoldable pub see : ℕ → Seen → Seen
see c s =
    if is_upper c
    then record s { upper = true }
    else if is_lower c
    then record s { lower = true }
    else if is_figure c
    then record s { digit = true }
    else if is_special c
    then record s { special = true }
    else s

unfoldable pub see_all : Text → Seen → Seen
unfolding see
see_all [] s = s
see_all (c ∷ t) s = see_all t (see c s)

abbrev pub nothing_seen : Seen
nothing_seen = record { upper = false; lower = false; digit = false; special = false }

unfoldable pub validate_password : Text → Option ValidationError
unfolding see_all
validate_password password =
    let s = see_all password nothing_seen in
    if is_empty password
    then some required_field
    else if ltb (byte_length password) 8
    then some input_too_short
    else if ltb 72 (byte_length password)
    then some password_too_long
    else if not s.upper
    then some must_contain_uppercase
    else if not s.lower
    then some must_contain_lowercase
    else if not s.digit
    then some must_contain_digit
    else if not s.special
    then some must_contain_special_character
    else none
