-- ===== src/Backend/Validation/Tests.antt =====
-- Passwords at concrete inputs.
use runcodes.Prelude.{◌≡◌, refl, none, some, codes, byte_length}
use runcodes.Backend.Validation.{validate_password, must_contain_digit, see_all, is_special}

accepted : validate_password (codes "Secret-42") ≡ none
unfolding validate_password codes byte_length see_all is_special
accepted = refl

no_digit : validate_password (codes "Secret-word") ≡ some must_contain_digit
unfolding validate_password codes byte_length see_all is_special
no_digit = refl
