-- ===== src/Backend/Validation/Passwords.antt =====
-- ValidatePassword: what a password has to contain.
use runcodes.Prelude.{
  ℕ, ◌≤◌, ◌≡◌, ◌↔◌, true, false, ◌||◌, none, [], ◌∷◌, any, arith, Text, byte_length,
}
use runcodes.Backend.Validation.{
  is_upper, is_lower, is_figure, is_special, Seen, see, see_all, nothing_seen, validate_password,
}

-- A special character is no letter and no digit, so that the order of the switch does not matter.
special_apart :
    (c : ℕ)
    → is_special c ≡ true
    → (is_upper c ≡ false) × (is_lower c ≡ false) × (is_figure c ≡ false)
unfolding is_special
special_apart c h = ground (arith, h)

see_flags :
    (c : ℕ) (s : Seen)
    → ((see c s).upper ≡ (s.upper || is_upper c))
      × ((see c s).lower ≡ (s.lower || is_lower c))
      × ((see c s).digit ≡ (s.digit || is_figure c))
      × ((see c s).special ≡ (s.special || is_special c))
unfolding see
see_flags c s = (ground arith, ground arith, ground arith, ground (arith, special_apart c))

see_all_flags :
    (t : Text) (s : Seen)
    → ((see_all t s).upper ≡ (s.upper || any is_upper t))
      × ((see_all t s).lower ≡ (s.lower || any is_lower t))
      × ((see_all t s).digit ≡ (s.digit || any is_figure t))
      × ((see_all t s).special ≡ (s.special || any is_special t))
unfolding see_all
see_all_flags [] s = (ground arith, ground arith, ground arith, ground arith)
see_all_flags (c ∷ t) s =
    let (u, l, d, x) = see_all_flags t (see c s) in
    let (u', l', d', x') = see_flags c s in
    (ground (arith, u, u'), ground (arith, l, l'), ground (arith, d, d'), ground (arith, x, x'))

pub record GoodPassword (p : Text) : Type 0 where
  pub long_enough : 8 ≤ byte_length p
  pub short_enough : byte_length p ≤ 72
  pub has_upper : any is_upper p ≡ true
  pub has_lower : any is_lower p ≡ true
  pub has_digit : any is_figure p ≡ true
  pub has_special : any is_special p ≡ true

-- A password is accepted exactly when it has between 8 and 72 bytes and at least one upper-case
-- letter, one lower-case letter, one digit and one of the special characters.
validate_password_iff : (p : Text) → (validate_password p ≡ none) ↔ GoodPassword p
unfolding validate_password byte_length
validate_password_iff p =
    let (u, l, d, x) = see_all_flags p nothing_seen in
    (
      (λ h. record {
        long_enough = ground (arith, h);
        short_enough = ground (arith, h);
        has_upper = ground (arith, h, u);
        has_lower = ground (arith, h, l);
        has_digit = ground (arith, h, d);
        has_special = ground (arith, h, x);
      }),
      (λ g. accept p u l d x g),
    )
  where
    accept :
        (p : Text)
        → (see_all p nothing_seen).upper ≡ (false || any is_upper p)
        → (see_all p nothing_seen).lower ≡ (false || any is_lower p)
        → (see_all p nothing_seen).digit ≡ (false || any is_figure p)
        → (see_all p nothing_seen).special ≡ (false || any is_special p)
        → GoodPassword p
        → validate_password p ≡ none
    accept [] u l d x g = ground (arith, g.long_enough)
    accept (c ∷ t) u l d x g = ground (
      arith, u, l, d, x, g.long_enough, g.short_enough, g.has_upper, g.has_lower, g.has_digit,
      g.has_special,
    )
