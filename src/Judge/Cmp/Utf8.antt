-- ===== src/Judge/Cmp/Utf8.antt =====
-- utf8.Valid and the conversion of bytes to text, as cmp.go uses them: the bytes of a file give its
-- code points, or `none` where they are no valid UTF-8.
use runcodes.Prelude.{
  ℕ, zero, suc, ◌+◌, ◌-◌, ◌*◌, ◌&&◌, Option, none, some, List, [], ◌∷◌, ltb, leb, ◌==◌,
  if◌then◌else◌, Text,
}

-- A sequence that has begun: the bytes still to come, the range of the next and the bits so far.
pub record Lead : Type 0 where
  pub need : ℕ
  pub lo : ℕ
  pub hi : ℕ
  pub bits : ℕ

pub lead : ℕ → ℕ → ℕ → ℕ → Option Lead
lead need lo hi bits = some (record { need = need; lo = lo; hi = hi; bits = bits })

-- The table of first bytes above 0x7f.
unfoldable pub first_byte : ℕ → Option Lead
unfolding lead
first_byte b =
    if ltb b 0xc2
    then none
    else if ltb b 0xe0
    then lead 0 0x80 0xbf (b - 0xc0)
    else if b == 0xe0
    then lead 1 0xa0 0xbf 0
    else if b == 0xed
    then lead 1 0x80 0x9f 13
    else if ltb b 0xf0
    then lead 1 0x80 0xbf (b - 0xe0)
    else if b == 0xf0
    then lead 2 0x90 0xbf 0
    else if ltb b 0xf4
    then lead 2 0x80 0xbf (b - 0xf0)
    else if b == 0xf4
    then lead 2 0x80 0x8f 4
    else none

-- The state after a continuation byte: a finished code point or a sequence still open.
unfoldable pub next_byte : Lead → ℕ → Option (Option ℕ × Lead)
next_byte l b =
    if leb l.lo b && leb b l.hi then some (done l.need (l.bits * 64 + (b - 0x80))) else none
  where
    done : ℕ → ℕ → Option ℕ × Lead
    done zero v = (some v, l)
    done (suc n) v = (none, record { need = n; lo = 0x80; hi = 0xbf; bits = v })

abbrev cons? : ℕ → Option Text → Option Text
cons? c none = none
cons? c (some s) = some (c ∷ s)

decode_from : Option Lead → List ℕ → Option Text
decode_from none [] = some []
decode_from (some l) [] = none
decode_from none (b ∷ bs) =
    let plain = cons? b (decode_from none bs) in
    let begun : Option Text = elim (first_byte b) [
      | none ↦ none
      | some l ↦ decode_from (some l) bs
    ] in
    if ltb b 0x80 then plain else begun
decode_from (some l) (b ∷ bs) = elim (next_byte l b) [
  | none ↦ none
  | some (some c, m) ↦ cons? c (decode_from none bs)
  | some (none, m) ↦ decode_from (some m) bs
]

unfoldable pub decode : List ℕ → Option Text
unfolding decode_from first_byte next_byte
decode bs = decode_from none bs
