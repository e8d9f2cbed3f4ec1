-- ===== src/Judge/Files.antt =====
-- judge/internal/engine/grading.go: openRegular, readRegularBounded and readLimited. What stands
-- at a path when it is opened is an `Entry`; O_NOFOLLOW makes the check and the open one look.
use runcodes.Prelude.{
  ℕ, zero, suc, ◌+◌, Bool, true, false, Option, none, some, List, [], ◌∷◌, length, take, ltb,
  if◌then◌else◌, Text,
}
use runcodes.Judge.Cmp.Utf8.{Lead, first_byte, next_byte}

pub data Entry : Type 0 where
  -- nothing there, or an error of the system
  missing : Entry
  -- a symbolic link, a directory, a device
  irregular : Entry
  regular : List ℕ → Entry

unfoldable pub open_regular : Entry → Option (List ℕ)
open_regular missing = none
open_regular irregular = none
open_regular (regular bytes) = some bytes

-- io.LimitReader gives `max + 1` bytes at most.
unfoldable pub read_regular_bounded : Entry → ℕ → Option (List ℕ)
unfolding open_regular
read_regular_bounded e max = elim (open_regular e) [
  | none ↦ none
  | some bytes ↦ (let raw = take (max + 1) bytes in if ltb max (length raw) then none else some raw)
]

-- The code point at the head of some bytes (utf8.DecodeRune), `none` where there is none.
rune_more : Lead → List ℕ → Option (ℕ × List ℕ)
rune_more l [] = none
rune_more l (b ∷ bs) = elim (next_byte l b) [
  | none ↦ none
  | some (some c, m) ↦ some (c, bs)
  | some (none, m) ↦ rune_more m bs
]

rune_at : ℕ → List ℕ → Option (ℕ × List ℕ)
unfolding rune_more
rune_at b bs =
    if ltb b 0x80
    then some (b, bs)
    else elim (first_byte b) [ none ↦ none | some l ↦ rune_more l bs ]

-- strings.ToValidUTF8(s, "\uFFFD"): a run of invalid bytes becomes one replacement. The fuel is at
-- least the number of bytes.
valid_from : ℕ → Bool → List ℕ → Text
valid_from zero run bs = []
valid_from (suc f) run [] = []
valid_from (suc f) run (b ∷ bs) = elim (rune_at b bs) [
  | none ↦ (let rest = valid_from f true bs in if run then rest else 0xfffd ∷ rest)
  | some (c, rest) ↦ c ∷ valid_from f false rest
]

unfoldable pub to_valid : List ℕ → Text
unfolding valid_from rune_at
to_valid bs = valid_from (length bs) false bs

-- A limit of 0 reads the whole file.
unfoldable pub read_limited : Entry → ℕ → Text
unfolding open_regular to_valid
read_limited e max = elim (open_regular e) [
  | none ↦ []
  | some bytes ↦ to_valid (if ltb 0 max then take max bytes else bytes)
]
