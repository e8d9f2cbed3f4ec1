-- ===== src/Judge/Cmp/Tests.antt =====
-- Runs of the comparisons of cmp.go, and its theorems at concrete inputs.
use runcodes.Prelude.{
  ℕ, ◌≡◌, refl, true, false, not, ◌&&◌, ◌↔◌, some, List, [], ◌∷◌, Text, text_eq, split, trim_right,
  trim_space, trim_left, is_space, fields, codes, leb, if◌then◌else◌, ◌+◌, ℤ, pos, arith,
}
use runcodes.Judge.Samples.{thousandths}
use runcodes.Judge.Cmp.Utf8.{decode}
use runcodes.Judge.Cmp.{
  text_equal_bytes, split_lines, text_lines, read_text, lines_equal, trim_right_space, skip_blank,
  blank, lines_match, lines_lenient, number_equal, abs_diff,
}
use runcodes.Judge.Cmp.Strict.{canonical, text_equal_bytes_iff}
use runcodes.Judge.Cmp.Lenient.{match_lines, nonblank, ends_blank, lines_lenient_lem}

-- unicode.ToLower on ASCII.
abbrev lower : ℕ → ℕ
lower c = if leb b'A' c && leb c b'Z' then c + 32 else c

text_equal_bytes_iff_example : (text_equal_bytes (codes "7  \n8\n") (codes "7\n8") ≡ true) ↔ (
    (ls : List Text) × (canonical (codes "7  \n8\n") ≡ some ls)
    × (canonical (codes "7\n8") ≡ some ls))
text_equal_bytes_iff_example = text_equal_bytes_iff (codes "7  \n8\n") (codes "7\n8")

trailing_space_ignored : text_equal_bytes (codes "7  \n8\n") (codes "7\n8") ≡ true
unfolding codes text_equal_bytes text_lines decode split_lines lines_equal trim_right_space split
    trim_right is_space text_eq
trailing_space_ignored = refl

invalid_utf8_refused : text_equal_bytes (0xff ∷ []) (0xff ∷ []) ≡ false
unfolding text_equal_bytes text_lines decode
invalid_utf8_refused = refl

abbrev upper_text : List Text
upper_text = codes "Hello  World" ∷ []

abbrev lower_text : List Text
lower_text = codes " " ∷ codes "hello world" ∷ []

lines_lenient_lem_example :
    lines_lenient lower upper_text lower_text
    ≡ some (
        match_lines lower (nonblank upper_text) (nonblank lower_text)
        && not (ends_blank upper_text && ends_blank lower_text))
lines_lenient_lem_example = lines_lenient_lem lower upper_text lower_text

case_ignored : lines_lenient lower upper_text lower_text ≡ some true
unfolding codes lines_lenient skip_blank blank lines_match trim_space trim_left trim_right is_space
    fields text_eq
case_ignored = refl

-- A text that ends with a blank line does not match itself.
abbrev blank_end : List Text
blank_end = codes "7" ∷ [] ∷ []

blank_end_refused : lines_lenient lower blank_end blank_end ≡ some false
unfolding codes lines_lenient skip_blank blank lines_match trim_space trim_left trim_right is_space
    fields text_eq
blank_end_refused = refl

thousandths_law : (x y : ℤ) → abs_diff thousandths x y ≡ abs_diff thousandths y x
thousandths_law x y = ground arith

within_tolerance :
    number_equal thousandths (some (codes "7 x")) (some (codes "8 x")) (pos 1000) ≡ true
unfolding codes number_equal read_text text_lines decode split_lines split fields is_space text_eq
within_tolerance = refl
