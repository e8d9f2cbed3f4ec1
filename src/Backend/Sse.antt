-- ===== src/Backend/Sse.antt =====
-- backend/judge/sse.go: the frames of an event stream. Text is held as code points; a frame's data
-- is text too. The reader gives the whole stream, and `handle` folds the frames into a state until
-- it refuses one.
pub mod Lines
pub mod RoundTrip
mod Tests
use runcodes.Prelude.{
  ℕ, zero, suc, ◌+◌, ◌<◌, Bool, true, false, ◌&&◌, Option, none, some, List, [], ◌∷◌, ◌++◌, length,
  leb, ltb, ◌==◌, if◌then◌else◌, Text, codes, is_empty, cut_prefix, trim_space, decimal,
  byte_length,
}

abbrev pub max_sse_line_bytes : ℕ
max_sse_line_bytes = 4194304

pub record SseFrame : Type 0 where
  pub event : Text
  pub id : Text
  pub payload : Text

-- bufio.ScanLines takes one `\r` off the end of a line.
unfoldable pub drop_cr : Text → Text
drop_cr [] = []
drop_cr (c ∷ []) = if c == b'\r' then [] else c ∷ []
drop_cr (c ∷ d ∷ s) = c ∷ drop_cr (d ∷ s)

abbrev pub glue : ℕ → List Text → List Text
glue c [] = (c ∷ []) ∷ []
glue c (l ∷ ls) = (c ∷ l) ∷ ls

-- The lines of a stream as the scanner splits them: an empty rest after the last `\n` is no line.
unfoldable pub raw_lines : Text → List Text
raw_lines [] = []
raw_lines (c ∷ s) = let rest = raw_lines s in if c == b'\n' then [] ∷ rest else glue c rest

-- What has been read of the next frame.
pub record Pending : Type 0 where
  pub event : Text
  pub id : Text
  pub payload : Text

abbrev pub nothing : Pending
nothing = record { event = []; id = []; payload = [] }

abbrev pub is_nothing : Pending → Bool
is_nothing p = is_empty p.payload && is_empty p.event && is_empty p.id

-- strings.TrimPrefix(value, " ")
abbrev drop_space : Text → Text
drop_space [] = []
drop_space (c ∷ s) = if c == b' ' then s else c ∷ s

abbrev add_data : Text → Text → Text
add_data [] value = value
add_data (c ∷ s) value = (c ∷ s) ++ (b'\n' ∷ value)

-- A line that is neither empty nor too long.
unfoldable pub feed : Pending → Text → Pending
feed p line = elim (cut_prefix line (codes ":")) [
  | some _ ↦ p
  | none ↦ elim (cut_prefix line (codes "event:")) [
    | some v ↦ record p { event = trim_space v }
    | none ↦ elim (cut_prefix line (codes "id:")) [
      | some v ↦ record p { id = trim_space v }
      | none ↦ elim (cut_prefix line (codes "data:")) [
        | some v ↦ record p { payload = add_data p.payload (drop_space v) }
        | none ↦ p
      ]
    ]
  ]
]

-- How the reading of a stream ends, with the handler's state: at its end, by a frame that the
-- handler refused, or by a line beyond the scanner's bound.
pub data Outcome {ℓ} (S : Type ℓ) : Type ℓ where
  ended : S → Outcome S
  refused : S → Outcome S
  too_long : S → Outcome S

module _ {ℓ} {S : Type ℓ} (handle : S → SseFrame → Outcome S) where
  unfoldable pub flush : Pending → S → Outcome S
  flush p s =
      if is_nothing p
      then ended s
      else handle s (record { event = p.event; id = p.id; payload = p.payload })

  abbrev pub continue : Outcome S → (S → Outcome S) → Outcome S
  continue (ended s) go = go s
  continue (refused s) go = refused s
  continue (too_long s) go = too_long s

  unfoldable pub parse_lines : Pending → S → List Text → Outcome S
  unfolding flush
  parse_lines p s [] = flush p s
  parse_lines p s (l ∷ ls) =
      let more = parse_lines (feed p (drop_cr l)) s ls in
      let sent = continue (flush p s) (λ s'. parse_lines nothing s' ls) in
      if leb max_sse_line_bytes (byte_length l)
      then too_long s
      else if is_empty (drop_cr l)
      then sent
      else more

  pub parse_sse : S → Text → Outcome S
  parse_sse s stream = parse_lines nothing s (raw_lines stream)

-- FormatSSEFrame; a number of 0 is left out.
abbrev event_part : Text → Text → Text
event_part [] rest = rest
event_part (c ∷ e) rest = codes "event: " ++ ((c ∷ e) ++ (b'\n' ∷ rest))

abbrev id_part : ℕ → Text → Text
id_part zero rest = rest
id_part (suc n) rest = codes "id: " ++ (decimal (suc n) ++ (b'\n' ∷ rest))

pub format_sse_frame : Text → ℕ → Text → Text
format_sse_frame event id payload =
    event_part event (id_part id (codes "data: " ++ (payload ++ (b'\n' ∷ b'\n' ∷ []))))
