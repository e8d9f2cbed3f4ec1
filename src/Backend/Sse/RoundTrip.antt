-- ===== src/Backend/Sse/RoundTrip.antt =====
-- ParseSSE reads what FormatSSEFrame wrote.
use runcodes.Prelude.{
  byte_length, ℕ, zero, suc, ◌+◌, ◌<◌, ◌≡◌, refl, ap, ◌∙◌, false, List, [], ◌∷◌, ◌++◌, leb, arith,
  append_assoc, Text, codes, is_empty, cut_prefix, trim_space, decimal,
}
use runcodes.Backend.Sse.{
  max_sse_line_bytes, SseFrame, drop_cr, raw_lines, Pending, nothing, feed, Outcome, flush,
  continue, parse_lines, parse_sse, event_part, id_part, format_sse_frame,
}
use runcodes.Backend.Sse.Lines.{
  OneLine, OneLine-append, raw_lines_line, drop_cr_line, decimal-OneLine, trim_space-decimal,
  trim_space_lead,
}

-- What a frame has to be for its text to be read back: one line each, an event with no white space
-- around it, and lines within the scanner's bound.
pub record Plain (event : Text) (id : ℕ) (payload : Text) : Type 0 where
  pub event_line : OneLine event
  pub event_trimmed : trim_space event ≡ event
  pub payload_line : OneLine payload
  pub event_fits : byte_length event + 7 < max_sse_line_bytes
  pub id_fits : byte_length (decimal id) + 4 < max_sse_line_bytes
  pub payload_fits : byte_length payload + 6 < max_sse_line_bytes
  pub payload_given : is_empty payload ≡ false

-- The id field of a frame with that number.
abbrev pub id_text : ℕ → Text
id_text zero = []
id_text (suc n) = decimal (suc n)

byte_length-append : (s t : Text) → byte_length (s ++ t) ≡ byte_length s + byte_length t
unfolding byte_length
byte_length-append [] t = omega arith
byte_length-append (c ∷ s) t = omega (arith, byte_length-append s t)

event_prefix : OneLine (codes "event: ") × (byte_length (codes "event: ") ≡ 7)
unfolding codes byte_length
event_prefix = ((refl, (refl, (refl, (refl, (refl, (refl, (refl, tt))))))), refl)

id_prefix : OneLine (codes "id: ") × (byte_length (codes "id: ") ≡ 4)
unfolding codes byte_length
id_prefix = ((refl, (refl, (refl, (refl, tt)))), refl)

data_prefix : OneLine (codes "data: ") × (byte_length (codes "data: ") ≡ 6)
unfolding codes byte_length
data_prefix = ((refl, (refl, (refl, (refl, (refl, (refl, tt)))))), refl)

module _ {ℓ} {S : Type ℓ} (handle : S → SseFrame → Outcome S) where
  -- A line that is neither empty nor too long is fed.
  parse_line :
      (p : Pending) (s : S) (c : ℕ) (l : Text) (ls : List Text)
      → OneLine (c ∷ l)
      → byte_length (c ∷ l) < max_sse_line_bytes
      → parse_lines handle p s ((c ∷ l) ∷ ls) ≡ parse_lines handle (feed p (c ∷ l)) s ls
  unfolding parse_lines
  parse_line p s c l ls o h = rw (drop_cr_line (c ∷ l) o, not_long (byte_length (c ∷ l)) h) refl
    where
      not_long : (n : ℕ) → n < max_sse_line_bytes → leb max_sse_line_bytes n ≡ false
      not_long n h = ground arith

  event_step :
      (e : Text) (s : S) (rest : Text)
      → OneLine e
      → trim_space e ≡ e
      → byte_length e + 7 < max_sse_line_bytes
      → parse_lines handle nothing s (raw_lines (event_part e rest))
        ≡ parse_lines handle (record { event = e; id = []; payload = [] }) s (raw_lines rest)
  unfolding codes feed cut_prefix
  event_step [] s rest o t h = refl
  event_step (c ∷ e) s rest o t h =
      let l = codes "event: " ++ (c ∷ e) in
      let one : OneLine l = OneLine-append (codes "event: ") (c ∷ e) event_prefix.0 o in
      ap (parse_lines handle nothing s) (raw_lines_line l rest one)
      ∙ parse_line nothing s _ _ (raw_lines rest) one
          (omega (arith, byte_length-append (codes "event: ") (c ∷ e), event_prefix.1))
      ∙ ap
          (λ v. parse_lines handle (record { event = v; id = []; payload = [] }) s (raw_lines rest))
          (trim_space_lead (c ∷ e) ∙ t)

  id_step :
      (e : Text) (n : ℕ) (s : S) (rest : Text)
      → byte_length (decimal n) + 4 < max_sse_line_bytes
      → parse_lines handle
          (record { event = e; id = []; payload = [] })
          s
          (raw_lines (id_part n rest))
        ≡ parse_lines handle (record { event = e; id = id_text n; payload = [] }) s (raw_lines rest)
  unfolding codes feed cut_prefix
  id_step e zero s rest h = refl
  id_step e (suc n) s rest h =
      let l = codes "id: " ++ decimal (suc n) in
      let p : Pending = record { event = e; id = []; payload = [] } in
      let one : OneLine l =
        OneLine-append (codes "id: ") (decimal (suc n)) id_prefix.0 (decimal-OneLine (suc n)) in
      ap (parse_lines handle p s) (raw_lines_line l rest one)
      ∙ parse_line p s _ _ (raw_lines rest) one
          (omega (arith, byte_length-append (codes "id: ") (decimal (suc n)), id_prefix.1))
      ∙ ap (λ v. parse_lines handle (record { event = e; id = v; payload = [] }) s (raw_lines rest))
          (trim_space_lead (decimal (suc n)) ∙ trim_space-decimal (suc n))

  -- An empty line sends what is pending.
  parse_empty :
      (p : Pending) (s : S) (rest : Text)
      → parse_lines handle p s (raw_lines (b'\n' ∷ rest))
        ≡ continue handle (flush handle p s) (λ s'. parse_sse handle s' rest)
  unfolding parse_lines parse_sse raw_lines drop_cr byte_length
  parse_empty p s rest = refl

  flush_given :
      (p : Pending) (s : S)
      → is_empty p.payload ≡ false
      → flush handle p s ≡ handle s (record { event = p.event; id = p.id; payload = p.payload })
  unfolding flush
  flush_given p s h = rw h

  payload_step :
      (e i d : Text) (s : S) (rest : Text)
      → OneLine d
      → byte_length d + 6 < max_sse_line_bytes
      → is_empty d ≡ false
      → parse_lines handle
          (record { event = e; id = i; payload = [] })
          s
          (raw_lines (codes "data: " ++ (d ++ (b'\n' ∷ b'\n' ∷ rest))))
        ≡ continue handle
            (handle s (record { event = e; id = i; payload = d }))
            (λ s'. parse_sse handle s' rest)
  unfolding codes feed cut_prefix
  payload_step e i d s rest o h given =
      let l = codes "data: " ++ d in
      let p : Pending = record { event = e; id = i; payload = [] } in
      let one : OneLine l = OneLine-append (codes "data: ") d data_prefix.0 o in
      ap (parse_lines handle p s) (raw_lines_line l (b'\n' ∷ rest) one)
      ∙ parse_line p s _ _ (raw_lines (b'\n' ∷ rest)) one
          (omega (arith, byte_length-append (codes "data: ") d, data_prefix.1))
      ∙ parse_empty (record { event = e; id = i; payload = d }) s rest
      ∙ ap (λ r. continue handle r (λ s'. parse_sse handle s' rest))
          (flush_given (record { event = e; id = i; payload = d }) s given)

format_append :
    (e : Text) (n : ℕ) (d rest : Text)
    → format_sse_frame e n d ++ rest
      ≡ event_part e (id_part n (codes "data: " ++ (d ++ (b'\n' ∷ b'\n' ∷ rest))))
unfolding format_sse_frame
format_append e n d rest =
    event_append e _
    ∙ ap (event_part e) (
        id_append n _
        ∙ ap (id_part n) (
            append_assoc (codes "data: ") _ rest
            ∙ ap (λ t. codes "data: " ++ t) (append_assoc d _ rest)))
  where
    event_append : (e s : Text) → event_part e s ++ rest ≡ event_part e (s ++ rest)
    event_append [] s = refl
    event_append (c ∷ e) s =
        append_assoc (codes "event: ") _ rest
        ∙ ap (λ t. codes "event: " ++ t) (append_assoc (c ∷ e) _ rest)

    id_append : (n : ℕ) (s : Text) → id_part n s ++ rest ≡ id_part n (s ++ rest)
    id_append zero s = refl
    id_append (suc n) s =
        append_assoc (codes "id: ") _ rest
        ∙ ap (λ t. codes "id: " ++ t) (append_assoc (decimal (suc n)) _ rest)

-- ParseSSE on a frame that FormatSSEFrame wrote, whatever follows it: the handler gets that frame
-- (the event, the number's digits or an empty id for 0, and the payload) and the reading goes on
-- behind it, for an event and a payload of one line each, an event with no white space around it, a
-- payload that is not empty and lines within the scanner's bound.
pub parse-format {ℓ} :
    {S : Type ℓ} (handle : S → SseFrame → Outcome S) (e : Text) (n : ℕ) (d : Text)
    → Plain e n d
    → (s : S) (rest : Text)
    → parse_sse handle s (format_sse_frame e n d ++ rest)
      ≡ continue handle
          (handle s (record { event = e; id = id_text n; payload = d }))
          (λ s'. parse_sse handle s' rest)
unfolding parse_sse
parse-format handle e n d plain s rest =
    ap (λ t. parse_sse handle s t) (format_append e n d rest)
    ∙ event_step handle e s _ plain.event_line plain.event_trimmed plain.event_fits
    ∙ id_step handle e n s _ plain.id_fits
    ∙ payload_step handle e (id_text n) d s rest plain.payload_line plain.payload_fits
        plain.payload_given
