-- ===== src/Backend/Sse/Tests.antt =====
-- Frames written and read back.
use runcodes.Prelude.{
  byte_length, ◌≡◌, refl, List, [], ◌∷◌, ◌++◌, arith, codes, trim_space, trim_left, trim_right,
  is_space, decimal,
}
use runcodes.Backend.Sse.{SseFrame, Outcome, ended, continue, parse_sse, format_sse_frame}
use runcodes.Backend.Sse.RoundTrip.{Plain, id_text, parse-format}

abbrev collect : List SseFrame → SseFrame → Outcome (List SseFrame)
collect seen f = ended (f ∷ seen)

abbrev status_frame : SseFrame
status_frame = record { event = codes "status"; id = codes "7"; payload = codes "done" }

status_Plain : Plain (codes "status") 7 (codes "done")
unfolding codes trim_space trim_left trim_right is_space byte_length decimal
status_Plain = record {
  event_line = (refl, (refl, (refl, (refl, (refl, (refl, tt))))));
  event_trimmed = refl;
  payload_line = (refl, (refl, (refl, (refl, tt))));
  event_fits = omega arith;
  id_fits = omega arith;
  payload_fits = omega arith;
  payload_given = refl;
}

parse-format_example :
    parse_sse collect [] (format_sse_frame (codes "status") 7 (codes "done") ++ codes "data: x\n")
    ≡ continue collect
        (ended (record { event = codes "status"; id = id_text 7; payload = codes "done" } ∷ []))
        (λ s'. parse_sse collect s' (codes "data: x\n"))
parse-format_example =
    parse-format collect (codes "status") 7 (codes "done") status_Plain [] (codes "data: x\n")
