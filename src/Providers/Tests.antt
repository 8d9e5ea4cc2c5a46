-- ===== src/Providers/Tests.antt =====
-- Examples for internal/providers: an event of two lines with a comment after it, and a body that is cut
-- off.
use pen_stock.Base.{none, ◌≡◌, refl, true, false, [], ◌∷◌, ◌++◌, arith}
use pen_stock.Providers.Types.{Bytes}
use pen_stock.Providers.Sse.{Body, end_of_body, event, join_lines, next_event}
use pen_stock.Providers.OpenaiWire.{live, new_wire_reader, recv_chunk}
use pen_stock.Providers.OpenaiWire.Completeness.{
  Answers, new_wire_reader-Honest, recv_chunk-Answers,
}
use pen_stock.Providers.Sse.Printing.{event_lines, next_event-event_lines}

abbrev comment_line : Bytes
comment_line = 58 ∷ 10 ∷ []

abbrev name : Bytes
name = 112 ∷ 105 ∷ []

abbrev first_line : Bytes
first_line = 123 ∷ 32 ∷ []

next_event-event_lines_example :
    next_event (record {
      lines = event_lines name (first_line ∷ (125 ∷ []) ∷ []) ++ comment_line ∷ [];
      rest = 100 ∷ [];
      failure = end_of_body;
    })
    ≡ (
      event (record {
        name = name;
        payload = join_lines (first_line ∷ (125 ∷ []) ∷ []);
        has_data = true;
        keepalive = false;
      }),
      record { lines = comment_line ∷ []; rest = 100 ∷ []; failure = end_of_body },
    )
next_event-event_lines_example =
    next_event-event_lines name first_line ((125 ∷ []) ∷ []) (comment_line ∷ []) (100 ∷ [])
      end_of_body (refl, (refl, (refl, tt))) (omega arith)

-- Cut off within the end marker.
abbrev cut_off : Body
cut_off = record {
  lines = (100 ∷ 97 ∷ 116 ∷ 97 ∷ 58 ∷ 32 ∷ 123 ∷ 10 ∷ []) ∷ (10 ∷ []) ∷ [];
  rest = 100 ∷ 97 ∷ 116 ∷ 97 ∷ 58 ∷ 91 ∷ 68 ∷ [];
  failure = end_of_body;
}

recv_chunk-Answers_example :
    Answers cut_off (recv_chunk (λ payload. none) live false (new_wire_reader cut_off))
recv_chunk-Answers_example =
    recv_chunk-Answers (λ payload. none) live false cut_off (new_wire_reader cut_off)
      (new_wire_reader-Honest cut_off)
