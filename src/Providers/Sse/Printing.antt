-- ===== src/Providers/Sse/Printing.antt =====
-- Events that are written in the format of server-sent events and read by internal/providers/sse.go.
use pen_stock.Base.{
  ℕ, ◌+◌, ◌-◌, ◌≤◌, ◌≡◌, refl, sym, ap, ◌∙◌, true, false, List, [], ◌∷◌, ◌++◌, map, All, length,
  ltb, arith,
}
use mathlib.Core.List.{append_assoc, append-nil}
use pen_stock.Providers.Types.{Bytes}
use pen_stock.Providers.Sse.{
  max_sse_event_bytes, sse_data_prefix, sse_event_prefix, SseEvent, no_event, ReadError, event,
  trim_terminators, join_lines, trimmed_line, resume, scan, next_event,
}

-- A field with its space and its line feed.
abbrev pub data_line : Bytes → Bytes
data_line l = sse_data_prefix ++ 32 ∷ (l ++ 10 ∷ [])

abbrev pub event_line : Bytes → Bytes
event_line name = sse_event_prefix ++ 32 ∷ (name ++ 10 ∷ [])

-- An event of this name with these lines of data.
abbrev pub event_lines : Bytes → List Bytes → List Bytes
event_lines name ds = event_line name ∷ (map data_line ds ++ (10 ∷ []) ∷ [])

abbrev pub total : List Bytes → ℕ
total [] = 0
total (l ∷ ls) = length l + total ls

-- It does not end in a carriage return or a line feed.
abbrev pub Unterminated : Bytes → Type 0
Unterminated l = trim_terminators l ≡ l

trim_terminators-snoc : (l : Bytes) → trim_terminators (l ++ 10 ∷ []) ≡ trim_terminators l
trim_terminators-snoc [] = refl
trim_terminators-snoc (b ∷ l) = rw (trim_terminators-snoc l) refl

-- An event with data.
abbrev pub with_data : SseEvent → List Bytes → SseEvent
with_data ev ds = record ev { has_data = true; payload = join_lines ds }

scan-data :
    (ev : SseEvent) (acc ds : List Bytes) (remaining : ℕ) (after : List Bytes) (rest : Bytes)
    (failure : ReadError)
    → All Unterminated ds
    → total (map data_line ds) + 1 ≤ remaining
    → scan
        (record ev { has_data = true })
        acc
        remaining
        (map data_line ds ++ (10 ∷ []) ∷ after)
        rest
        failure
      ≡ (event (with_data ev (acc ++ ds)), after, rest)
unfolding scan resume trimmed_line
scan-data ev acc [] remaining after rest failure clean fits =
    let room : ltb remaining 1 ≡ false = ground arith in
    rw room (ap (λ z. (event (with_data ev z), after, rest)) (sym (append-nil acc)))
scan-data ev acc (d ∷ ds) remaining after rest failure clean fits =
    let room : ltb remaining (length (data_line d)) ≡ false = ground (arith, fits) in
    let later = remaining - length (data_line d) in
    let fits' : total (map data_line ds) + 1 ≤ later = omega (arith, fits) in
    rw room (
      rw (trim_terminators-snoc d ∙ clean.0) (
        scan-data ev (acc ++ d ∷ []) ds later after rest failure clean.1 fits'
        ∙ ap (λ z. (event (with_data ev z), after, rest)) (append_assoc acc (d ∷ []) ds)))

total-snoc : (ls : List Bytes) (l : Bytes) → total (ls ++ l ∷ []) ≡ total ls + length l
total-snoc [] l = omega arith
total-snoc (m ∷ ls) l = omega (arith, total-snoc ls l)

-- An event that is written with its name and one `data:` line for each line of its data, and that fits
-- the size limit, is read back whole, with its lines joined, and what follows it in the body is left
-- for the next call. There is at least one line, and neither the name nor a line ends in a carriage
-- return or a line feed.
pub next_event-event_lines :
    (name d : Bytes) (ds after : List Bytes) (rest : Bytes) (failure : ReadError)
    → All Unterminated (name ∷ d ∷ ds)
    → total (event_lines name (d ∷ ds)) ≤ max_sse_event_bytes
    → next_event
        (record { lines = event_lines name (d ∷ ds) ++ after; rest = rest; failure = failure })
      ≡ (
        event (record {
          name = name;
          payload = join_lines (d ∷ ds);
          has_data = true;
          keepalive = false;
        }),
        record { lines = after; rest = rest; failure = failure },
      )
unfolding next_event scan resume trimmed_line
next_event-event_lines name d ds after rest failure clean fits =
    let blank : Bytes = 10 ∷ [] in
    let size : total (map data_line ds ++ blank ∷ []) ≡ total (map data_line ds) + 1 =
      total-snoc (map data_line ds) blank in
    let room : ltb max_sse_event_bytes (length (event_line name)) ≡ false = ground (arith, fits) in
    let later = max_sse_event_bytes - length (event_line name) in
    let room' : ltb later (length (data_line d)) ≡ false = ground (arith, fits) in
    let fits' : total (map data_line ds) + 1 ≤ later - length (data_line d) =
      omega (arith, fits, size) in
    let named : SseEvent = record no_event { name = name } in
    let read =
      scan-data named (d ∷ []) ds (later - length (data_line d)) after rest failure clean.1.1
        fits' in
    rw (append_assoc (map data_line ds) (blank ∷ []) after) (
      rw room (
        rw (trim_terminators-snoc name ∙ clean.0) (
          rw room' (
            rw (trim_terminators-snoc d ∙ clean.1.0)
              (ap (λ z. (z.0, record { lines = z.1; rest = z.2; failure = failure })) read)))))
