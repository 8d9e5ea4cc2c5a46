-- ===== src/Providers/Sse/Progress.antt =====
-- Each event of internal/providers/sse.go takes something from the body.
use pen_stock.Base.{
  ℕ, ◌+◌, ◌-◌, ◌≤◌, ◌<◌, List, [], ◌∷◌, length, ltb, if◌then◌else◌, arith, either_way,
}
use pen_stock.Providers.Types.{Bytes}
use pen_stock.Providers.Sse.{
  SseEvent, no_event, ReadError, Body, event, failed, is_empty, LineEffect, emits, goes_on,
  trim_terminators, trimmed_line, resume, scan_rest, scan, Left, next_event, max_sse_event_bytes,
}

-- How much of a body is left.
abbrev pub left_of : List Bytes → Bytes → ℕ
left_of lines rest = length lines + (if is_empty rest then 0 else 1)

-- An event came out of less than `n`.
unfoldable pub Progress : ℕ → Left → Type 0
Progress n (failed e, lines, rest) = Unit
Progress n (event ev, lines, rest) = left_of lines rest < n

scan_rest-Progress :
    (ev : SseEvent) (ds : List Bytes) (remaining : ℕ) (rest : Bytes) (failure : ReadError)
    → Progress (left_of [] rest) (scan_rest ev ds remaining rest failure, [], [])
unfolding scan_rest Progress
scan_rest-Progress ev ds remaining [] failure = tt
scan_rest-Progress ev ds remaining (b ∷ bs) failure =
    either_way (λ s. Progress 1 (s, [], [])) (ltb remaining (length (b ∷ bs))) tt
      (go (trimmed_line ev ds remaining (trim_terminators (b ∷ bs))))
  where
    go :
        (effect : LineEffect)
        → Progress 1 (
          elim effect [ emits ev' ↦ event ev' | goes_on ev' ds' remaining' ↦ failed failure ],
          [],
          [],
        )
    go (emits ev') = omega arith
    go (goes_on ev' ds' remaining') = tt

Progress-mono : (m n : ℕ) (l : Left) → m ≤ n → Progress m l → Progress n l
unfolding Progress
Progress-mono m n (failed e, lines, rest) h p = tt
Progress-mono m n (event ev, lines, rest) h p = omega arith

scan-Progress :
    (ev : SseEvent) (ds : List Bytes) (remaining : ℕ) (lines : List Bytes) (rest : Bytes)
    (failure : ReadError)
    → Progress (left_of lines rest) (scan ev ds remaining lines rest failure)
unfolding scan resume Progress
scan-Progress ev ds remaining [] rest failure = scan_rest-Progress ev ds remaining rest failure
scan-Progress ev ds remaining (line ∷ lines) rest failure =
    either_way (Progress (left_of (line ∷ lines) rest)) (ltb remaining (length line)) tt (
      go (trimmed_line ev ds (remaining - length line) (trim_terminators line))
        (λ ev' ds' remaining'. scan-Progress ev' ds' remaining' lines rest failure))
  where
    go :
        (effect : LineEffect)
        → ((ev' : SseEvent) (ds' : List Bytes) (remaining' : ℕ)
            → Progress (left_of lines rest) (scan ev' ds' remaining' lines rest failure))
        → Progress (left_of (line ∷ lines) rest) (
            resume effect
              (λ ev' ds' remaining'. scan ev' ds' remaining' lines rest failure)
              lines
              rest)
    go (emits ev') later = omega arith
    go (goes_on ev' ds' remaining') later =
        Progress-mono (left_of lines rest) _ (scan ev' ds' remaining' lines rest failure)
          (omega arith) (later ev' ds' remaining')

-- `Next` takes something from the body for an event.
pub next_event-Progress :
    (b : Body)
    → let (scanned, b') = next_event b in
      Progress (left_of b.lines b.rest) (scanned, b'.lines, b'.rest)
unfolding next_event
next_event-Progress b = scan-Progress no_event [] max_sse_event_bytes b.lines b.rest b.failure
