-- ===== src/Providers/OpenaiWire.antt =====
-- internal/providers/openaiwire/stream.go: the reader of a stream on the OpenAI wire. What encoding/json
-- finds of usage in a chunk is an argument, and so are the state of the context and whether the reader
-- was closed by another goroutine when a read failed.
pub mod Completeness
use pen_stock.Base.{
  ℕ, zero, suc, ◌+◌, Bool, true, false, not, ◌&&◌, Option, none, some, List, [], ◌∷◌, length, ◌==◌,
  if◌then◌else◌,
}
use pen_stock.Providers.Types.{Bytes, Usage, StreamChunk}
use pen_stock.Providers.Errors.{ErrorClass, upstream, timeout, canceled}
use pen_stock.Providers.Sse.{
  ReadError, end_of_body, event_too_large, read_deadline, read_canceled, read_failed, Body,
  SseEvent, Scanned, event, failed, is_empty, next_event,
}

-- How a stream ends: with `io.EOF`, with `ErrStreamTruncated`, or with a provider error of a class.
pub data StreamEnd : Type 0 where
  finished : StreamEnd
  truncated : StreamEnd
  broken : ErrorClass → StreamEnd

pub data ContextState : Type 0 where
  live : ContextState
  past_deadline : ContextState
  given_up : ContextState

pub data Received : Type 0 where
  chunk : StreamChunk → Received
  ended_with : StreamEnd → Received

-- `streamReader`; `terminal` is `termErr` once `done` is set.
pub record WireReader : Type 0 where
  pub body : Body
  pub closed : Bool
  pub saw_done : Bool
  pub terminal : Option StreamEnd

-- `newStreamReader`
abbrev pub new_wire_reader : Body → WireReader
new_wire_reader body = record { body = body; closed = false; saw_done = false; terminal = none }

-- `recvError`
unfoldable pub recv_error : Bool → ContextState → Bool → ReadError → StreamEnd
recv_error saw_done ctx user_closed end_of_body = if saw_done then finished else truncated
recv_error saw_done ctx user_closed event_too_large = broken upstream
recv_error saw_done ctx user_closed read_deadline = broken timeout
recv_error saw_done past_deadline user_closed read_canceled = broken timeout
recv_error saw_done live user_closed read_canceled = broken canceled
recv_error saw_done given_up user_closed read_canceled = broken canceled
recv_error saw_done past_deadline user_closed read_failed = broken timeout
recv_error saw_done given_up user_closed read_failed = broken canceled
recv_error saw_done live user_closed read_failed =
    if user_closed then truncated else broken upstream

-- `finish`
abbrev pub finish_reader : WireReader → StreamEnd → WireReader
finish_reader r end = record r { terminal = some end }

abbrev pub same_bytes : Bytes → Bytes → Bool
same_bytes [] [] = true
same_bytes (a ∷ ax) [] = false
same_bytes [] (b ∷ bs) = false
same_bytes (a ∷ ax) (b ∷ bx) = (a == b) && same_bytes ax bx

-- The end marker, in its brackets.
abbrev pub sse_done_sentinel : Bytes
sse_done_sentinel = 91 ∷ 68 ∷ 79 ∷ 78 ∷ 69 ∷ 93 ∷ []

-- Each event takes a line of the body, or what stands after the last one.
abbrev pub size_of : Body → ℕ
size_of b = length b.lines + (if is_empty b.rest then 0 else 1)

module _ (usage_in : Bytes → Option Usage) (ctx : ContextState) (user_closed : Bool) where
  -- An event that has data and is no keepalive.
  unfoldable pub on_data : WireReader → Bytes → WireReader × Received
  on_data r payload =
      if same_bytes payload sse_done_sentinel
      then (
        record r { closed = true; saw_done = true; terminal = some finished },
        ended_with finished,
      )
      else (r, chunk (record { payload = payload; usage = usage_in payload; keepalive = false }))

  -- A round of the loop of `Recv`; the reader has the body as the scanner left it.
  unfoldable pub on_scanned :
      WireReader → Scanned → Option (WireReader × Received) → Option (WireReader × Received)
  unfolding on_data recv_error
  on_scanned r (failed e) again =
      let end = recv_error r.saw_done ctx user_closed e in
      some (finish_reader (record r { closed = true }) end, ended_with end)
  on_scanned r (event ev) again =
      if ev.keepalive
      then some (r, chunk (record { payload = []; usage = none; keepalive = true }))
      else if not ev.has_data
      then again
      else some (on_data r ev.payload)

  -- The loop of `Recv`, on fuel.
  unfoldable pub recv_loop : ℕ → WireReader → Option (WireReader × Received)
  unfolding on_scanned
  recv_loop zero r = none
  recv_loop (suc fuel) r =
      let (scanned, body) = next_event r.body in
      let again = recv_loop fuel (record r { body = body }) in
      on_scanned (record r { body = body }) scanned again

  pub recv_open : Bool → WireReader → Option (WireReader × Received)
  unfolding recv_loop
  recv_open true r = some (finish_reader r truncated, ended_with truncated)
  recv_open false r = recv_loop (size_of r.body + 1) r

  pub recv_from : Option StreamEnd → WireReader → Option (WireReader × Received)
  unfolding recv_open
  recv_from (some end) r = some (r, ended_with end)
  recv_from none r = recv_open r.closed r

  -- `Recv`
  unfoldable pub recv_chunk : WireReader → Option (WireReader × Received)
  unfolding recv_from
  recv_chunk r = recv_from r.terminal r
