-- ===== src/Ingress/Stream.antt =====
-- internal/ingress/handlers.go: the loop of `serveStream`, which forwards the chunks of an upstream.
use pen_stock.Base.{
  Bool, true, false, Option, none, some, String, List, [], ◌∷◌, ◌++◌, if◌then◌else◌,
}
use pen_stock.Providers.Types.{Bytes, Usage, StreamChunk}
use pen_stock.Ingress.Recorder.{Recorder, new_recorder, record_frame}

-- A frame as the client gets it.
pub data Frame : Type 0 where
  data_frame : Bytes → Frame
  keepalive_frame : Frame
  done_frame : Frame
  truncated_frame : Frame

-- `streamTally`
pub record Tally : Type 0 where
  pub answered : String
  pub billed : String
  pub last_usage : Option Usage
  pub recorder : Recorder
  pub completed : Bool

-- What the `select` of the loop meets: a chunk, with whether the write of its frame succeeds; the
-- reader's last error, with whether it is `io.EOF`, and a silence beyond the idle budget, each with
-- whether the write of the terminal frame succeeds; and the end of the client's connection.
pub data Arrival : Type 0 where
  received : StreamChunk → Bool → Arrival
  ended : Bool → Bool → Arrival
  went_idle : Bool → Arrival
  client_gone : Arrival

-- The terminal frame of `finishStream`
unfoldable pub finish_frame : Bool → Frame
finish_frame true = done_frame
finish_frame false = truncated_frame

-- `finishStream`: the terminal frame is one more frame of the client, unless its write fails, which is
-- discarded.
unfoldable pub finish_stream : List Frame → Bool → Bool → List Frame
unfolding finish_frame
finish_stream out completed true = out ++ finish_frame completed ∷ []
finish_stream out completed false = out

abbrev pub newer_usage : Option Usage → Option Usage → Option Usage
newer_usage (some u) last = some u
newer_usage none last = last

-- The tally after a chunk whose frame was written; a keepalive is not recorded.
unfoldable pub tally_chunk : Tally → StreamChunk → Tally
tally_chunk t c = record t {
  last_usage = newer_usage c.usage t.last_usage;
  recorder = if c.keepalive then t.recorder else record_frame t.recorder c.payload;
}

unfoldable pub frame_of : StreamChunk → Frame
frame_of c = if c.keepalive then keepalive_frame else data_frame c.payload

-- The loop, with the tally and the frames so far. The end of the list stands for the client's end.
unfoldable pub pump : Tally → List Frame → List Arrival → Tally × List Frame
unfolding finish_stream tally_chunk frame_of
pump t out [] = (t, out)
pump t out (received c true ∷ rest) = pump (tally_chunk t c) (out ++ frame_of c ∷ []) rest
pump t out (received c false ∷ rest) =
    (record t { last_usage = newer_usage c.usage t.last_usage }, out)
pump t out (ended eof wrote ∷ rest) = (record t { completed = eof }, finish_stream out eof wrote)
pump t out (went_idle wrote ∷ rest) = (t, finish_stream out false wrote)
pump t out (client_gone ∷ rest) = (t, out)

-- The tally that the loop starts with.
abbrev pub new_tally : String → String → Tally
new_tally answered billed = record {
  answered = answered;
  billed = billed;
  last_usage = none;
  recorder = new_recorder;
  completed = false;
}
