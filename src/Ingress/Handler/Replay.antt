-- ===== src/Ingress/Handler/Replay.antt =====
-- What `replayStream` of internal/ingress/cached.go writes, against what the first client got from the
-- loop of `serveStream` (internal/ingress/handlers.go).
use pen_stock.Base.{
  ℕ, ◌+◌, ◌≡◌, refl, sym, ap, ◌∙◌, Bool, true, false, ◌||◌, Option, some, String, List, [], ◌∷◌,
  ◌++◌, map, length, ltb, ◌==◌, if◌then◌else◌, arith,
}
use mathlib.Core.List.{append-nil}
use pen_stock.Providers.Types.{Bytes, Usage, StreamChunk}
use pen_stock.Cache.Types.{Entry}
use pen_stock.Ingress.Recorder.{Recorder, record_frame, recorded_entry, max_cached_stream_bytes}
use pen_stock.Ingress.Stream.{
  Frame, data_frame, keepalive_frame, done_frame, truncated_frame, Tally, Arrival, received, ended,
  went_idle, client_gone, finish_frame, finish_stream, tally_chunk, frame_of, pump, new_tally,
}
use pen_stock.Providers.Readers.{
  Reader, provider_of_stream, model_of_stream, answering_provider, billed_model,
}
use pen_stock.Router.Chain.{ok}
use pen_stock.Budget.Types.{Reservation}
use pen_stock.Cache.Lookup.{Outside, Result}
use pen_stock.Ingress.Handler.{
  Gateway, Upstream, Response, answer, stream_answer, cached_answer, failure, cached_stream,
  replay_frames, serve_cached, serve_opened, settle_stream,
}

-- The frames that carry a chunk of the answer.
abbrev pub data_frames : List Frame → List Frame
data_frames [] = []
data_frames (data_frame b ∷ fs) = data_frame b ∷ data_frames fs
data_frames (keepalive_frame ∷ fs) = data_frames fs
data_frames (done_frame ∷ fs) = data_frames fs
data_frames (truncated_frame ∷ fs) = data_frames fs

data_frames-append :
    (fs gs : List Frame) → data_frames (fs ++ gs) ≡ data_frames fs ++ data_frames gs
data_frames-append [] gs = refl
data_frames-append (data_frame b ∷ fs) gs = ap (λ r. data_frame b ∷ r) (data_frames-append fs gs)
data_frames-append (keepalive_frame ∷ fs) gs = data_frames-append fs gs
data_frames-append (done_frame ∷ fs) gs = data_frames-append fs gs
data_frames-append (truncated_frame ∷ fs) gs = data_frames-append fs gs

-- What is recorded is what was written, unless the recorder gave up.
Tracks : Recorder → List Frame → Type 0
Tracks rec out = rec.dropped ≡ false → data_frames out ≡ map data_frame rec.frames

map-snoc :
    (fs : List Bytes) (f : Bytes)
    → map data_frame fs ++ data_frame f ∷ [] ≡ map data_frame (fs ++ f ∷ [])
map-snoc [] f = refl
map-snoc (g ∷ fs) f = ap (λ r. data_frame g ∷ r) (map-snoc fs f)

record_frame-Tracks :
    (rec : Recorder) (out : List Frame) (b : Bytes)
    → Tracks rec out
    → Tracks (record_frame rec b) (out ++ data_frame b ∷ [])
unfolding Tracks record_frame
record_frame-Tracks rec out b h =
    go rec.dropped (ltb max_cached_stream_bytes (rec.bytes + length b)) h
  where
    go :
        (dropped big : Bool)
        → (dropped ≡ false → data_frames out ≡ map data_frame rec.frames)
        → Tracks
            (if dropped
              then record rec { dropped = dropped }
              else if big
              then record rec { dropped = true; frames = [] }
              else record rec {
                dropped = dropped;
                frames = rec.frames ++ b ∷ [];
                bytes = rec.bytes + length b;
              })
            (out ++ data_frame b ∷ [])
    go true big h = λ e. ground arith
    go false true h = λ e. ground arith
    go false false h = λ e.
        data_frames-append out _ ∙ ap (λ r. r ++ data_frame b ∷ []) (h refl) ∙ map-snoc rec.frames b

tally_chunk-Tracks :
    (t : Tally) (out : List Frame) (c : StreamChunk)
    → Tracks t.recorder out
    → Tracks (tally_chunk t c).recorder (out ++ frame_of c ∷ [])
unfolding tally_chunk frame_of Tracks
tally_chunk-Tracks t out c h = go c.keepalive
  where
    go :
        (keepalive : Bool)
        → Tracks
            (if keepalive then t.recorder else record_frame t.recorder c.payload)
            (out ++ (if keepalive then keepalive_frame else data_frame c.payload) ∷ [])
    go true = λ e. data_frames-append out _ ∙ append-nil (data_frames out) ∙ h e
    go false = record_frame-Tracks t.recorder out c.payload h

finish_stream-data :
    (out : List Frame) (completed wrote : Bool)
    → data_frames (finish_stream out completed wrote) ≡ data_frames out
unfolding finish_stream finish_frame
finish_stream-data out true true = data_frames-append out _ ∙ append-nil (data_frames out)
finish_stream-data out false true = data_frames-append out _ ∙ append-nil (data_frames out)
finish_stream-data out completed false = refl

-- The tally and the frames of a loop that is over: a completed stream sent what was recorded.
Over : Tally × List Frame → Type 0
Over (t, frames) =
    t.completed ≡ true
    → t.recorder.dropped ≡ false
    → data_frames frames ≡ map data_frame t.recorder.frames

pump-Over :
    (t : Tally) (out : List Frame) (arrivals : List Arrival)
    → t.completed ≡ false
    → Tracks t.recorder out
    → Over (pump t out arrivals)
unfolding pump Over Tracks
pump-Over t out [] running h = λ e d. ground arith
pump-Over t out (received c true ∷ rest) running h =
    pump-Over (tally_chunk t c) (out ++ frame_of c ∷ []) rest running (tally_chunk-Tracks t out c h)
pump-Over t out (received c false ∷ rest) running h = λ e d. ground arith
pump-Over t out (ended eof wrote ∷ rest) running h = λ e d. finish_stream-data out eof wrote ∙ h d
pump-Over t out (went_idle wrote ∷ rest) running h = λ e d. ground arith
pump-Over t out (client_gone ∷ rest) running h = λ e d. ground arith

replay_frames_lem : (fs : List Bytes) → replay_frames fs ≡ map data_frame fs ++ done_frame ∷ []
unfolding replay_frames
replay_frames_lem [] = refl
replay_frames_lem (f ∷ fs) = ap (λ r. data_frame f ∷ r) (replay_frames_lem fs)

-- A recorder that gives an entry did not give up.
recorded_entry-frames :
    (rec : Recorder) (provider model : String) (usage : Usage) (now : ℕ) (e : Entry)
    → recorded_entry rec provider model usage now ≡ some e
    → (rec.dropped ≡ false) × ((length e.frames == 0) ≡ false) × (e.frames ≡ rec.frames)
unfolding recorded_entry
recorded_entry-frames rec provider model usage now e h = ground arith

-- A stream that the upstream ended cleanly, and that the recorder kept whole, is replayed from the
-- cache to a streaming client as the chunks that the first client got, in their order, and then the end
-- marker, however chunks and keepalives were interleaved.
pub replay-pump :
    (answered billed provider model : String) (arrivals : List Arrival) (usage : Usage) (now : ℕ)
    (semantic : Bool) (e : Entry)
    → (pump (new_tally answered billed) [] arrivals).0.completed ≡ true
    → recorded_entry
        (pump (new_tally answered billed) [] arrivals).0.recorder
        provider
        model
        usage
        now
      ≡ some e
    → serve_cached (some e) semantic true true
      ≡ some (
          cached_stream semantic
            (data_frames (pump (new_tally answered billed) [] arrivals).1 ++ done_frame ∷ []))
unfolding serve_cached Over Tracks
replay-pump answered billed provider model arrivals usage now semantic e c h =
    let t = (pump (new_tally answered billed) [] arrivals).0 in
    let (kept, some_frames, same_frames) =
      recorded_entry-frames t.recorder provider model usage now e h in
    let over = pump-Over (new_tally answered billed) [] arrivals refl (λ _. refl) in
    rw some_frames (
      ap (λ fs. some (cached_stream semantic fs))
        (replay_frames_lem e.frames
          ∙ ap (λ fs. map data_frame fs ++ done_frame ∷ []) same_frames
          ∙ ap (λ fs. fs ++ done_frame ∷ []) (sym (over c kept))))

abbrev pub tells_done : Frame → Bool
tells_done done_frame = true
tells_done (data_frame b) = false
tells_done keepalive_frame = false
tells_done truncated_frame = false

-- Whether a client is told that its answer is whole.
abbrev pub says_done : List Frame → Bool
says_done [] = false
says_done (f ∷ fs) = tells_done f || says_done fs

abbrev pub frames_of : Response → List Frame
frames_of (answer b) = []
frames_of (stream_answer fs) = fs
frames_of (cached_answer semantic b) = []
frames_of (cached_stream semantic fs) = fs
frames_of (failure e retry_after) = []

says_done-snoc :
    (fs : List Frame) (f : Frame) → says_done fs ≡ false → says_done (fs ++ f ∷ []) ≡ tells_done f
says_done-snoc [] f h = ground arith
says_done-snoc (g ∷ fs) f h = ground (arith, says_done-snoc fs f)

chunk-says_done : (c : StreamChunk) → tells_done (frame_of c) ≡ false
unfolding frame_of
chunk-says_done c = ground arith

-- Whether the upstream came to its clean end before the client or the upstream was lost.
abbrev pub ends_whole : List Arrival → Bool
ends_whole [] = false
ends_whole (received c true ∷ rest) = ends_whole rest
ends_whole (received c false ∷ rest) = false
ends_whole (ended eof wrote ∷ rest) = eof
ends_whole (went_idle wrote ∷ rest) = false
ends_whole (client_gone ∷ rest) = false

pump-completed :
    (t : Tally) (out : List Frame) (arrivals : List Arrival)
    → t.completed ≡ false
    → (pump t out arrivals).0.completed ≡ ends_whole arrivals
unfolding pump tally_chunk
pump-completed t out [] running = running
pump-completed t out (received c true ∷ rest) running =
    pump-completed (tally_chunk t c) (out ++ frame_of c ∷ []) rest running
pump-completed t out (received c false ∷ rest) running = running
pump-completed t out (ended eof wrote ∷ rest) running = refl
pump-completed t out (went_idle wrote ∷ rest) running = running
pump-completed t out (client_gone ∷ rest) running = running

truncated-says_done :
    (out : List Frame) (wrote : Bool)
    → says_done out ≡ false
    → says_done (finish_stream out false wrote) ≡ false
unfolding finish_stream finish_frame
truncated-says_done out true h = says_done-snoc out truncated_frame h
truncated-says_done out false h = h

pump-says_done :
    (t : Tally) (out : List Frame) (arrivals : List Arrival)
    → ends_whole arrivals ≡ false
    → says_done out ≡ false
    → says_done (pump t out arrivals).1 ≡ false
unfolding pump
pump-says_done t out [] cut h = h
pump-says_done t out (received c true ∷ rest) cut h =
    pump-says_done (tally_chunk t c) (out ++ frame_of c ∷ []) rest cut
      (says_done-snoc out (frame_of c) h ∙ chunk-says_done c)
pump-says_done t out (received c false ∷ rest) cut h = h
pump-says_done t out (ended true wrote ∷ rest) cut h = ground arith
pump-says_done t out (ended false wrote ∷ rest) cut h = truncated-says_done out wrote h
pump-says_done t out (went_idle wrote ∷ rest) cut h = truncated-says_done out wrote h
pump-says_done t out (client_gone ∷ rest) cut h = h

-- A stream that the upstream did not bring to a clean end before anything was lost, because the upstream
-- broke off or fell silent, the write of a chunk failed, or the client went away, leaves the cache as it
-- was, so that a partial answer is never stored; and its client is never sent the end marker.
pub partial_stream-cache :
    (out : Outside) (g : Gateway) (label model : String) (raw : Bytes) (r : Option Reservation)
    (res : Result) (up : Upstream) (reader : Reader)
    → ends_whole up.arrivals ≡ false
    → let p = serve_opened out g label model raw r res up (ok reader) in
      (p.0.cache ≡ g.cache) × (says_done (frames_of p.1) ≡ false)
unfolding serve_opened settle_stream
partial_stream-cache out g label model raw r res up reader h =
    let answered = answering_provider label (provider_of_stream reader) in
    let billed = billed_model model (model_of_stream reader) in
    let whole_only = pump-completed (new_tally answered billed) [] up.arrivals refl in
    (rw (whole_only ∙ h) refl, pump-says_done (new_tally answered billed) [] up.arrivals h refl)
