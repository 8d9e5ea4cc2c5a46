-- ===== src/Ingress/Recorder.antt =====
-- internal/ingress/cached.go: `streamRecorder`, which collects the frames of a stream up to a ceiling.
use pen_stock.Base.{
  ℕ, ◌+◌, Bool, true, false, ◌||◌, Option, none, some, String, List, [], ◌∷◌, ◌++◌, length, ltb,
  ◌==◌, if◌then◌else◌,
}
use pen_stock.Providers.Types.{Bytes, Usage}
use pen_stock.Cache.Types.{Entry}

abbrev pub max_cached_stream_bytes : ℕ
max_cached_stream_bytes = 1_048_576

pub record Recorder : Type 0 where
  pub frames : List Bytes
  pub bytes : ℕ
  pub dropped : Bool

abbrev pub new_recorder : Recorder
new_recorder = record { frames = []; bytes = 0; dropped = false }

-- `add`
unfoldable pub record_frame : Recorder → Bytes → Recorder
record_frame rec frame =
    if rec.dropped
    then rec
    else if ltb max_cached_stream_bytes (rec.bytes + length frame)
    then record rec { dropped = true; frames = [] }
    else record rec { frames = rec.frames ++ frame ∷ []; bytes = rec.bytes + length frame }

-- `entry`; what the entry that is passed in holds is its usage.
unfoldable pub recorded_entry : Recorder → String → String → Usage → ℕ → Option Entry
recorded_entry rec provider model usage now =
    if rec.dropped || length rec.frames == 0
    then none
    else some (record {
      body = [];
      frames = rec.frames;
      usage = usage;
      usd = 0;
      provider = provider;
      model = model;
      stored_at = now;
    })
