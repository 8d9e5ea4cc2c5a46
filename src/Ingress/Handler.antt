-- ===== src/Ingress/Handler.antt =====
-- internal/ingress/handlers.go and cached.go: a chat completion, from the body that was read to the
-- response, with what it does to the cache and to the accounting. Metrics and the log are left out, and
-- so are failed writes of an answer from the cache.
pub mod Billing
pub mod Closing
pub mod Replay
pub mod Repeats
use pen_stock.Base.{
  ℕ, Bool, true, false, not, ◌&&◌, ◌||◌, Option, none, some, String, List, [], ◌∷◌, ◌++◌, length,
  ◌==◌, same, if◌then◌else◌,
}
use pen_stock.Providers.Types.{Bytes, Usage, no_usage, ChatResponse}
use pen_stock.Providers.Errors.{GoError, provider_error_from, timeout}
use pen_stock.Providers.Wire.{Envelope}
use pen_stock.Providers.Readers.{
  Reader, provider_of_stream, model_of_stream, answering_provider, billed_model,
}
use pen_stock.Router.Chain.{Reply, ok, err}
use pen_stock.Budget.Types.{Reservation, Denial}
use pen_stock.Budget.Enforcer.{Admission, admitted, denied}
use pen_stock.Budget.Guard.{Guard, begin_request, settle_request, abort_request}
use pen_stock.Cache.Types.{Entry}
use pen_stock.Cache.Lookup.{Lookup, Result, Outside, no_result, lookup_get, lookup_put}
use pen_stock.Ingress.Responses.{
  WireError, wire_error, upstream_error, denial_to_wire, retry_after_header, invalid_request_error,
  api_error,
}
use pen_stock.Ingress.Recorder.{recorded_entry}
use pen_stock.Ingress.Stream.{Frame, data_frame, done_frame, Tally, Arrival, pump, new_tally}

-- The parts of `Server` that change; `none` is a cache or an accounting that is not configured.
pub record Gateway : Type 0 where
  pub cache : Option Lookup
  pub accounting : Option Guard

pub data BodyRead : Type 0 where
  whole : Bytes → BodyRead
  too_large : BodyRead
  unreadable_body : BodyRead

pub record Request : Type 0 where
  pub tenant : String
  pub body : BodyRead
  pub can_flush : Bool
  pub now : ℕ

-- What the upstream does with the request, and the clock and the store's disk at the end.
pub record Upstream : Type 0 where
  pub chat : Reply ChatResponse
  pub open_reply : Reply Reader
  pub header_timed_out : Bool
  pub arrivals : List Arrival
  pub later : ℕ
  pub saved : Bool

pub data Response : Type 0 where
  answer : Bytes → Response
  stream_answer : List Frame → Response
  -- with whether the semantic tier answered
  cached_answer : Bool → Bytes → Response
  cached_stream : Bool → List Frame → Response
  -- with the seconds of a `Retry-After` header
  failure : WireError → Option ℕ → Response

-- `replayStream`
unfoldable pub replay_frames : List Bytes → List Frame
replay_frames [] = done_frame ∷ []
replay_frames (f ∷ fs) = data_frame f ∷ replay_frames fs

-- `serveCached`: `none` where the stored answer cannot serve this request.
unfoldable pub serve_cached : Option Entry → Bool → Bool → Bool → Option Response
unfolding replay_frames
serve_cached none semantic stream can_flush = none
serve_cached (some e) semantic stream can_flush =
    if not stream
    then some (cached_answer semantic e.body)
    else if not can_flush || length e.frames == 0
    then none
    else some (cached_stream semantic (replay_frames e.frames))

-- `settleOrAbort`
unfoldable pub settle_or_abort :
    Option Guard → Option Reservation → Option Usage → String → String → Upstream → Option Guard
settle_or_abort none r usage model provider up = none
settle_or_abort (some g) none usage model provider up = some g
settle_or_abort (some g) (some r) none model provider up = some (abort_request g r up.later)
settle_or_abort (some g) (some r) (some u) model provider up =
    some (settle_request g r u model provider up.later up.saved).0

-- `Get` and `Put` of a lookup that may be nil.
unfoldable pub cache_get :
    Outside → Option Lookup → String → String → Bytes → ℕ → Option Lookup × Result
cache_get out none tenant model raw now = (none, no_result)
cache_get out (some l) tenant model raw now =
    let (l', res) = lookup_get out l tenant model raw now in (some l', res)

unfoldable pub cache_put :
    Outside → Option Lookup → Result → Option Entry → Bytes → ℕ → Option Lookup
cache_put out none res e raw now = none
cache_put out (some l) res e raw now = some (lookup_put out l res e raw now)

-- `openStream`: a failure after the header timer fired is a timeout.
unfoldable pub open_error : String → Bool → GoError → GoError
open_error label header_timed_out e =
    if header_timed_out
    then provider_error_from label timeout "upstream did not send response headers in time" e
    else e

abbrev pub usage_or_zero : Option Usage → Usage
usage_or_zero none = no_usage
usage_or_zero (some u) = u

module _ (out : Outside) where
  -- `serveChat`
  unfoldable pub serve_chat :
      Gateway
      → String
      → String
      → Bytes
      → Option Reservation
      → Result
      → Upstream
      → Reply ChatResponse
      → Gateway × Response
  unfolding settle_or_abort cache_put
  serve_chat g label model raw r res up (err e) = (
    record g { accounting = settle_or_abort g.accounting r none model label up },
    failure (upstream_error e) none,
  )
  serve_chat g label model raw r res up (ok resp) =
      let answered = answering_provider label resp.provider in
      (
        record {
          accounting =
              settle_or_abort g.accounting r (some resp.usage) (billed_model model resp.model)
                answered up;
          cache =
              cache_put out g.cache res
                (some (record {
                  body = resp.body;
                  frames = [];
                  usage = resp.usage;
                  usd = 0;
                  provider = answered;
                  model = model;
                  stored_at = up.later;
                }))
                raw up.later;
        },
        answer resp.body,
      )

  -- `settleStream`
  unfoldable pub settle_stream :
      Gateway → String → Bytes → Option Reservation → Result → Upstream → Tally → Gateway
  unfolding settle_or_abort cache_put
  settle_stream g model raw r res up t = record {
    accounting = settle_or_abort g.accounting r t.last_usage t.billed t.answered up;
    cache =
        if t.completed
        then cache_put out g.cache res
            (recorded_entry t.recorder t.answered model (usage_or_zero t.last_usage) up.later) raw
            up.later
        else g.cache;
  }

  -- `serveStream` after `openStream`.
  unfoldable pub serve_opened :
      Gateway
      → String
      → String
      → Bytes
      → Option Reservation
      → Result
      → Upstream
      → Reply Reader
      → Gateway × Response
  unfolding settle_stream open_error settle_or_abort
  serve_opened g label model raw r res up (err e) = (
    record g { accounting = settle_or_abort g.accounting r none model label up },
    failure (upstream_error (open_error label up.header_timed_out e)) none,
  )
  serve_opened g label model raw r res up (ok reader) =
      let t =
        new_tally (answering_provider label (provider_of_stream reader))
          (billed_model model (model_of_stream reader)) in
      let (t', frames) = pump t [] up.arrivals in
      (settle_stream g model raw r res up t', stream_answer frames)

  -- `serveStream`
  unfoldable pub serve_stream :
      Gateway
      → String
      → String
      → Bytes
      → Option Reservation
      → Result
      → Upstream
      → Bool
      → Gateway × Response
  unfolding serve_opened settle_or_abort
  serve_stream g label model raw r res up can_flush =
      if can_flush then serve_opened g label model raw r res up up.open_reply else (
        record g { accounting = settle_or_abort g.accounting r none model label up },
        failure (wire_error 500 api_error "streaming_unsupported") none,
      )

  unfoldable pub serve :
      Gateway
      → String
      → Envelope
      → Bytes
      → Option Reservation
      → Result
      → Upstream
      → Bool
      → Gateway × Response
  unfolding serve_stream serve_chat
  serve g label env raw r res up can_flush =
      if env.stream
      then serve_stream g label env.model raw r res up can_flush
      else serve_chat g label env.model raw r res up up.chat

  -- The answer of `Begin`.
  unfoldable pub serve_admitted :
      Gateway
      → String
      → Envelope
      → Bytes
      → Result
      → Upstream
      → Bool
      → Guard × Admission
      → Gateway × Response
  unfolding serve
  serve_admitted g label env raw res up can_flush (guard, denied d) = (
    record g { accounting = some guard },
    failure (denial_to_wire d.reason) (retry_after_header d),
  )
  serve_admitted g label env raw res up can_flush (guard, admitted r) =
      serve (record g { accounting = some guard }) label env raw (some r) res up can_flush

  -- Accounting, if there is any.
  unfoldable pub serve_counted :
      Option Guard
      → Gateway
      → String
      → String
      → Envelope
      → Bytes
      → ℕ
      → Result
      → Upstream
      → Bool
      → Gateway × Response
  unfolding serve_admitted serve
  serve_counted none g tenant label env raw now res up can_flush =
      serve g label env raw none res up can_flush
  serve_counted (some guard) g tenant label env raw now res up can_flush =
      serve_admitted g label env raw res up can_flush
        (begin_request out.codec guard tenant env.model raw now)

  -- After the cache was asked: it answers, or else the upstream is called.
  unfoldable pub serve_missed :
      Option Response
      → Gateway
      → String
      → String
      → Envelope
      → Bytes
      → ℕ
      → Result
      → Upstream
      → Bool
      → Gateway × Response
  unfolding serve_counted
  serve_missed (some response) g tenant label env raw now res up can_flush = (g, response)
  serve_missed none g tenant label env raw now res up can_flush =
      serve_counted g.accounting g tenant label env raw now res up can_flush

  unfoldable pub serve_routed :
      Gateway → Request → Bytes → Envelope → String → Upstream → Gateway × Response
  unfolding serve_missed serve_cached cache_get
  serve_routed g req raw env label up =
      let (cache', res) = cache_get out g.cache req.tenant env.model raw req.now in
      serve_missed (serve_cached res.entry res.semantic env.stream req.can_flush)
        (record g { cache = cache' }) req.tenant label env raw req.now res up req.can_flush

  pub route_of :
      Gateway → Request → Bytes → Envelope → Option String → Upstream → Gateway × Response
  unfolding serve_routed
  route_of g req raw env none up =
      (g, failure (wire_error 404 invalid_request_error "model_not_found") none)
  route_of g req raw env (some label) up = serve_routed g req raw env label up

  -- The routing envelope.
  pub handle_envelope :
      (String → Option String)
      → Gateway
      → Request
      → Bytes
      → Option Envelope
      → Upstream
      → Gateway × Response
  unfolding route_of
  handle_envelope routes g req raw none up =
      (g, failure (wire_error 400 invalid_request_error "invalid_json") none)
  handle_envelope routes g req raw (some env) up =
      if same env.model ""
      then (g, failure (wire_error 400 invalid_request_error "missing_model") none)
      else route_of g req raw env (routes env.model) up

  pub handle_body :
      (String → Option String) → Gateway → Request → BodyRead → Upstream → Gateway × Response
  unfolding handle_envelope
  handle_body routes g req too_large up =
      (g, failure (wire_error 413 invalid_request_error "request_too_large") none)
  handle_body routes g req unreadable_body up =
      (g, failure (wire_error 400 invalid_request_error "invalid_body") none)
  handle_body routes g req (whole raw) up =
      handle_envelope routes g req raw (out.codec.envelope raw) up

  -- `handleChatCompletions`, with the routes' models and their providers' names.
  unfoldable pub handle :
      (String → Option String) → Gateway → Request → Upstream → Gateway × Response
  unfolding handle_body
  handle routes g req up = handle_body routes g req req.body up
