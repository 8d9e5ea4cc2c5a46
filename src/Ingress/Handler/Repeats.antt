-- ===== src/Ingress/Handler/Repeats.antt =====
-- Two requests that internal/cache/key.go gives the same key, one after the other
-- (internal/ingress/handlers.go and cached.go).
use pen_stock.Base.{
  ℕ, ◌+◌, ◌<◌, ◌≡◌, refl, ap, subst, ◌∙◌, Bool, true, false, not, ◌||◌, length, ◌==◌, Option, none,
  some, arith, String, List, [], ◌∷◌, ◌++◌, either_way,
}
use pen_stock.Providers.Types.{Bytes, Usage, ChatResponse}
use pen_stock.Providers.Wire.{Envelope}
use pen_stock.Providers.Readers.{
  Reader, provider_of_stream, model_of_stream, answering_provider, billed_model,
}
use pen_stock.Router.Chain.{Reply, ok, err}
use pen_stock.Budget.Types.{Reservation}
use pen_stock.Budget.Guard.{Guard}
use pen_stock.Budget.Enforcer.{Admission, admitted, denied}
use pen_stock.Cache.Types.{Entry, Key}
use pen_stock.Cache.Exact as Tier
use pen_stock.Cache.Exact.{Exact, stamp, find}
use pen_stock.Cache.Exact.Answers.{look-ttl}
use pen_stock.Cache.Exact.Bounds.{Valid, gets, step-Valid}
use pen_stock.Cache.Lookup.{Lookup, result_of, lookup_nearest, Result, Outside, lookup_put}
use pen_stock.Cache.Lookup.Repeats.{Asks, result_of-key, lookup_get_lem, lookup_put-lookup_get}
use pen_stock.Ingress.Recorder.{Recorder, recorded_entry}
use pen_stock.Ingress.Stream.{Frame, done_frame, Tally, pump, new_tally}
use pen_stock.Ingress.Handler.{
  Gateway, Request, Upstream, Response, answer, stream_answer, cached_answer, cached_stream,
  failure, serve_cached, cache_get, cache_put, serve_chat, serve_opened, serve_stream,
  settle_stream, serve, serve_admitted, serve_counted, serve_missed, serve_routed, usage_or_zero,
}
use pen_stock.Ingress.Handler.Replay.{replay-pump, data_frames}

stored-serve_routed :
    (out : Outside) (g : Gateway) (l : Lookup) (c : Exact) (res : Result) (e : Entry)
    (raw raw' : Bytes) (k : Key) (req : Request) (env : Envelope) (label : String) (up : Upstream)
    (now : ℕ) (x : Response)
    → g.cache ≡ some (lookup_put out l res (some e) raw now)
    → l.exact ≡ some c
    → Valid c
    → res.eligible ≡ true
    → res.key ≡ some k
    → Asks out l.max_temp req.tenant env.model raw' k
    → req.now < now + c.ttl
    → serve_cached (some (stamp e now)) false env.stream req.can_flush ≡ some x
    → ((serve_routed out g req raw' env label up).1 ≡ x)
      × ((serve_routed out g req raw' env label up).0.accounting ≡ g.accounting)
unfolding serve_routed serve_missed cache_get
stored-serve_routed out g l c res e raw raw' k req env label up now x stored h v able key a fresh
      serves =
    let again =
      lookup_put-lookup_get out l c res e raw raw' k req.tenant env.model now req.now h v able key a
        fresh in
    rw stored (rw again (rw serves (refl, refl)))

module _ (out : Outside) where
  -- An answer that is not a stream is what the cache is given.
  Stores : Option Lookup → Result → Bytes → Upstream → Gateway × Response → Type 0
  Stores cache res raw up (g, answer b) =
      (e : Entry) × (g.cache ≡ cache_put out cache res (some e) raw up.later) × (e.body ≡ b)
  Stores cache res raw up (g, stream_answer fs) = Unit
  Stores cache res raw up (g, cached_answer semantic b) = Unit
  Stores cache res raw up (g, cached_stream semantic fs) = Unit
  Stores cache res raw up (g, failure e retry_after) = Unit

  serve_chat-Stores :
      (g : Gateway) (label model : String) (raw : Bytes) (r : Option Reservation) (res : Result)
      (up : Upstream) (reply : Reply ChatResponse)
      → Stores g.cache res raw up (serve_chat out g label model raw r res up reply)
  unfolding serve_chat Stores
  serve_chat-Stores g label model raw r res up (ok x) = (_, refl, refl)
  serve_chat-Stores g label model raw r res up (err e) = tt

  serve_opened-Stores :
      (g : Gateway) (label model : String) (raw : Bytes) (r : Option Reservation) (res : Result)
      (up : Upstream) (reply : Reply Reader)
      → Stores g.cache res raw up (serve_opened out g label model raw r res up reply)
  unfolding serve_opened Stores
  serve_opened-Stores g label model raw r res up (ok x) = tt
  serve_opened-Stores g label model raw r res up (err e) = tt

  serve-Stores :
      (g : Gateway) (label : String) (env : Envelope) (raw : Bytes) (r : Option Reservation)
      (res : Result) (up : Upstream) (can_flush : Bool)
      → Stores g.cache res raw up (serve out g label env raw r res up can_flush)
  unfolding serve serve_stream Stores
  serve-Stores g label env raw r res up can_flush =
      let P = Stores g.cache res raw up in
      either_way P env.stream
        (either_way P can_flush (serve_opened-Stores g label env.model raw r res up up.open_reply)
          tt)
        (serve_chat-Stores g label env.model raw r res up up.chat)

  serve_admitted-Stores :
      (g : Gateway) (label : String) (env : Envelope) (raw : Bytes) (res : Result) (up : Upstream)
      (can_flush : Bool) (begun : Guard × Admission)
      → Stores g.cache res raw up (serve_admitted out g label env raw res up can_flush begun)
  unfolding serve_admitted Stores
  serve_admitted-Stores g label env raw res up can_flush (guard, denied d) = tt
  serve_admitted-Stores g label env raw res up can_flush (guard, admitted r) =
      serve-Stores (record g { accounting = some guard }) label env raw (some r) res up can_flush

  serve_counted-Stores :
      (o : Option Guard) (g : Gateway) (tenant label : String) (env : Envelope) (raw : Bytes)
      (now : ℕ) (res : Result) (up : Upstream) (can_flush : Bool)
      → Stores g.cache res raw up (serve_counted out o g tenant label env raw now res up can_flush)
  unfolding serve_counted
  serve_counted-Stores none g tenant label env raw now res up can_flush =
      serve-Stores g label env raw none res up can_flush
  serve_counted-Stores (some guard) g tenant label env raw now res up can_flush =
      serve_admitted-Stores g label env raw res up can_flush _

  serve_missed-Stores :
      (o : Option Entry) (semantic : Bool) (g : Gateway) (tenant label : String) (env : Envelope)
      (raw : Bytes) (now : ℕ) (res : Result) (up : Upstream) (can_flush : Bool)
      → Stores g.cache res raw up (
          serve_missed out
            (serve_cached o semantic env.stream can_flush)
            g
            tenant
            label
            env
            raw
            now
            res
            up
            can_flush)
  unfolding serve_missed serve_cached Stores
  serve_missed-Stores none semantic g tenant label env raw now res up can_flush =
      serve_counted-Stores g.accounting g tenant label env raw now res up can_flush
  serve_missed-Stores (some e) semantic g tenant label env raw now res up can_flush =
      let P = λ (o : Option Response).
        Stores g.cache res raw up
          (serve_missed out o g tenant label env raw now res up can_flush) in
      either_way P (not env.stream) tt (
        either_way P (not can_flush || length e.frames == 0)
          (serve_counted-Stores g.accounting g tenant label env raw now res up can_flush) tt)

-- A request that may be cached, and that the upstream answered whole, is answered with the same body
-- when it is asked again: any later request that is not a stream, may be cached and has the same key
-- gets it from the cache, at no cost to any budget, until the lifetime of the exact tier is over,
-- whatever its provider, budget and upstream then are. No other request is served in between.
pub repeat-answer :
    (out : Outside) (g : Gateway) (l : Lookup) (c : Exact) (k : Key) (req req' : Request)
    (raw raw' : Bytes) (env env' : Envelope) (label label' : String) (up up' : Upstream)
    (body : Bytes)
    → g.cache ≡ some l
    → l.exact ≡ some c
    → Valid c
    → Asks out l.max_temp req.tenant env.model raw k
    → (serve_routed out g req raw env label up).1 ≡ answer body
    → Asks out l.max_temp req'.tenant env'.model raw' k
    → env'.stream ≡ false
    → req'.now < up.later + c.ttl
    → let g' = (serve_routed out g req raw env label up).0 in
      ((serve_routed out g' req' raw' env' label' up').1 ≡ cached_answer false body)
      × ((serve_routed out g' req' raw' env' label' up').0.accounting ≡ g'.accounting)
unfolding serve_routed cache_get cache_put Stores serve_cached Tier.get Tier.lookup
repeat-answer out g l c k req req' raw raw' env env' label label' up up' body h ex v asks got asks'
      plain fresh =
    let g' = (serve_routed out g req raw env label up).0 in
    let c' = (Tier.get c k req.now).0 in
    let l' : Lookup = record l { exact = some c' } in
    let similar = lookup_nearest out l l.semantic req.tenant raw req.now in
    let res = result_of k (Tier.get c k req.now).1 similar in
    let asked : cache_get out g.cache req.tenant env.model raw req.now ≡ (some l', res) =
      rw h (rw (lookup_get_lem out l c req.tenant env.model raw k req.now ex asks) refl) in
    let q = cache_get out g.cache req.tenant env.model raw req.now in
    let first : Stores out q.0 q.1 raw up (g', (serve_routed out g req raw env label up).1) =
      serve_missed-Stores out q.1.entry q.1.semantic (record g { cache = q.0 }) req.tenant label env
        raw req.now q.1 up req.can_flush in
    let (e, stored, same_body) = subst (λ x. Stores out q.0 q.1 raw up (g', x)) got first in
    let (able, key) = result_of-key k (Tier.get c k req.now).1 similar in
    let kept = stored ∙ ap (λ q. cache_put out q.0 q.1 (some e) raw up.later) asked in
    let until = look-ttl c k req.now (find k c.nodes) in
    stored-serve_routed out g' l' c' res e raw raw' k req' env' label' up' up.later
      (cached_answer false body) kept refl (step-Valid c (gets k req.now) v) able key asks'
      (rw until fresh) (rw plain (ap (λ b. some (cached_answer false b)) same_body))

-- The tally and the frames of a stream from `reader`, and the entry for the cache.
abbrev pub streamed : String → String → Upstream → Reader → Tally × List Frame
streamed label model up reader =
    pump
      (new_tally (answering_provider label (provider_of_stream reader))
        (billed_model model (model_of_stream reader)))
      [] up.arrivals

abbrev pub streamed_entry : String → String → Upstream → Reader → Option Entry
streamed_entry label model up reader =
    let t = (streamed label model up reader).0 in
    recorded_entry t.recorder t.answered model (usage_or_zero t.last_usage) up.later

recorded_entry-body :
    (rec : Recorder) (provider model : String) (usage : Usage) (now : ℕ) (e : Entry)
    → recorded_entry rec provider model usage now ≡ some e
    → e.body ≡ []
unfolding recorded_entry
recorded_entry-body rec provider model usage now e h = ground (arith, h)

module _ (out : Outside) where
  stored_stream-serve_routed :
      (g : Gateway) (l : Lookup) (c : Exact) (res : Result) (e : Entry) (k : Key) (reader : Reader)
      (label model : String) (raw raw' : Bytes) (r : Option Reservation) (up : Upstream)
      (req : Request) (env : Envelope) (label' : String) (up' : Upstream) (x : Response)
      → g.cache ≡ some l
      → l.exact ≡ some c
      → Valid c
      → res.eligible ≡ true
      → res.key ≡ some k
      → (streamed label model up reader).0.completed ≡ true
      → streamed_entry label model up reader ≡ some e
      → Asks out l.max_temp req.tenant env.model raw' k
      → req.now < up.later + c.ttl
      → serve_cached (some e) false env.stream req.can_flush ≡ some x
      → (serve_routed out
          (serve_opened out g label model raw r res up (ok reader)).0
          req
          raw'
          env
          label'
          up').1
        ≡ x
  unfolding serve_opened settle_stream cache_put serve_cached
  stored_stream-serve_routed g l c res e k reader label model raw raw' r up req env label' up' x h
        ex v able key whole kept a fresh serves =
      (stored-serve_routed out (serve_opened out g label model raw r res up (ok reader)).0 l c res e
        raw raw' k req env label' up' up.later x (rw whole (rw kept (rw h refl))) ex v able key a
        fresh serves).0

-- A stream that came to its end, was kept, and was answered under a key is what a later request
-- with that key gets, where it streams too: the chunks that the first client got, in their order and
-- without the keepalives, and then the end marker, whether or not the first client's end marker was
-- lost on its way, from the cache, until the lifetime of the exact tier is over. The response writer can
-- flush, and no other request is served in between.
pub repeat-stream_answer :
    (out : Outside) (g : Gateway) (l : Lookup) (c : Exact) (res : Result) (e : Entry) (k : Key)
    (reader : Reader) (label model : String) (raw raw' : Bytes) (r : Option Reservation)
    (up : Upstream) (req : Request) (env : Envelope) (label' : String) (up' : Upstream)
    → g.cache ≡ some l
    → l.exact ≡ some c
    → Valid c
    → res.eligible ≡ true
    → res.key ≡ some k
    → (streamed label model up reader).0.completed ≡ true
    → streamed_entry label model up reader ≡ some e
    → Asks out l.max_temp req.tenant env.model raw' k
    → req.now < up.later + c.ttl
    → env.stream ≡ true
    → req.can_flush ≡ true
    → (serve_routed out
        (serve_opened out g label model raw r res up (ok reader)).0
        req
        raw'
        env
        label'
        up').1
      ≡ cached_stream false (data_frames (streamed label model up reader).1 ++ done_frame ∷ [])
repeat-stream_answer out g l c res e k reader label model raw raw' r up req env label' up' h ex v
      able key whole kept a fresh streams flushes =
    stored_stream-serve_routed out g l c res e k reader label model raw raw' r up req env label' up'
      _ h ex v able key whole kept a fresh
      (rw streams (rw flushes (replay-pump _ _ _ _ up.arrivals _ up.later false e whole kept)))

-- A stream that came to its end, was kept, and was answered under a key is stored with no body, and
-- a later request with that key that is not a stream gets this empty body from the cache as its
-- answer, until the lifetime of the exact tier is over. No other request is served in between.
pub stream_repeat-empty :
    (out : Outside) (g : Gateway) (l : Lookup) (c : Exact) (res : Result) (e : Entry) (k : Key)
    (reader : Reader) (label model : String) (raw raw' : Bytes) (r : Option Reservation)
    (up : Upstream) (req : Request) (env : Envelope) (label' : String) (up' : Upstream)
    → g.cache ≡ some l
    → l.exact ≡ some c
    → Valid c
    → res.eligible ≡ true
    → res.key ≡ some k
    → (streamed label model up reader).0.completed ≡ true
    → streamed_entry label model up reader ≡ some e
    → Asks out l.max_temp req.tenant env.model raw' k
    → req.now < up.later + c.ttl
    → env.stream ≡ false
    → (serve_routed out
        (serve_opened out g label model raw r res up (ok reader)).0
        req
        raw'
        env
        label'
        up').1
      ≡ cached_answer false []
unfolding serve_cached
stream_repeat-empty out g l c res e k reader label model raw raw' r up req env label' up' h ex v
      able key whole kept a fresh plain =
    stored_stream-serve_routed out g l c res e k reader label model raw raw' r up req env label' up'
      (cached_answer false []) h ex v able key whole kept a fresh
      (rw plain (ap (λ b. some (cached_answer false b)) (recorded_entry-body _ _ _ _ _ e kept)))
