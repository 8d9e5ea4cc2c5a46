-- ===== src/Ingress/Handler/Closing.antt =====
-- How the requests of internal/ingress/handlers.go leave the enforcer of internal/budget/enforcer.go:
-- a request is a step or a few of the histories in Budget/World.antt.
use pen_stock.Base.{
  ◌∙◌, ℕ, ◌+◌, ◌^◌, ◌<◌, ◌≡◌, refl, sym, ap, subst, Bool, Option, none, some, String, List, [], ◌∷◌,
  either_way, same,
}
use pen_stock.Providers.Types.{Bytes, Usage, ChatResponse}
use pen_stock.Providers.Wire.{Envelope}
use pen_stock.Providers.Readers.{Reader}
use pen_stock.Router.Chain.{Reply, ok, err}
use pen_stock.Budget.Types.{Limits, Reservation}
use pen_stock.Budget.Enforcer.{
  Enforcer, bump, Admission, admitted, denied, Snapshot, committed, reserve, settle, release,
}
use pen_stock.Budget.Estimator.{estimate}
use pen_stock.Budget.Guard.{
  Guard, begin_request, price, write_snapshot, settle_request, abort_request,
}
use pen_stock.Budget.World.{
  World, claims_of, Step, admits, refuses, settles, releases, writes, Reach, here, next,
}
use pen_stock.Budget.Beginning.{History}
use pen_stock.Budget.Overshoot.{committed-outstanding}
use pen_stock.Cache.Lookup.{Outside, Result}
use pen_stock.Ingress.Responses.{wire_error, invalid_request_error}
use pen_stock.Ingress.Handler.{
  Gateway, BodyRead, whole, too_large, unreadable_body, Request, Upstream, Response, failure,
  settle_or_abort, cache_get, serve_cached, serve_chat, serve_opened, serve_stream, settle_stream,
  serve, serve_admitted, serve_counted, serve_missed, serve_routed, route_of, handle_envelope,
  handle_body, handle,
}

-- The history of `w` goes on to one with the enforcer `e` and the outstanding requests `rs`.
pub record Leads (w : World) (rs : List Reservation) (e : Enforcer) : Type 0 where
  pub after : World
  pub path : Reach w after
  pub same_enforcer : after.enforcer ≡ e
  pub left : after.outstanding ≡ rs

Reach-trans : (u v w : World) → Reach u v → Reach v w → Reach u w
Reach-trans u v w p here = p
Reach-trans u v w p (next {u = x} q s) = next (Reach-trans u v x p q) s

written-Leads :
    (w v : World) (rs : List Reservation) (disk : String → Option _) (o : Option Snapshot)
    (saved : Bool)
    → Reach w v
    → v.outstanding ≡ rs
    → Leads w rs (write_snapshot v.enforcer disk o saved).0
unfolding write_snapshot
written-Leads w v rs disk none saved p h = record {
  after = v;
  path = p;
  same_enforcer = refl;
  left = h;
}
written-Leads w v rs disk (some s) saved p h = record {
  after = _;
  path = next p (writes disk s saved);
  same_enforcer = refl;
  left = h;
}

-- An accounting that is one, and whose enforcer the history leads to.
pub Accounted : World → List Reservation → Option Guard → Type 0
Accounted w rs acc = (g : Guard) × (acc ≡ some g) × Leads w rs g.enforcer

earlier-Accounted :
    (w v : World) (rs : List Reservation) (acc : Option Guard)
    → Reach w v
    → Accounted v rs acc
    → Accounted w rs acc
unfolding Accounted
earlier-Accounted w v rs acc p (g, h, l) = (
  g,
  h,
  record {
    after = l.after;
    path = Reach-trans w v l.after p l.path;
    same_enforcer = l.same_enforcer;
    left = l.left;
  },
)

settle_request-Leads :
    (w : World) (g : Guard) (r : Reservation) (rs : List Reservation) (usage : Usage)
    (model provider : String) (now : ℕ) (saved : Bool)
    → w.outstanding ≡ r ∷ rs
    → w.enforcer ≡ g.enforcer
    → Leads w rs (settle_request g r usage model provider now saved).0.enforcer
unfolding settle_request
settle_request-Leads w g r rs usage model provider now saved h e =
    let usd = price g.prices g.kind_of provider model usage in
    subst
      (λ x.
        let (settled, snapshot) = settle x r usage.total_tokens usd now in
        Leads w rs (write_snapshot settled g.disk snapshot saved).0)
      e
      (written-Leads w _ rs g.disk _ saved
        (next here (settles rs [] r usage.total_tokens usd now h)) refl)

settle_or_abort-Accounted :
    (w : World) (g : Guard) (r : Reservation) (rs : List Reservation) (usage : Option Usage)
    (model provider : String) (up : Upstream)
    → w.outstanding ≡ r ∷ rs
    → w.enforcer ≡ g.enforcer
    → Accounted w rs (settle_or_abort (some g) (some r) usage model provider up)
unfolding settle_or_abort abort_request Accounted
settle_or_abort-Accounted w g r rs none model provider up h e = (
  _,
  refl,
  record {
    after = _;
    path = next here (releases rs [] r up.later h);
    same_enforcer = ap (λ x. release x r up.later) e;
    left = refl;
  },
)
settle_or_abort-Accounted w g r rs (some u) model provider up h e =
    (_, refl, settle_request-Leads w g r rs u model provider up.later up.saved h e)

module _ (out : Outside) where
  -- The accounting after an answer is that of one call of `settleOrAbort`.
  record ClosedBy (g : Gateway) (r : Option Reservation) (up : Upstream) (acc : Option Guard)
      : Type 0 where
    pub usage : Option Usage
    pub model : String
    pub provider : String
    pub closed : acc ≡ settle_or_abort g.accounting r usage model provider up

  serve_chat-ClosedBy :
      (g : Gateway) (label model : String) (raw : Bytes) (r : Option Reservation) (res : Result)
      (up : Upstream) (reply : Reply ChatResponse)
      → ClosedBy g r up (serve_chat out g label model raw r res up reply).0.accounting
  unfolding serve_chat
  serve_chat-ClosedBy g label model raw r res up (ok x) = record {
    usage = _;
    model = _;
    provider = _;
    closed = refl;
  }
  serve_chat-ClosedBy g label model raw r res up (err e) = record {
    usage = _;
    model = _;
    provider = _;
    closed = refl;
  }

  serve_opened-ClosedBy :
      (g : Gateway) (label model : String) (raw : Bytes) (r : Option Reservation) (res : Result)
      (up : Upstream) (reply : Reply Reader)
      → ClosedBy g r up (serve_opened out g label model raw r res up reply).0.accounting
  unfolding serve_opened settle_stream
  serve_opened-ClosedBy g label model raw r res up (ok x) = record {
    usage = _;
    model = _;
    provider = _;
    closed = refl;
  }
  serve_opened-ClosedBy g label model raw r res up (err e) = record {
    usage = _;
    model = _;
    provider = _;
    closed = refl;
  }

  serve-ClosedBy :
      (g : Gateway) (label : String) (env : Envelope) (raw : Bytes) (r : Option Reservation)
      (res : Result) (up : Upstream) (can_flush : Bool)
      → ClosedBy g r up (serve out g label env raw r res up can_flush).0.accounting
  unfolding serve serve_stream
  serve-ClosedBy g label env raw r res up can_flush =
      let P = λ (p : Gateway × Response). ClosedBy g r up p.0.accounting in
      either_way P env.stream
        (either_way P can_flush (serve_opened-ClosedBy g label env.model raw r res up up.open_reply)
          (record { usage = _; model = _; provider = _; closed = refl }))
        (serve_chat-ClosedBy g label env.model raw r res up up.chat)

  -- Where a request leaves the accounting that it met as `g`.
  Leaves : World → Gateway × Response → Type 0
  Leaves w p = Accounted w w.outstanding p.0.accounting

  serve_admitted-Leaves :
      (w : World) (g : Gateway) (guard : Guard) (label tenant : String) (env : Envelope)
      (raw : Bytes) (now : ℕ) (res : Result) (up : Upstream) (can_flush : Bool)
      → w.enforcer.next_id + 1 < 2 ^ 64
      → w.enforcer ≡ guard.enforcer
      → (e' : Enforcer) (a : Admission)
      → reserve guard.enforcer tenant (estimate out.codec guard.estimator env.model raw) now
        ≡ (e', a)
      → Leaves w
          (serve_admitted out g label env raw res up can_flush (record guard { enforcer = e' }, a))
  unfolding serve_admitted Leaves Accounted
  serve_admitted-Leaves w g guard label tenant env raw now res up can_flush small e e' (denied d)
        h =
      (
        _,
        refl,
        record {
          after = _;
          path =
              next here (
                refuses tenant (estimate out.codec guard.estimator env.model raw) now e' d
                  (rw e h));
          same_enforcer = refl;
          left = refl;
        },
      )
  serve_admitted-Leaves w g guard label tenant env raw now res up can_flush small e e' (admitted r)
        h =
      let guard' : Guard = record guard { enforcer = e' } in
      let v : World = record {
        enforcer = e';
        outstanding = r ∷ w.outstanding;
        excess = bump w.excess tenant 0;
      } in
      let c =
        serve-ClosedBy (record g { accounting = some guard' }) label env raw (some r) res up
          can_flush in
      let step : Step w v =
        admits tenant (estimate out.codec guard.estimator env.model raw) now e' r small (rw e h) in
      subst (Accounted w w.outstanding) (sym c.closed) (
        earlier-Accounted w v w.outstanding _ (next here step) (
          settle_or_abort-Accounted v guard' r w.outstanding c.usage c.model c.provider up refl
            refl))

  serve_missed-Leaves :
      (w : World) (g : Gateway) (guard : Guard) (o : Option Response) (label tenant : String)
      (env : Envelope) (raw : Bytes) (now : ℕ) (res : Result) (up : Upstream) (can_flush : Bool)
      → w.enforcer.next_id + 1 < 2 ^ 64
      → w.enforcer ≡ guard.enforcer
      → g.accounting ≡ some guard
      → Leaves w (serve_missed out o g tenant label env raw now res up can_flush)
  unfolding serve_missed serve_counted begin_request Leaves Accounted
  serve_missed-Leaves w g guard (some x) label tenant env raw now res up can_flush small e h =
      (guard, h, record { after = w; path = here; same_enforcer = e; left = refl })
  serve_missed-Leaves w g guard none label tenant env raw now res up can_flush small e h =
      subst (λ a. Leaves w (serve_counted out a g tenant label env raw now res up can_flush))
        (sym h)
        (serve_admitted-Leaves w g guard label tenant env raw now res up can_flush small e _ _ refl)

  unchanged-Leaves :
      (w : World) (g : Gateway) (guard : Guard) (x : Response)
      → w.enforcer ≡ guard.enforcer
      → g.accounting ≡ some guard
      → Leaves w (g, x)
  unfolding Leaves Accounted
  unchanged-Leaves w g guard x e h =
      (guard, h, record { after = w; path = here; same_enforcer = e; left = refl })

  serve_routed-Leaves :
      (w : World) (g : Gateway) (guard : Guard) (req : Request) (raw : Bytes) (env : Envelope)
      (label : String) (up : Upstream)
      → w.enforcer.next_id + 1 < 2 ^ 64
      → w.enforcer ≡ guard.enforcer
      → g.accounting ≡ some guard
      → Leaves w (serve_routed out g req raw env label up)
  unfolding serve_routed
  serve_routed-Leaves w g guard req raw env label up small e h =
      let (cache', res) = cache_get out g.cache req.tenant env.model raw req.now in
      serve_missed-Leaves w (record g { cache = cache' }) guard
        (serve_cached res.entry res.semantic env.stream req.can_flush) label req.tenant env raw
        req.now res up req.can_flush small e h

  handle_envelope-Leaves :
      (routes : String → Option String) (w : World) (g : Gateway) (guard : Guard) (req : Request)
      (raw : Bytes) (o : Option Envelope) (up : Upstream)
      → w.enforcer.next_id + 1 < 2 ^ 64
      → w.enforcer ≡ guard.enforcer
      → g.accounting ≡ some guard
      → Leaves w (handle_envelope out routes g req raw o up)
  unfolding handle_envelope route_of
  handle_envelope-Leaves routes w g guard req raw none up small e h =
      unchanged-Leaves w g guard _ e h
  handle_envelope-Leaves routes w g guard req raw (some env) up small e h =
      either_way (Leaves w) (same env.model "") (unchanged-Leaves w g guard _ e h)
        (go (routes env.model))
    where
      go : (o : Option String) → Leaves w (route_of out g req raw env o up)
      go none = unchanged-Leaves w g guard _ e h
      go (some label) = serve_routed-Leaves w g guard req raw env label up small e h

-- Whatever a chat request is, and however it ends, be it malformed, unrouted, answered from the
-- cache, denied, failed upstream, answered, or streamed with any sequence of chunks, errors,
-- silences and a client that goes away: it takes the enforcer along a history, of Budget/World.antt,
-- that ends with the same outstanding requests as before, so what it claimed is settled or released,
-- and once. The request counter must be below 2^64 - 1.
pub handle-Accounted :
    (out : Outside) (routes : String → Option String) (w : World) (g : Gateway) (guard : Guard)
    (req : Request) (up : Upstream)
    → w.enforcer.next_id + 1 < 2 ^ 64
    → w.enforcer ≡ guard.enforcer
    → g.accounting ≡ some guard
    → Accounted w w.outstanding (handle out routes g req up).0.accounting
unfolding handle handle_body Leaves
handle-Accounted out routes w g guard req up small e h = go req.body
  where
    go : (b : BodyRead) → Leaves out w (handle_body out routes g req b up)
    go too_large =
        unchanged-Leaves out w g guard
          (failure (wire_error 413 invalid_request_error "request_too_large") none) e h
    go unreadable_body =
        unchanged-Leaves out w g guard
          (failure (wire_error 400 invalid_request_error "invalid_body") none) e h
    go (whole raw) =
        handle_envelope-Leaves out routes w g guard req raw (out.codec.envelope raw) up small e h

continued :
    (limits : String → Option Limits) (w v : World)
    → History limits w
    → Reach w v
    → History limits v
continued limits w v h p = record {
  start = h.start;
  begins = h.begins;
  path = Reach-trans h.start w v h.path p;
}

-- In any history of an enforcer, new or restored from the rows of its store, with a store or without,
-- and whatever requests are in flight, a chat request that runs to its end leaves what the enforcer
-- reports as committed for every tenant as it was: a denied, failed or abandoned request does not keep
-- a part of a budget, and a served one gives back its estimate and no more. The request counter must be
-- below 2^64 - 1.
pub handle-committed :
    (out : Outside) (routes : String → Option String) (limits : String → Option Limits) (w : World)
    (g : Gateway) (guard : Guard) (req : Request) (up : Upstream) (tenant : String) (now : ℕ)
    → History limits w
    → w.enforcer.next_id + 1 < 2 ^ 64
    → w.enforcer ≡ guard.enforcer
    → g.accounting ≡ some guard
    → (guard' : Guard) × ((handle out routes g req up).0.accounting ≡ some guard')
      × ((committed guard'.enforcer tenant now).1 ≡ (committed guard.enforcer tenant now).1)
unfolding Accounted
handle-committed out routes limits w g guard req up tenant now p small e h =
    let (guard', same_guard, l) = handle-Accounted out routes w g guard req up small e h in
    let claims = λ (e : Enforcer). (committed e tenant now).1 in
    let after =
      committed-outstanding limits l.after tenant now (continued limits w l.after p l.path) in
    (
      guard',
      same_guard,
      sym (ap claims l.same_enforcer)
          ∙ after
          ∙ ap (claims_of tenant) l.left
          ∙ sym (committed-outstanding limits w tenant now p)
          ∙ ap claims e,
    )
