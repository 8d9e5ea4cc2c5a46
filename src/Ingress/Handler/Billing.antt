-- ===== src/Ingress/Handler/Billing.antt =====
-- What a stream through the router (internal/router/orchestrator.go) and a renamed provider
-- (internal/providers/rewrite.go) is billed as (internal/ingress/handlers.go, metrics.go).
use pen_stock.Base.{◌≡◌, refl, true, false, none, some, String, List, [], ◌∷◌, ◌++◌, same}
use pen_stock.Providers.Types.{Bytes, Usage}
use pen_stock.Providers.Readers.{
  Reader, provider_of_stream, model_of_stream, answering_provider, billed_model, with_model,
  routed_stream,
}
use pen_stock.Router.Chain.{ok}
use pen_stock.Pricing.{Table, price_key, cost}
use pen_stock.Budget.Types.{Reservation}
use pen_stock.Budget.Guard.{Guard, price, settle_request}
use pen_stock.Cache.Lookup.{Outside, Result}
use pen_stock.Ingress.Stream.{
  Frame, Tally, Arrival, received, ended, went_idle, client_gone, tally_chunk, frame_of, pump,
  new_tally,
}
use pen_stock.Ingress.Handler.{Gateway, Upstream, settle_or_abort, settle_stream, serve_opened}

pump-labels :
    (t : Tally) (out : List Frame) (arrivals : List Arrival)
    → ((pump t out arrivals).0.answered ≡ t.answered) × ((pump t out arrivals).0.billed ≡ t.billed)
unfolding pump tally_chunk
pump-labels t out [] = (refl, refl)
pump-labels t out (received c true ∷ rest) =
    pump-labels (tally_chunk t c) (out ++ frame_of c ∷ []) rest
pump-labels t out (received c false ∷ rest) = (refl, refl)
pump-labels t out (ended eof wrote ∷ rest) = (refl, refl)
pump-labels t out (went_idle wrote ∷ rest) = (refl, refl)
pump-labels t out (client_gone ∷ rest) = (refl, refl)

-- A stream that comes through the router from a provider with an upstream name for the model is
-- settled, at its last reported usage, for the provider that answered, but for the model of the route
-- and not for the upstream's: where the price list has no row for the route's name, it costs nothing
-- and is charged to no budget, whatever its usage.
pub routed_stream-unbilled :
    (out : Outside) (g : Gateway) (guard : Guard) (t : Table) (kind_of : String → String)
    (label model upstream_model provider : String) (inner : Reader) (raw : Bytes) (r : Reservation)
    (res : Result) (up : Upstream) (u : Usage)
    → g.accounting ≡ some guard
    → guard.prices ≡ some t
    → guard.kind_of ≡ some kind_of
    → same provider "" ≡ false
    → t.prices (price_key (kind_of provider) model) ≡ none
    → (pump (new_tally provider model) [] up.arrivals).0.last_usage ≡ some u
    → ((serve_opened out g label model raw
          (some r)
          res
          up
          (ok (routed_stream provider (with_model upstream_model inner)))).0.accounting
        ≡ some (settle_request guard r u model provider up.later up.saved).0)
      × ((settle_request guard r u model provider up.later up.saved).1 ≡ 0)
unfolding serve_opened settle_stream settle_or_abort settle_request price cost routed_stream
    provider_of_stream model_of_stream answering_provider billed_model
routed_stream-unbilled out g guard t kind_of label model upstream_model provider inner raw r res up
      u acc prices kinds named unpriced used =
    let (same_provider, same_model) = pump-labels (new_tally provider model) [] up.arrivals in
    (
      rw named (rw acc (rw used (rw same_provider (rw same_model refl)))),
      rw prices (rw kinds (rw unpriced refl)),
    )
