-- ===== src/Lib.antt =====
-- Pen-stock is a gateway in front of language model providers. A chat request names a routed model.
-- The ingress asks the cache for an answer to the same request of the same tenant; failing that, the
-- guard estimates what the request will cost and the budget enforcer admits or refuses it, the router
-- tries the providers of the model's chain one after another, and what the answer has used is priced
-- and settled. This library models these parts and how a request goes through them.
--
-- The parts and their files:
--   Base              helpers that the parts share: Boolean tests, lists, maps with string keys
--   Providers.Errors  internal/providers/errors.go: error classes (`ErrorClass`), Go error values with
--                     wrapping (`GoError`), `ClassFromStatus`, `ClassFromStatusAndBody`
--   Providers.Types   internal/providers/types.go: `Usage`, `ChatResponse`, `StreamChunk`
--   Providers.Wire    the request body as each component decodes it, and the standard library's part
--   Providers.Readers internal/providers/rewrite.go, internal/ingress/metrics.go and `timedReader`: whom a
--                     stream is attributed to
--   Providers.Sse     internal/providers/sse.go: the scanner of server-sent events; children
--                     Printing, Progress
--   Providers.OpenaiWire internal/providers/openaiwire/stream.go: the stream reader; child Completeness
--   Providers.Samples test data
--   Providers.Tests   the theorems on small bodies
--   Pricing           internal/pricing/pricing.go: the cost of usage
--   Router.Policy     internal/router/policy.go: `classDisposition`, `countsAgainstHealth`
--   Router.Options    internal/router/types.go: `Options` and its defaults
--   Router.Health     internal/router/health.go: the tracker of breakers, pauses, probes and latencies.
--                     Its children state what holds of histories of calls: History, Gates, Probe,
--                     Tripping, Recovery, Samples
--   Router.Selector   internal/router/selector.go: the three selectors; children Exclusion, Ranking,
--                     Rotation, Members
--   Router.Errors     internal/router/orchestrator.go: `classOf`, `canceledError`, `exhausted`
--   Router.Chain      the loops of `runChain`; children Cases, Totality, Order, Coverage, Effects,
--                     Backoff, First
--   Router.Route      `New`, `runChain`, `Chat`, `ChatStream`, `timedReader`; children Requests,
--                     Sequence, Reports, Probes
--   Router.Tests      the theorems on small routers
--   Budget.Types      internal/budget/types.go and store.go: limits, estimates, denials, rows
--   Budget.Windows    internal/budget/enforcer.go: one tenant's counters, `stateFor`, `checkRates`,
--                     `checkBudgets`
--   Budget.Enforcer   `NewEnforcer`, `NewDurableEnforcer`, `Reserve`, `Settle`, `Release`, `persist`
--   Budget.World      histories: admissions, refusals, settlements, releases, readings and writes to
--                     the store in any order, from `NewEnforcer` or `NewDurableEnforcer` (Beginning).
--                     Account, Outstanding, Books and Settling hold the invariant of such a history;
--                     Admission, Overshoot, Once, Durability, Restart and
--                     Survival what follows
--   Budget.Estimator  internal/budget/estimator.go: what a request is expected to use; child Cover
--   Budget.Guard      internal/budget/guard.go: `Begin`, `Settle`, `Abort`, with the rows of the ledger
--   Budget.Tests      the theorems on a small enforcer
--   Cache.Types       internal/cache/types.go: `Entry`, `Key`, `Event`
--   Cache.Exact       internal/cache/exact.go: `NewExact`, `Get`, `Put`. The intrusive list and the maps
--                     of the tenants are one list of nodes, most recently used first. Children Recency
--                     (lemmas on that list), Bounds, Forgetting, Answers, Hits
--   Cache.Policy      internal/cache/policy.go: `Eligible`
--   Cache.Keys        internal/cache/key.go: `BuildKey`; child Separation
--   Cache.Semantic    internal/cache/semantic.go: answers by similarity; child Nearest
--   Cache.Lookup      internal/cache/lookup.go and messages.go: both tiers behind one call; child Repeats
--   Cache.Tests       the theorems on a small cache
--   Config.Auth       internal/config: keys and tenants, `validateAuth`; child Owners
--   Config.Routes     internal/config and cmd/penstock/main.go: `validateProviders`, `validateRoutes`,
--                     `buildRoutes`; child Building
--   Config.Tests      the theorems on a small configuration
--   Ingress.Responses internal/ingress/errors.go and accounting.go: statuses and codes
--   Ingress.Recorder  internal/ingress/cached.go: `streamRecorder`
--   Ingress.Stream    the loop of `serveStream` in internal/ingress/handlers.go
--   Ingress.Handler   handlers.go and cached.go: `handleChatCompletions` to its response. Children:
--                     Closing (the accounting), Replay (streams), Repeats (the cache), Billing
--   Ingress.Auth      internal/ingress/auth.go: client keys; child Identity
--   Ingress.Tests     the theorems on one tenant's requests
--
-- How they interact. The router asks the selector for the order of the chain, the selector asks the
-- tracker which providers are available (which may claim a probe), and the loop of `runChain` reports
-- successes and failures to the tracker. The ingress calls the lookup, the guard and then the
-- upstream, whose answer is an argument of the handler (`Upstream`): a whole answer, an error, or the
-- sequence of what the loop over a stream meets. The guard calls the estimator, the enforcer and the
-- price table, and a request is a few steps of the enforcer's histories. Methods that change state
-- take it and return it; each runs under one mutex in the code, so that concurrent callers are a list
-- of calls, or a chain of steps.
--
-- What is a parameter. The upstreams, the context, the clock and the random numbers are the record
-- `Env`, indexed by the number of the call, so that each may answer differently every time. The
-- float64 moving average of latencies is a function of the tracker. Whether a store's write succeeds
-- is an argument of `persist`. What encoding/json, strconv and crypto/sha256 make of a body are the
-- fields of the record `Codec`; the cosine of two embeddings and the embedding model are those of
-- `Outside`; the digest of a key, the pattern of tenant names, and the reading of addresses and URLs
-- are arguments. Whether an error's body looks like an error envelope is an argument of the classification.
--
-- Numbers. Times and durations are nanoseconds, and 0 is the zero time. Counters that are uint64 wrap
-- around at 2 ^ 64. Amounts of money are exact where the code has float64, so rounding is not modelled.
--
-- Fuel. The loop over one provider takes fuel, one more than the attempts that are allowed; each round
-- but the last makes an upstream call, and the calls are bounded by the attempts. The eviction loop of
-- the cache takes as much fuel as there are nodes, and each round drops one. The loop of the stream
-- reader takes one more than the lines of the body and what stands after them, and each event takes one
-- of these.
--
-- What is not modelled: error and denial messages, contexts beyond their error, the ids of reservations
-- as text; metrics and logs; failed writes of a cached answer to a client; the rewriting of a request's
-- body for a provider, the limit on requests in flight, how a key is read from a header, the rest of the
-- configuration and the validation of price lists; and the rest of the packages obs, admin, llmsim and the
-- provider adapters, which are I/O or wiring around libraries.
mod Base
pub mod Providers
pub mod Pricing
pub mod Router
pub mod Budget
pub mod Cache
pub mod Config
pub mod Ingress
