-- ===== src/Router/Route.antt =====
-- internal/router/orchestrator.go: `New`, `runChain` with its callers `Chat` and `ChatStream`, and
-- the reader that reports health at the first chunk.
pub mod Requests
pub mod Reports
pub mod Sequence
pub mod Probes
use pen_stock.Base.{
  ℕ, suc, ◌-◌, Bool, true, false, Option, none, some, String, List, [], ◌∷◌, ◌++◌, if◌then◌else◌,
  not, ◌&&◌,
}
use pen_stock.Providers.Errors.{GoError}
use pen_stock.Router.Options.{Options, with_defaults}
use pen_stock.Router.Health.{Tracker, record_success}
use pen_stock.Router.Selector.{Selector, order}
use pen_stock.Router.Errors.{no_healthy_provider}
use pen_stock.Router.Chain.{Router, Attempt, Reply, ok, err, Env, ChainState, contains, walk}

pub data NewError : Type 0 where
  needs_provider : NewError
  needs_health : NewError
  needs_selector : NewError
  duplicate_provider : String → NewError

pub data NewResult : Type 0 where
  built : Router → NewResult
  refused : NewError → NewResult

-- The loop of `New` over the chain, with the names seen so far; the first duplicate is the answer.
unfoldable pub first_duplicate : List String → List String → Option String
unfolding contains
first_duplicate seen [] = none
first_duplicate seen (p ∷ chain) =
    let rest = first_duplicate (seen ++ p ∷ []) chain in if contains p seen then some p else rest

unfoldable pub new_checked : Option String → Router → NewResult
new_checked none r = built r
new_checked (some p) r = refused (duplicate_provider p)

-- `New`, over the names of the chain's providers.
unfoldable pub new_router :
    String → List String → Option Tracker → Option Selector → Options → NewResult
unfolding new_checked first_duplicate with_defaults
new_router name [] h sel opts = refused needs_provider
new_router name (p ∷ chain) none sel opts = refused needs_health
new_router name (p ∷ chain) (some h) none opts = refused needs_selector
new_router name (p ∷ chain) (some h) (some sel) opts =
    new_checked (first_duplicate [] (p ∷ chain)) (record {
      name = name;
      names = p ∷ chain;
      health = h;
      sel = sel;
      opts = with_defaults opts;
      attempts = [];
    })

abbrev pub tracker_or : Option Tracker → Tracker → Tracker
tracker_or none t = t
tracker_or (some t') t = t'

-- The end of `runChain`: what it leaves in the router.
finish : {A : Type 0} → Router → Option (ChainState × Reply A) → Option (Router × Reply A)
finish r none = none
finish r (some (s, reply)) = some (record r { health = s.health; attempts = s.attempts }, reply)

-- The loops start from nothing. The order is empty if every provider is in cooldown or broken.
start_walk :
    {A : Type 0}
    → Env A
    → (Tracker → String → ℕ → Tracker)
    → Router
    → List String
    → Option (Router × Reply A)
unfolding finish no_healthy_provider
start_walk env on_success r [] = some (r, err (no_healthy_provider r.name))
start_walk env on_success r (p ∷ rest) = finish r (
    walk env on_success r (suc r.opts.max_attempts) (p ∷ rest)
      (record { health = r.health; used = 0; attempts = []; last_err = none; waits = [] }))

-- `runChain`. The fuel of the loop over one provider is one more than the attempts allowed.
unfoldable pub run_chain :
    {A : Type 0} → Env A → (Tracker → String → ℕ → Tracker) → Router → Option (Router × Reply A)
unfolding start_walk
run_chain env on_success r =
    let (sel', h', names) = order r.sel (some r.health) r.names env.start env.start in
    start_walk env on_success
      (record r { health = tracker_or h' r.health; sel = sel'; attempts = [] }) names

-- `Chat`: a success is reported at once, without a time to first token.
unfoldable pub chat : {A : Type 0} → Env A → Router → Option (Router × Reply A)
unfolding run_chain
chat env r = run_chain env (λ t p now. record_success t p 0) r

-- `ChatStream`: the reader reports the success, at the first chunk.
unfoldable pub chat_stream : {A : Type 0} → Env A → Router → Option (Router × Reply A)
unfolding run_chain
chat_stream env r = run_chain env (λ t p now. t) r

-- `timedReader`, without its inner reader: whether it has reported, and for whom.
pub record TimedReader : Type 0 where
  pub provider : String
  pub start : ℕ
  pub recorded : Bool

-- `Recv`, given whether the inner reader failed, whether its chunk is a keepalive, and the time.
unfoldable pub recv : Tracker → TimedReader → Bool → Bool → ℕ → Tracker × TimedReader
recv t reader failed keepalive now =
    if not failed && (not reader.recorded && not keepalive)
    then (record_success t reader.provider (now - reader.start), record reader { recorded = true })
    else (t, reader)
