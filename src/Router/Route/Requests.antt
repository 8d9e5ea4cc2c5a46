-- ===== src/Router/Route/Requests.antt =====
-- What holds of a whole request, `Chat` or `ChatStream` (internal/router/orchestrator.go).
use pen_stock.Base.{
  ℕ, suc, ◌≤◌, ◌≡◌, ◌⊎◌, refl, true, Option, none, some, String, List, [], ◌∷◌, arith, All, length,
  inl, inr, same, same_refl, if◌then◌else◌,
}
use pen_stock.Providers.Errors.{GoError}
use pen_stock.Router.Health.{Tracker}
use pen_stock.Router.Selector.{order}
use pen_stock.Router.Selector.Members.{order-All}
use pen_stock.Router.Chain.{Router, Reply, ok, err, Env, ChainState, contains}
use pen_stock.Router.Chain.Totality.{walk-total}
use pen_stock.Router.Chain.Coverage.{
  IsPatient, Answers, Tried, Verdict, answered, all_failed, walk-Verdict,
}
use pen_stock.Router.Route.{run_chain, start_walk, finish}

All-contains :
    (names all : List String)
    → ((q : String) → contains q names ≡ true → contains q all ≡ true)
    → All (λ p. contains p all ≡ true) names
unfolding contains
All-contains [] all k = tt
All-contains (p ∷ names) all k =
    (k p (rw (same_refl p) refl), All-contains names all (λ q h. k q (found q h)))
  where
    found :
        (q : String)
        → contains q names ≡ true
        → (if same p q then true else contains q names) ≡ true
    found q h = ground arith

-- The candidates of a request: what the selector returns for it.
abbrev pub candidates : {A : Type 0} → Env A → Router → List String
candidates env r = (order r.sel (some r.health) r.names env.start env.start).2

candidates-known :
    {A : Type 0} (env : Env A) (r : Router)
    → All (λ p. contains p r.names ≡ true) (candidates env r)
candidates-known env r =
    order-All (λ p. contains p r.names ≡ true) r.sel (some r.health) r.names env.start env.start
      (All-contains r.names r.names (λ q h. h))

start_walk-total :
    {A : Type 0} (env : Env A) (on_success : Tracker → String → ℕ → Tracker) (r : Router)
    (names : List String)
    → r.attempts ≡ []
    → (r' : Router) × (reply : Reply A) × (start_walk env on_success r names ≡ some (r', reply))
      × (length r'.attempts ≤ r.opts.max_attempts)
unfolding start_walk finish
start_walk-total env on_success r [] e = (r, _, refl, rw e (omega arith))
start_walk-total env on_success r (p ∷ rest) e =
    let start : ChainState = record {
      health = r.health;
      used = 0;
      attempts = [];
      last_err = none;
      waits = [];
    } in
    let (s, reply, q, more) =
      walk-total env on_success r (suc r.opts.max_attempts) (p ∷ rest) start (omega arith) in
    (
      record r { health = s.health; attempts = s.attempts },
      reply,
      rw q refl,
      omega (arith, more.counted, more.capped),
    )

-- Every request comes to an end with an answer or an error, after at most `MaxAttempts` upstream
-- calls in all, whatever the upstreams, the context and the clock do.
pub run_chain-total :
    {A : Type 0} (env : Env A) (on_success : Tracker → String → ℕ → Tracker) (r : Router)
    → (r' : Router) × (reply : Reply A) × (run_chain env on_success r ≡ some (r', reply))
      × (length r'.attempts ≤ r.opts.max_attempts)
unfolding run_chain
run_chain-total env on_success r = start_walk-total env on_success _ (candidates env r) refl

-- The verdict on a request, once the walk has one.
abbrev pub Settled : {A : Type 0} → Env A → List String → Option (Router × Reply A) → Type 0
Settled {A} env names out =
    ((r' : Router) × (a : A) × (out ≡ some (r', ok a)))
    ⊎ ((r' : Router) × (e : GoError) × (out ≡ some (r', err e))
        × All (λ p. Tried p r'.attempts × ¬ Answers env p) names)

start_walk-Settled :
    {A : Type 0} (env : Env A) (on_success : Tracker → String → ℕ → Tracker) (r : Router)
    (names : List String)
    → IsPatient A env
    → length names ≤ r.opts.max_attempts
    → All (λ p. contains p r.names ≡ true) names
    → Settled env names (start_walk env on_success r names)
unfolding start_walk finish
start_walk-Settled {A = A} env on_success r [] patient m known = inr (r, _, refl, tt)
start_walk-Settled {A = A} env on_success r (p ∷ rest) patient m known = go (
    walk-Verdict env on_success r patient (suc r.opts.max_attempts) (p ∷ rest) start (omega arith)
      (omega arith) known)
  where
    start : ChainState
    start = record { health = r.health; used = 0; attempts = []; last_err = none; waits = [] }

    go :
        {out : Option (ChainState × Reply A)}
        → Verdict env on_success r patient (p ∷ rest) start out
        → Settled env (p ∷ rest) (finish r out)
    go (answered s a e) = inl (record r { health = s.health; attempts = s.attempts }, a, rw e refl)
    go (all_failed s e all x q) =
        inr (record r { health = s.health; attempts = s.attempts }, e, rw q refl, all)

-- No candidate is starved: if the caller stays, no upstream blames the request, and there are no
-- more candidates than attempts allowed, then a request either is answered, or fails after every
-- candidate was tried at least once. So a candidate that answers its calls is reached, however the
-- ones before it fail and are retried, and the request is answered.
pub no_candidate_starves :
    {A : Type 0} (env : Env A) (on_success : Tracker → String → ℕ → Tracker) (r : Router)
    → IsPatient A env
    → length (candidates env r) ≤ r.opts.max_attempts
    → Settled env (candidates env r) (run_chain env on_success r)
unfolding run_chain
no_candidate_starves env on_success r patient m =
    start_walk-Settled env on_success _ (candidates env r) patient m (candidates-known env r)
