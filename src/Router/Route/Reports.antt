-- ===== src/Router/Route/Reports.antt =====
-- A request is a history of calls on the health tracker (internal/router), so what holds after every
-- history holds of the tracker that requests share.
use pen_stock.Base.{
  Bool, not, ◌&&◌, ◌-◌, either_way, ℕ, suc, ◌≡◌, refl, ◌∙◌, Option, none, some, String, List, [],
  ◌∷◌, ◌++◌, Bool-cases, inl, inr, subst, sym, ap,
}
use pen_stock.Providers.Errors.{GoError}
use pen_stock.Router.Policy.{counts_against_health}
use pen_stock.Router.Options.{Options, with_defaults}
use pen_stock.Router.Health.{Tracker, new_health, available}
use pen_stock.Router.Health.History.{
  Call, asks, succeeds, fails, step, run, SoundEntry, run-new_health-IsSound,
}
use pen_stock.Router.Selector.{
  Selector, priority_selector, least_latency_selector, round_robin_selector, available_names,
  available_from, order,
}
use pen_stock.Router.Errors.{class_of}
use pen_stock.Router.Chain.{
  Router, Reply, Env, ChainState, failed_state, success_state, sleep, walk,
}
use pen_stock.Router.Chain.Effects.{walk-Leads}
use pen_stock.Router.Route.{
  TimedReader, recv, run_chain, start_walk, finish, tracker_or, chat, chat_stream,
}

-- The second tracker is the first after some calls.
abbrev pub Reaches : Tracker → Tracker → Type 0
Reaches t t' = (cs : List (String × Call)) × (run t cs ≡ t')

Reaches-refl : (t : Tracker) → Reaches t t
unfolding run
Reaches-refl t = ([], refl)

run-append : (t : Tracker) (xs ys : List (String × Call)) → run t (xs ++ ys) ≡ run (run t xs) ys
unfolding run
run-append t [] ys = refl
run-append t ((p, c) ∷ xs) ys = run-append (step t p c) xs ys

Reaches-trans : (t u v : Tracker) → Reaches t u → Reaches u v → Reaches t v
Reaches-trans t u v (xs, e) (ys, k) = (xs ++ ys, run-append t xs ys ∙ (ap (λ w. run w ys) e ∙ k))

Reaches-step : (t : Tracker) (p : String) (c : Call) → Reaches t (step t p c)
unfolding run
Reaches-step t p c = ((p, c) ∷ [], refl)

available_names-Reaches :
    (t : Tracker) (chain : List String) (clock now : ℕ)
    → Reaches t (available_names t chain clock now).0
unfolding available_names step
available_names-Reaches t [] clock now = Reaches-refl t
available_names-Reaches t (p ∷ chain) clock now =
    Reaches-trans t (available t p clock now).0 _ (Reaches-step t p (asks clock now))
      (available_names-Reaches (available t p clock now).0 chain clock now)

order-Reaches :
    (sel : Selector) (t : Tracker) (chain : List String) (clock now : ℕ)
    → Reaches t (tracker_or (order sel (some t) chain clock now).1 t)
unfolding order available_from
order-Reaches priority_selector t chain clock now = available_names-Reaches t chain clock now
order-Reaches least_latency_selector t chain clock now = available_names-Reaches t chain clock now
order-Reaches (round_robin_selector calls) t chain clock now =
    available_names-Reaches t chain clock now

module _ {A : Type 0} (env : Env A) (on_success : Tracker → String → ℕ → Tracker)
    (reports : (t : Tracker) (p : String) (now : ℕ) → Reaches t (on_success t p now)) where
  failed_state-Reaches :
      (r : Router) (p : String) (e : GoError) (s : ChainState)
      → Reaches s.health (failed_state env on_success r p e s).health
  unfolding failed_state step
  failed_state-Reaches r p e s = elim (Bool-cases (counts_against_health (class_of e))) [
    | inl c ↦
        rw c (Reaches-step s.health p (fails (class_of e) 0 (env.clock s.used) (env.clock s.used)))
    | inr c ↦ rw c (Reaches-refl s.health)
  ]

  walk-Reaches :
      (r : Router) (fuel : ℕ) (names : List String) (s s' : ChainState) (reply : Reply A)
      → walk env on_success r fuel names s ≡ some (s', reply)
      → Reaches s.health s'.health
  unfolding success_state sleep
  walk-Reaches r =
      walk-Leads env on_success r (λ s t. Reaches s.health t.health) (λ s. Reaches-refl s.health)
        (λ s t u. Reaches-trans s.health t.health u.health) (failed_state-Reaches r)
        (λ p s. reports s.health p (env.clock s.used)) (λ s. Reaches-refl s.health)

  finish-health :
      (r : Router) (t : Tracker) (r' : Router) (reply : Reply A)
      (out : Option (ChainState × Reply A))
      → ((s' : ChainState) (reply' : Reply A) → out ≡ some (s', reply') → Reaches t s'.health)
      → finish r out ≡ some (r', reply)
      → Reaches t r'.health
  unfolding finish
  finish-health r t r' reply none h e = absurd (cc)
  finish-health r t r' reply (some (s, x)) h e = subst (λ u. Reaches t u) (health-eq e) (h s x refl)
    where
      health-eq :
          {q q' : Router} {y y' : Reply A}
          → ◌≡◌ {A = Option (Router × Reply A)} (some (q, y)) (some (q', y'))
          → q.health ≡ q'.health
      health-eq k = cc

  start_walk-Reaches :
      (r r' : Router) (reply : Reply A) (names : List String)
      → start_walk env on_success r names ≡ some (r', reply)
      → Reaches r.health r'.health
  unfolding start_walk
  start_walk-Reaches r r' reply [] e =
      subst (λ u. Reaches r.health u) (health-eq e) (Reaches-refl r.health)
    where
      health-eq :
          {q q' : Router} {y y' : Reply A}
          → ◌≡◌ {A = Option (Router × Reply A)} (some (q, y)) (some (q', y'))
          → q.health ≡ q'.health
      health-eq k = cc
  start_walk-Reaches r r' reply (p ∷ rest) e =
      finish-health r r.health r' reply _
        (walk-Reaches r (suc r.opts.max_attempts) (p ∷ rest)
          (record { health = r.health; used = 0; attempts = []; last_err = none; waits = [] }))
        e

  pub run_chain-Reaches :
      (r r' : Router) (reply : Reply A)
      → run_chain env on_success r ≡ some (r', reply)
      → Reaches r.health r'.health
  unfolding run_chain
  run_chain-Reaches r r' reply e =
      Reaches-trans r.health _ r'.health (order-Reaches r.sel r.health r.names env.start env.start)
        (start_walk-Reaches _ r' reply _ e)

-- What is called on a router: a completion, or a stream, each with its environment, or one read of a
-- stream that was opened: its reader, whether the inner reader fails, whether its chunk is a keepalive,
-- and the time.
pub data Request (A : Type 0) : Type 0 where
  completes : Env A → Request A
  streams : Env A → Request A
  receives : TimedReader → Bool → Bool → ℕ → Request A

abbrev pub router_or : {A : Type 0} → Option (Router × Reply A) → Router → Router
router_or none r = r
router_or (some (r', reply)) r = r'

serve_one : {A : Type 0} → Router → Request A → Router
serve_one r (completes env) = router_or (chat env r) r
serve_one r (streams env) = router_or (chat_stream env r) r
serve_one r (receives reader failed keepalive now) = record r {
  health = (recv r.health reader failed keepalive now).0;
}

-- The router after some requests and reads, in their order.
pub serve : {A : Type 0} → Router → List (Request A) → Router
unfolding serve_one
serve r [] = r
serve r (q ∷ qs) = serve (serve_one r q) qs

router_or-Reaches :
    {A : Type 0} (r : Router) (out : Option (Router × Reply A))
    → ((r' : Router) (reply : Reply A) → out ≡ some (r', reply) → Reaches r.health r'.health)
    → Reaches r.health (router_or out r).health
router_or-Reaches r none h = Reaches-refl r.health
router_or-Reaches r (some (r', reply)) h = h r' reply refl

recv-Reaches :
    (t : Tracker) (reader : TimedReader) (failed keepalive : Bool) (now : ℕ)
    → Reaches t (recv t reader failed keepalive now).0
unfolding recv step
recv-Reaches t reader failed keepalive now =
    either_way (λ (p : Tracker × TimedReader). Reaches t p.0)
      (not failed && (not reader.recorded && not keepalive))
      (Reaches-step t reader.provider (succeeds (now - reader.start))) (Reaches-refl t)

serve_one-Reaches :
    {A : Type 0} (r : Router) (q : Request A) → Reaches r.health (serve_one r q).health
unfolding serve_one chat chat_stream step
serve_one-Reaches r (completes env) =
    router_or-Reaches r _ (run_chain-Reaches env _ (λ t p now. Reaches-step t p (succeeds 0)) r)
serve_one-Reaches r (streams env) =
    router_or-Reaches r _ (run_chain-Reaches env _ (λ t p now. Reaches-refl t) r)
serve_one-Reaches r (receives reader failed keepalive now) =
    recv-Reaches r.health reader failed keepalive now

pub serve-Reaches :
    {A : Type 0} (r : Router) (qs : List (Request A)) → Reaches r.health (serve r qs).health
unfolding serve
serve-Reaches r [] = Reaches-refl r.health
serve-Reaches r (q ∷ qs) =
    Reaches-trans r.health (serve_one r q).health _ (serve_one-Reaches r q)
      (serve-Reaches (serve_one r q) qs)

-- After any requests to a router that started with a new tracker, one after the other, and any reads of
-- streams between them, each of which reports a success where it is the first to bring a chunk, and
-- whatever the upstreams answered: every provider's entry is sound: a probe is in flight exactly while
-- the breaker is half open, and a closed breaker's failure streak is below the threshold.
pub serve-IsSound :
    {A : Type 0} (r : Router) (average : ℕ → ℕ → ℕ) (opts : Options) (qs : List (Request A))
    (p : String)
    → r.health ≡ new_health average opts
    → SoundEntry (with_defaults opts).breaker_threshold ((serve r qs).health.state p)
serve-IsSound r average opts qs p e =
    let (cs, h) = serve-Reaches r qs in
    subst (λ t. SoundEntry (with_defaults opts).breaker_threshold (t.state p))
      (ap (λ t. run t cs) (sym e) ∙ h) (run-new_health-IsSound average opts cs p)
