-- ===== src/Router/Tests.antt =====
-- The router's theorems at concrete inputs, and runs of its code.
use mathlib.Core.List.{Perm}
use pen_stock.Base.{
  ℕ, ◌+◌, ◌*◌, ◌≤◌, ◌≡◌, ◌≢◌, refl, true, false, Option, none, some, String, List, [], ◌∷◌, arith,
  inl, inr, length, ◌/◌, map, update, same→ne, same, subst, if◌then◌else◌, Bool-cases, ltb,
}
use pen_stock.Providers.Errors.{GoError, provider_error, rate_limited, upstream, timeout}
use pen_stock.Router.Errors.{class_of}
use pen_stock.Router.Policy.{fail, class_disposition, counts_against_health}
use pen_stock.Router.Options.{Options, with_defaults, priority}
use pen_stock.Router.Health.{
  half_open, admit_probe, available_entry, ProviderHealth, fresh, opened, Tracker, new_health,
  available, record_failure, record_success, get_entry, entry_available, entry_success,
  entry_failure, at_time, cooldown_for,
}
use pen_stock.Router.Health.History.{step, Call, asks, fails, run, calls_of, SoundEntry}
use pen_stock.Router.Health.Gates.{pause_holds}
use pen_stock.Router.Health.Probe.{single_probe}
use pen_stock.Router.Health.Tripping.{breaker_trips, is_closed, failures}
use pen_stock.Router.Health.Recovery.{provider_returns}
use pen_stock.Router.Selector.{
  priority_selector, order, available_from, available_names, by_latency,
}
use pen_stock.Router.Selector.Exclusion.{keep}
use pen_stock.Router.Selector.Ranking.{by_latency-ranks, IsRanked, ttft_of, same_ttft}
use pen_stock.Router.Selector.Rotation.{round_robin-fair, leaders}
use pen_stock.Router.Chain.{
  Router, Attempt, Reply, ok, err, Env, ChainState, walk, contains, try_provider, round,
}
use pen_stock.Router.Chain.Order.{Follows}
use pen_stock.Router.Chain.Coverage.{IsPatient}
use pen_stock.Router.Chain.Backoff.{walk-waits, IsShort}
use pen_stock.Router.Route.{run_chain, chat, TimedReader}
use pen_stock.Router.Route.Requests.{run_chain-total, no_candidate_starves, Settled}
use pen_stock.Router.Route.Sequence.{run_chain-Follows}
use pen_stock.Router.Route.Reports.{serve, serve-IsSound, router_or, completes, streams, receives}
use pen_stock.Router.Route.Probes.{unused_probe_blocks, two_providers}

abbrev options : Options
options = record {
  strategy = some priority;
  max_attempts = 4;
  retry_base_delay = 100;
  max_retry_delay = 1000;
  breaker_threshold = 2;
  breaker_cooldown = 50;
}

abbrev blend : ℕ → ℕ → ℕ
blend ttft ewma = (ttft + 4 * ewma) / 5

abbrev entry : ProviderHealth
entry = record fresh { breaker = opened; consecutive_failures = 2; opened_at = 100 }

abbrev tracker : Tracker
tracker = record { opts = options; average = blend; state = update (λ _. none) "groq" entry }

abbrev calls : List (String × Call)
calls =
    ("mistral", fails timeout 0 0 120)
    ∷ ("groq", asks 0 130)
    ∷ ("groq", fails rate_limited 5 0 140)
    ∷ []

pause_holds_example :
    (available (run (record_failure tracker "groq" rate_limited 500 0 90) calls) "groq" 0 580).1
    ≡ false
unfolding cooldown_for at_time
pause_holds_example =
    pause_holds tracker "groq" rate_limited 500 0 90 calls 0 580 (omega arith) (omega arith)

single_probe_example :
    (available (run (available tracker "groq" 0 200).0 (("groq", asks 0 210) ∷ [])) "groq" 0 220).1
    ≡ false
unfolding at_time calls_of available entry_available
single_probe_example =
    single_probe tracker "groq" entry 0 200 (("groq", asks 0 210) ∷ []) 0 220 refl (λ e. cc) refl
      (omega arith, tt) (omega arith)

abbrev two_failures : List (String × Call)
two_failures =
    ("groq", fails timeout 0 0 300) ∷ ("groq", fails upstream 0 0 301) ∷ ("groq", asks 0 900) ∷ []

after_two : ProviderHealth
after_two = record fresh {
  breaker = half_open;
  consecutive_failures = 2;
  opened_at = 301;
  probe_in_flight = true;
  probe_started = 900;
}

breaker_trips_example :
    (after_two.consecutive_failures ≡ failures (calls_of "groq" two_failures))
    × (is_closed after_two.breaker ≡ ltb (failures (calls_of "groq" two_failures)) 2)
unfolding calls_of run step record_success record_failure entry_success entry_failure get_entry
    at_time after_two counts_against_health available available_entry entry_available admit_probe
breaker_trips_example =
    breaker_trips tracker "groq" 0 two_failures after_two (omega arith) (tt, (tt, (tt, tt))) refl

provider_returns_example :
    (ready : ℕ) × ((clock now : ℕ)
      → ready ≤ at_time clock now
      → (available (run tracker calls) "groq" clock now).1 ≡ true)
provider_returns_example = provider_returns tracker "groq" calls

abbrev names : List String
names = "groq" ∷ "mistral" ∷ "gemini" ∷ []

by_latency-ranks_example :
    Perm (by_latency (some tracker) names) names
    × IsRanked (ttft_of (some tracker)) (by_latency (some tracker) names)
    × (keep (λ n. same_ttft (ttft_of (some tracker) n) none) (by_latency (some tracker) names)
        ≡ keep (λ n. same_ttft (ttft_of (some tracker) n) none) names)
by_latency-ranks_example = by_latency-ranks (some tracker) names none

round_robin-fair_example : Perm (leaders 3 4 names) names
round_robin-fair_example = round_robin-fair names 4 (omega arith) (omega arith)

-- The first provider fails with an error that may be retried, the second answers.
abbrev env : Env ℕ
env = record {
  start = 200;
  answer = λ i p. if same p "mistral" then ok 7 else err (provider_error p timeout "slow");
  ctx_before = λ i. none;
  ctx_after = λ i. none;
  clock = λ i. 210 + i;
  duration = λ i. 1;
  random = λ i n. 0;
}

abbrev router : Router
router = record {
  name = "auto";
  names = names;
  health = new_health blend options;
  sel = priority_selector;
  opts = options;
  attempts = [];
}

env-IsPatient : IsPatient ℕ env
unfolding class_of class_disposition
env-IsPatient = record {
  stays = λ i. refl;
  blameless = λ i p e h. elim (Bool-cases (same p "mistral")) [
    | inl m ↦ absurd (answered-mistral i p e m h)
    | inr m ↦ failed-others i p e m h
  ];
}
  where
    answered-mistral :
        (i : ℕ) (p : String) (e : GoError) → same p "mistral" ≡ true → env.answer i p ≡ err e → ⊥
    answered-mistral i p e m h = cc (rw m at h)

    err-eq :
        (p : String) (e : GoError)
        → ◌≡◌ {A = Reply ℕ} (err (provider_error p timeout "slow")) (err e)
        → provider_error p timeout "slow" ≡ e
    err-eq p e h = cc

    failed-others :
        (i : ℕ) (p : String) (e : GoError)
        → same p "mistral" ≡ false
        → env.answer i p ≡ err e
        → class_disposition (class_of e) ≢ fail
    failed-others i p e m h =
        subst (λ z. class_disposition (class_of z) ≢ fail) (err-eq p e (rw m at h)) (λ q. cc)

no_candidate_starves_example :
    Settled env names (run_chain env (λ t p now. record_success t p 0) router)
unfolding order available_from available_names available new_health
no_candidate_starves_example =
    no_candidate_starves env (λ t p now. record_success t p 0) router env-IsPatient (omega arith)

run_chain-total_example :
    (r' : Router) × (reply : Reply ℕ) × (run_chain env (λ t p now. record_success t p 0) router
      ≡ some (r', reply))
    × (length r'.attempts ≤ 4)
run_chain-total_example = run_chain-total env (λ t p now. record_success t p 0) router

-- The router after the request, as it computes.
abbrev called : List Attempt
called =
    record {
      provider = "groq";
      class = some timeout;
      err = some (provider_error "groq" timeout "slow");
      duration = 1;
    }
    ∷ record {
      provider = "groq";
      class = some timeout;
      err = some (provider_error "groq" timeout "slow");
      duration = 1;
    }
    ∷ record { provider = "mistral"; class = none; err = none; duration = 1 }
    ∷ []

served : Router
unfolding run_chain order available_from available_names available new_health
served = router_or (run_chain env (λ t p now. record_success t p 0) router) router

served_attempts : served.attempts ≡ called
unfolding served walk contains try_provider round
served_attempts = refl

run_chain-Follows_example : Follows names called
unfolding run_chain served walk contains try_provider round order available_from available_names
    available new_health
run_chain-Follows_example =
    run_chain-Follows env (λ t p now. record_success t p 0) router served (ok 7) refl

abbrev start : ChainState
start = record { health = router.health; used = 0; attempts = []; last_err = none; waits = [] }

-- Where the walk of that request ends, after one sleep.
abbrev state_or : Option (ChainState × Reply ℕ) → ChainState
state_or none = start
state_or (some (s, reply)) = s

ended : ChainState
unfolding walk contains try_provider round
ended = state_or (walk env (λ t p now. record_success t p 0) router 5 names start)

ended_waits : ended.waits ≡ 0 ∷ []
unfolding ended
ended_waits = refl

walk-waits_example : IsShort 1000 ended
unfolding ended walk contains try_provider round
walk-waits_example =
    walk-waits env (λ t p now. record_success t p 0) router 5 names start ended (ok 7) (λ i n h. h)
      refl tt

abbrev reader : TimedReader
reader = record { provider = "groq"; start = 300; recorded = false }

serve-IsSound_example : SoundEntry 2 (
    (serve router (
        completes env
        ∷ streams env
        ∷ receives reader false false 400
        ∷ completes env
        ∷ [])).health.state
      "groq")
unfolding with_defaults
serve-IsSound_example =
    serve-IsSound router blend options
      (completes env ∷ streams env ∷ receives reader false false 400 ∷ completes env ∷ []) "groq"
      refl

-- "mistral" answers; "groq", behind it, is due for its probe.
unused_probe_blocks_example :
    (r' : Router) × (chat env (two_providers "auto" "mistral" "groq" tracker options)
      ≡ some (r', ok 7))
    × (map (λ att. att.provider) r'.attempts ≡ "mistral" ∷ [])
    × ((available r'.health "groq" 0 300).1 ≡ false)
unfolding available entry_available at_time
unused_probe_blocks_example =
    unused_probe_blocks env "auto" "mistral" "groq" tracker options 7 entry 0 300 (same→ne _ _ refl)
      (omega arith) refl refl refl refl (λ e. cc) refl (omega arith)
