-- ===== src/Router/Health.antt =====
-- internal/router/health.go: the circuit breaker and latency average of each provider.
-- A time is a number of nanoseconds, 0 the zero time; `now.Sub(t) < d` is `now < t + d`. A method
-- takes the tracker's state and returns the new one: every critical section holds the one mutex,
-- so calls are atomic and a history is a list of calls.
pub mod History
pub mod Gates
pub mod Probe
pub mod Tripping
pub mod Recovery
pub mod Samples
use pen_stock.Base.{
  ℕ, ◌+◌, Bool, true, false, not, ◌&&◌, Option, none, some, String, ltb, leb, ◌==◌, if◌then◌else◌,
  update,
}
use pen_stock.Providers.Errors.{ErrorClass, rate_limited, payment_required}
use pen_stock.Router.Policy.{counts_against_health}
use pen_stock.Router.Options.{Options, with_defaults}

pub data BreakerState : Type 0 where
  closed : BreakerState
  opened : BreakerState
  half_open : BreakerState

abbrev pub default_rate_limit_cooldown : ℕ
default_rate_limit_cooldown = 30_000_000_000

abbrev pub payment_required_cooldown : ℕ
payment_required_cooldown = 900_000_000_000

abbrev pub probe_stall_timeout : ℕ
probe_stall_timeout = 120_000_000_000

abbrev pub min_latency_samples : ℕ
min_latency_samples = 5

pub record ProviderHealth : Type 0 where
  pub breaker : BreakerState
  pub consecutive_failures : ℕ
  pub opened_at : ℕ
  pub probe_in_flight : Bool
  pub probe_started : ℕ
  pub cooldown_until : ℕ
  pub ewma : ℕ
  pub samples : ℕ

-- `&providerHealth{}`
abbrev pub fresh : ProviderHealth
fresh = record {
  breaker = closed;
  consecutive_failures = 0;
  opened_at = 0;
  probe_in_flight = false;
  probe_started = 0;
  cooldown_until = 0;
  ewma = 0;
  samples = 0;
}

-- `admitProbe`
unfoldable pub admit_probe : ProviderHealth → ℕ → ProviderHealth × Bool
admit_probe s now =
    if s.probe_in_flight && ltb now (s.probe_started + probe_stall_timeout)
    then (s, false)
    else (record s { probe_in_flight = true; probe_started = now }, true)

-- `cooldownFor`
unfoldable pub cooldown_for : ErrorClass → ℕ → ℕ
cooldown_for rate_limited retry_after =
    if ltb 0 retry_after then retry_after else default_rate_limit_cooldown
cooldown_for payment_required retry_after =
    if ltb payment_required_cooldown retry_after then retry_after else payment_required_cooldown
cooldown_for _ retry_after = 0

-- The switch of `Available` on the breaker.
breaker_admits : BreakerState → ℕ → ProviderHealth → ℕ → ProviderHealth × Bool
unfolding admit_probe
breaker_admits opened cooldown s now =
    if ltb now (s.opened_at + cooldown)
    then (s, false)
    else admit_probe (record s { breaker = half_open }) now
breaker_admits half_open cooldown s now = admit_probe s now
breaker_admits closed cooldown s now = (s, true)

-- `Available` on a provider that has an entry.
unfoldable pub entry_available : ℕ → ProviderHealth → ℕ → ProviderHealth × Bool
unfolding breaker_admits
entry_available cooldown s now =
    if ltb now s.cooldown_until then (s, false) else breaker_admits s.breaker cooldown s now

-- `observeLatency`. The moving average is float64 arithmetic, given as `average ttft ewma`.
unfoldable pub observe_latency : (ℕ → ℕ → ℕ) → ProviderHealth → ℕ → ProviderHealth
observe_latency average s ttft =
    let n = s.samples + 1 in
    if n == 1
    then record s { samples = n; ewma = ttft }
    else record s { samples = n; ewma = average ttft s.ewma }

-- `RecordSuccess` on an entry.
unfoldable pub entry_success : (ℕ → ℕ → ℕ) → ProviderHealth → ℕ → ProviderHealth
unfolding observe_latency
entry_success average s ttft =
    let s' = record s { breaker = closed; consecutive_failures = 0; probe_in_flight = false } in
    if ltb 0 ttft then observe_latency average s' ttft else s'

-- The pause that `RecordFailure` applies first: never shortened.
unfoldable pub apply_pause : ProviderHealth → ErrorClass → ℕ → ℕ → ProviderHealth
unfolding cooldown_for
apply_pause s class retry_after now =
    let pause = cooldown_for class retry_after in
    if ltb 0 pause && ltb s.cooldown_until (now + pause)
    then record s { cooldown_until = now + pause }
    else s

-- The switch of `RecordFailure` on the breaker, after the failure is counted.
breaker_failure : BreakerState → ℕ → ProviderHealth → ℕ → ProviderHealth
breaker_failure half_open threshold s now = record s {
  breaker = opened;
  opened_at = now;
  probe_in_flight = false;
}
breaker_failure opened threshold s now = s
breaker_failure closed threshold s now =
    if leb threshold s.consecutive_failures
    then record s { breaker = opened; opened_at = now }
    else s

-- `RecordFailure` on an entry.
unfoldable pub entry_failure : ℕ → ProviderHealth → ErrorClass → ℕ → ℕ → ProviderHealth
unfolding apply_pause breaker_failure counts_against_health
entry_failure threshold s class retry_after now =
    let s' = apply_pause s class retry_after now in
    if not (counts_against_health class)
    then s'
    else breaker_failure s'.breaker threshold
        (record s' { consecutive_failures = s'.consecutive_failures + 1 }) now

-- `Latency` on an entry.
unfoldable pub entry_latency : ProviderHealth → Option ℕ
entry_latency s = if ltb s.samples min_latency_samples then none else some s.ewma

-- The tracker. `average` is the float64 expression of `observeLatency`.
pub record Tracker : Type 0 where
  pub opts : Options
  pub average : ℕ → ℕ → ℕ
  pub state : String → Option ProviderHealth

-- `NewHealth`
unfoldable pub new_health : (ℕ → ℕ → ℕ) → Options → Tracker
unfolding with_defaults
new_health average opts = record { opts = with_defaults opts; average = average; state = λ _. none }

-- `at`: the clock's reading stands in for a zero time.
unfoldable pub at_time : ℕ → ℕ → ℕ
at_time clock now = if now == 0 then clock else now

abbrev pub or_fresh : Option ProviderHealth → ProviderHealth
or_fresh none = fresh
or_fresh (some s) = s

-- `get`
unfoldable pub get_entry : Tracker → String → ProviderHealth
get_entry t provider = or_fresh (t.state provider)

abbrev pub put_entry : Tracker → String → ProviderHealth → Tracker
put_entry t provider s = record t { state = update t.state provider s }

unfoldable pub available_entry : Option ProviderHealth → Tracker → String → ℕ → Tracker × Bool
available_entry none t provider now = (t, true)
available_entry (some s) t provider now =
    let (s', ok) = entry_available t.opts.breaker_cooldown s now in (put_entry t provider s', ok)

-- `Available`
unfoldable pub available : Tracker → String → ℕ → ℕ → Tracker × Bool
unfolding available_entry at_time
available t provider clock now = available_entry (t.state provider) t provider (at_time clock now)

-- `RecordSuccess`
unfoldable pub record_success : Tracker → String → ℕ → Tracker
unfolding get_entry
record_success t provider ttft =
    put_entry t provider (entry_success t.average (get_entry t provider) ttft)

-- `RecordFailure`
unfoldable pub record_failure : Tracker → String → ErrorClass → ℕ → ℕ → ℕ → Tracker
unfolding get_entry at_time
record_failure t provider class retry_after clock now = put_entry t provider (
    entry_failure t.opts.breaker_threshold (get_entry t provider) class retry_after
      (at_time clock now))

latency_entry : Option ProviderHealth → Option ℕ
latency_entry none = none
latency_entry (some s) = entry_latency s

-- `Latency`: `none` is (0, false).
unfoldable pub latency : Tracker → String → Option ℕ
unfolding latency_entry
latency t provider = latency_entry (t.state provider)
