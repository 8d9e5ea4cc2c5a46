-- ===== src/Router/Health/Probe.antt =====
-- The single probe of a half open breaker (internal/router/health.go, `admitProbe`).
use pen_stock.Base.{
  ℕ, ◌+◌, ◌<◌, ◌≡◌, ◌≢◌, true, false, Option, none, some, String, List, arith, All, update_self,
}
use pen_stock.Router.Policy.{counts_against_health}
use pen_stock.Router.Options.{Options}
use pen_stock.Router.Health.{
  ProviderHealth, closed, half_open, Tracker, available, entry_available, entry_success,
  entry_failure, available_entry, at_time, probe_stall_timeout,
}
use pen_stock.Router.Health.History.{Call, asks, succeeds, fails, run, entry_step, calls_of}
use pen_stock.Router.Health.Gates.{Holds, refused_after}

-- The probe. A call that leaves a probe outstanding until `d`: a question asked before `d`, or the
-- report of a failure that says nothing about the provider.
abbrev pub Waits : ℕ → Call → Type 0
Waits d (asks clock now) = at_time clock now < d
Waits d (succeeds ttft) = ⊥
Waits d (fails class retry_after clock now) = counts_against_health class ≡ false

abbrev ProbingUntil : ℕ → ProviderHealth → Type 0
ProbingUntil d s =
    (s.breaker ≡ half_open)
    × (s.probe_in_flight ≡ true)
    × (s.probe_started + probe_stall_timeout ≡ d)

probing-step :
    (opts : Options) (average : ℕ → ℕ → ℕ) (d : ℕ) (o : Option ProviderHealth) (c : Call)
    → Waits d c
    → Holds (ProbingUntil d) o
    → Holds (ProbingUntil d) (entry_step opts average o c)
unfolding entry_step entry_available entry_success entry_failure
probing-step opts average d none c u h = absurd h
probing-step opts average d (some s) (asks clock now) u h = ground arith
probing-step opts average d (some s) (succeeds ttft) u h = absurd u
probing-step opts average d (some s) (fails class retry_after clock now) u h = ground arith

probing-refuses :
    (cooldown d now : ℕ) (s : ProviderHealth)
    → now < d
    → ProbingUntil d s
    → (entry_available cooldown s now).1 ≡ false
unfolding entry_available
probing-refuses cooldown d now s h k = ground arith

entry_available-probe :
    (cooldown now : ℕ) (s : ProviderHealth)
    → s.breaker ≢ closed
    → (entry_available cooldown s now).1 ≡ true
    → ProbingUntil (now + probe_stall_timeout) (entry_available cooldown s now).0
unfolding entry_available
entry_available-probe cooldown now s b h = ground arith

available-probe :
    (t : Tracker) (p : String) (s : ProviderHealth) (clock now : ℕ)
    → t.state p ≡ some s
    → s.breaker ≢ closed
    → (available t p clock now).1 ≡ true
    → Holds
        (ProbingUntil (at_time clock now + probe_stall_timeout))
        ((available t p clock now).0.state p)
unfolding available available_entry
available-probe t p s clock now e b =
    rw (e, update_self t.state p)
      (entry_available-probe t.opts.breaker_cooldown (at_time clock now) s b)

-- Exactly one probe: once a provider whose breaker is not closed has been admitted, every other
-- caller is turned away for two minutes, until a success or a failure of that provider that counts
-- is reported; calls for other providers make no difference.
pub single_probe :
    (t : Tracker) (p : String) (s : ProviderHealth) (clock now : ℕ) (cs : List (String × Call))
    (clock' now' : ℕ)
    → t.state p ≡ some s
    → s.breaker ≢ closed
    → (available t p clock now).1 ≡ true
    → All (Waits (at_time clock now + probe_stall_timeout)) (calls_of p cs)
    → at_time clock' now' < at_time clock now + probe_stall_timeout
    → (available (run (available t p clock now).0 cs) p clock' now').1 ≡ false
single_probe t p s clock now cs clock' now' e b admitted q early =
    refused_after (ProbingUntil (at_time clock now + probe_stall_timeout))
      (Waits (at_time clock now + probe_stall_timeout)) (available t p clock now).0 p cs clock' now'
      (probing-step _ _ _) (λ s'. probing-refuses _ _ _ s' early) q
      (available-probe t p s clock now e b admitted)
