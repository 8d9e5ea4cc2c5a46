-- ===== src/Router/Health/Samples.antt =====
-- When a latency counts (internal/router/health.go, `Latency`).
use pen_stock.Base.{
  ℕ, suc, ◌+◌, ◌≡◌, refl, ◌∙◌, Bool, true, false, Option, none, some, String, List, [], ◌∷◌, arith,
  leb, ltb, if◌then◌else◌, ap,
}
use native.Mathlib.Nat.{zero-add}
use pen_stock.Router.Options.{Options, with_defaults}
use pen_stock.Router.Health.{
  ProviderHealth, new_health, latency, latency_entry, entry_latency, entry_available, entry_success,
  entry_failure, min_latency_samples,
}
use pen_stock.Router.Health.History.{
  Call, asks, succeeds, fails, run, entry_step, entry_run, calls_of, run-state,
}

-- Timed successes.
abbrev pub timed : List Call → ℕ
timed [] = 0
timed (asks clock now ∷ cs) = timed cs
timed (succeeds ttft ∷ cs) = let rest = timed cs in if ltb 0 ttft then suc rest else rest
timed (fails class retry_after clock now ∷ cs) = timed cs

abbrev samples_of : Option ProviderHealth → ℕ
samples_of none = 0
samples_of (some s) = s.samples

samples-step :
    (opts : Options) (average : ℕ → ℕ → ℕ) (o : Option ProviderHealth) (c : Call)
    → samples_of (entry_step opts average o c) ≡ samples_of o + timed (c ∷ [])
unfolding entry_step entry_available entry_success entry_failure
samples-step opts average none (asks clock now) = omega arith
samples-step opts average (some s) (asks clock now) = ground arith
samples-step opts average none (succeeds ttft) = ground arith
samples-step opts average (some s) (succeeds ttft) = ground arith
samples-step opts average none (fails class retry_after clock now) = ground arith
samples-step opts average (some s) (fails class retry_after clock now) = ground arith

timed-cons : (c : Call) (cs : List Call) → timed (c ∷ cs) ≡ timed (c ∷ []) + timed cs
timed-cons (asks clock now) cs = omega arith
timed-cons (succeeds ttft) cs = ground arith
timed-cons (fails class retry_after clock now) cs = omega arith

samples-run :
    (opts : Options) (average : ℕ → ℕ → ℕ) (o : Option ProviderHealth) (cs : List Call)
    → samples_of (entry_run opts average o cs) ≡ samples_of o + timed cs
unfolding entry_run
samples-run opts average o [] = omega arith
samples-run opts average o (c ∷ cs) = omega (
  arith,
  samples-run opts average (entry_step opts average o c) cs,
  samples-step opts average o c,
  timed-cons c cs,
)

abbrev pub is_some {ℓ} : {A : Type ℓ} → Option A → Bool
is_some none = false
is_some (some a) = true

latency-samples :
    (o : Option ProviderHealth) → is_some (latency_entry o) ≡ leb min_latency_samples (samples_of o)
unfolding latency_entry entry_latency
latency-samples none = refl
latency-samples (some s) = ground arith

-- A provider is ranked by latency exactly when at least five of its successes since the start
-- carried a timing, whatever else happened to it or to others.
pub latency_needs_samples :
    (average : ℕ → ℕ → ℕ) (opts : Options) (cs : List (String × Call)) (p : String)
    → is_some (latency (run (new_health average opts) cs) p)
      ≡ leb min_latency_samples (timed (calls_of p cs))
unfolding latency new_health
latency_needs_samples average opts cs p = rw (run-state (new_health average opts) cs p) (
    latency-samples (entry_run (with_defaults opts) average none (calls_of p cs))
    ∙ ap (leb min_latency_samples)
        (samples-run (with_defaults opts) average none (calls_of p cs) ∙ zero-add _))
