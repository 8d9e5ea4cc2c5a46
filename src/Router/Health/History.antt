-- ===== src/Router/Health/History.antt =====
-- Histories of calls on the health tracker (internal/router/health.go), and what holds of every
-- entry after any of them.
use pen_stock.Base.{
  ℕ, ◌<◌, ◌≡◌, refl, ◌∙◌, Bool, true, Option, none, some, String, List, [], ◌∷◌, arith,
  if◌then◌else◌, Bool-cases, Option-cases, inl, inr, same, same→eq,
}
use pen_stock.Providers.Errors.{ErrorClass}
use pen_stock.Router.Options.{Options, with_defaults}
use mathlib.Core.Option
use pen_stock.Router.Health.{
  at_time, or_fresh, available_entry, ProviderHealth, fresh, closed, half_open, Tracker, new_health,
  get_entry, available, record_success, record_failure, entry_available, entry_success,
  entry_failure,
}

-- One call by name: the clock's reading and the caller's `now` where the method takes them.
pub data Call : Type 0 where
  asks : ℕ → ℕ → Call
  succeeds : ℕ → Call
  fails : ErrorClass → ℕ → ℕ → ℕ → Call

unfoldable pub step : Tracker → String → Call → Tracker
step t p (asks clock now) = (available t p clock now).0
step t p (succeeds ttft) = record_success t p ttft
step t p (fails class retry_after clock now) = record_failure t p class retry_after clock now

unfoldable pub run : Tracker → List (String × Call) → Tracker
run t [] = t
run t ((p, c) ∷ cs) = run (step t p c) cs

-- What holds of an entry between calls: a probe is in flight exactly in the half open state, and a
-- closed breaker has not reached the threshold.
pub record IsSound (threshold : ℕ) (s : ProviderHealth) : Type 0 where
  pub probing : s.breaker ≡ half_open → s.probe_in_flight ≡ true
  pub idle : s.probe_in_flight ≡ true → s.breaker ≡ half_open
  pub streak : s.breaker ≡ closed → s.consecutive_failures < threshold

fresh-IsSound : (k : ℕ) → 0 < k → IsSound k fresh
fresh-IsSound k h = ground arith

entry_available-IsSound :
    (k cooldown now : ℕ) (s : ProviderHealth)
    → IsSound k s
    → IsSound k (entry_available cooldown s now).0
unfolding entry_available
entry_available-IsSound k cooldown now s h = ground arith

entry_success-IsSound :
    (average : ℕ → ℕ → ℕ) (k ttft : ℕ) (s : ProviderHealth)
    → 0 < k
    → IsSound k (entry_success average s ttft)
unfolding entry_success
entry_success-IsSound average k ttft s h = ground arith

entry_failure-IsSound :
    (k : ℕ) (s : ProviderHealth) (class : ErrorClass) (retry_after now : ℕ)
    → IsSound k s
    → IsSound k (entry_failure k s class retry_after now)
unfolding entry_failure
entry_failure-IsSound k s class retry_after now h = ground arith

-- What one call does to the entry it names, under the tracker's options and average.
unfoldable pub entry_step :
    Options → (ℕ → ℕ → ℕ) → Option ProviderHealth → Call → Option ProviderHealth
entry_step opts average o (asks clock now) =
    Option.map (λ s. (entry_available opts.breaker_cooldown s (at_time clock now)).0) o
entry_step opts average o (succeeds ttft) = some (entry_success average (or_fresh o) ttft)
entry_step opts average o (fails class retry_after clock now) =
    some (entry_failure opts.breaker_threshold (or_fresh o) class retry_after (at_time clock now))

unfoldable pub entry_run :
    Options → (ℕ → ℕ → ℕ) → Option ProviderHealth → List Call → Option ProviderHealth
entry_run opts average o [] = o
entry_run opts average o (c ∷ cs) = entry_run opts average (entry_step opts average o c) cs

-- The calls of a history that name one provider.
unfoldable pub calls_of : String → List (String × Call) → List Call
calls_of q [] = []
calls_of q ((p, c) ∷ cs) = let rest = calls_of q cs in if same p q then c ∷ rest else rest

available_entry-state :
    (t : Tracker) (p q : String) (now : ℕ) (o : Option ProviderHealth)
    → t.state p ≡ o
    → (available_entry o t p now).0.state q ≡ (
        if same p q
        then Option.map (λ s. (entry_available t.opts.breaker_cooldown s now).0) (t.state q)
        else t.state q)
unfolding available_entry
available_entry-state t p q now none h = elim (Bool-cases (same p q)) [
  | inl e ↦ rw (e, ← same→eq p q e, h) refl
  | inr e ↦ rw e refl
]
available_entry-state t p q now (some s) h = elim (Bool-cases (same p q)) [
  | inl e ↦ rw (e, ← same→eq p q e, h) refl
  | inr e ↦ rw e refl
]

-- A call changes the entry of the provider that it names, by `entry_step`, and no other.
pub state-step :
    (t : Tracker) (p q : String) (c : Call)
    → (step t p c).state q
      ≡ (if same p q then entry_step t.opts t.average (t.state q) c else t.state q)
unfolding step entry_step available record_success record_failure get_entry
state-step t p q (asks clock now) = available_entry-state t p q (at_time clock now) (t.state p) refl
state-step t p q (succeeds ttft) = elim (Bool-cases (same p q)) [
  | inl e ↦ rw (e, same→eq p q e) refl
  | inr e ↦ rw e refl
]
state-step t p q (fails class retry_after clock now) = elim (Bool-cases (same p q)) [
  | inl e ↦ rw (e, same→eq p q e) refl
  | inr e ↦ rw e refl
]

available_entry-opts :
    (t : Tracker) (p : String) (now : ℕ) (o : Option ProviderHealth)
    → ((available_entry o t p now).0.opts ≡ t.opts)
      × ((available_entry o t p now).0.average ≡ t.average)
unfolding available_entry
available_entry-opts t p now none = (refl, refl)
available_entry-opts t p now (some s) = (refl, refl)

pub step-opts :
    (t : Tracker) (p : String) (c : Call)
    → ((step t p c).opts ≡ t.opts) × ((step t p c).average ≡ t.average)
unfolding step available record_success record_failure
step-opts t p (asks clock now) = available_entry-opts t p (at_time clock now) (t.state p)
step-opts t p (succeeds ttft) = (refl, refl)
step-opts t p (fails class retry_after clock now) = (refl, refl)

pub run-opts :
    (t : Tracker) (cs : List (String × Call))
    → ((run t cs).opts ≡ t.opts) × ((run t cs).average ≡ t.average)
unfolding run
run-opts t [] = (refl, refl)
run-opts t ((p, c) ∷ cs) =
    let rest = run-opts (step t p c) cs in
    let here = step-opts t p c in (rest.0 ∙ here.0, rest.1 ∙ here.1)

-- Providers are independent: after any history, a provider's entry is what its own calls, in their
-- order, make of the entry it had; calls that name other providers have no effect on it.
pub run-state :
    (t : Tracker) (cs : List (String × Call)) (q : String)
    → (run t cs).state q ≡ entry_run t.opts t.average (t.state q) (calls_of q cs)
unfolding run entry_run calls_of
run-state t [] q = refl
run-state t ((p, c) ∷ cs) q = elim (Bool-cases (same p q)) [
  | inl e ↦
      rw
        (
          e,
          run-state (step t p c) cs q,
          (step-opts t p c).0,
          (step-opts t p c).1,
          state-step t p q c,
          e,
        )
        refl
  | inr e ↦
      rw
        (
          e,
          run-state (step t p c) cs q,
          (step-opts t p c).0,
          (step-opts t p c).1,
          state-step t p q c,
          e,
        )
        refl
]

-- `IsSound` of an entry that may be missing.
abbrev pub SoundEntry : ℕ → Option ProviderHealth → Type 0
SoundEntry k none = Unit {0}
SoundEntry k (some s) = IsSound k s

or_fresh-IsSound :
    (k : ℕ) (o : Option ProviderHealth) → 0 < k → SoundEntry k o → IsSound k (or_fresh o)
or_fresh-IsSound k none h v = fresh-IsSound k h
or_fresh-IsSound k (some s) h v = v

entry_step_sound :
    (opts : Options) (average : ℕ → ℕ → ℕ) (o : Option ProviderHealth) (c : Call)
    → 0 < opts.breaker_threshold
    → SoundEntry opts.breaker_threshold o
    → SoundEntry opts.breaker_threshold (entry_step opts average o c)
unfolding entry_step
entry_step_sound opts average none (asks clock now) h v = tt
entry_step_sound opts average (some s) (asks clock now) h v =
    entry_available-IsSound opts.breaker_threshold opts.breaker_cooldown (at_time clock now) s v
entry_step_sound opts average o (succeeds ttft) h v =
    entry_success-IsSound average opts.breaker_threshold ttft (or_fresh o) h
entry_step_sound opts average o (fails class retry_after clock now) h v =
    entry_failure-IsSound opts.breaker_threshold (or_fresh o) class retry_after (at_time clock now)
      (or_fresh-IsSound _ o h v)

entry_run_sound :
    (opts : Options) (average : ℕ → ℕ → ℕ) (o : Option ProviderHealth) (cs : List Call)
    → 0 < opts.breaker_threshold
    → SoundEntry opts.breaker_threshold o
    → SoundEntry opts.breaker_threshold (entry_run opts average o cs)
unfolding entry_run
entry_run_sound opts average o [] h v = v
entry_run_sound opts average o (c ∷ cs) h v =
    entry_run_sound opts average (entry_step opts average o c) cs h
      (entry_step_sound opts average o c h v)

with_defaults-threshold : (opts : Options) → 0 < (with_defaults opts).breaker_threshold
unfolding with_defaults
with_defaults-threshold opts = ground arith

-- After any history of a new tracker, whatever its options, every provider's entry is sound: a
-- probe is in flight exactly while the breaker is half open, and a closed breaker's failure streak
-- is below the threshold in force.
pub run-new_health-IsSound :
    (average : ℕ → ℕ → ℕ) (opts : Options) (cs : List (String × Call)) (q : String)
    → SoundEntry (with_defaults opts).breaker_threshold ((run (new_health average opts) cs).state q)
unfolding new_health
run-new_health-IsSound average opts cs q = rw (run-state (new_health average opts) cs q) (
    entry_run_sound (with_defaults opts) average none (calls_of q cs) (with_defaults-threshold opts)
      tt)

-- What `Available` answers, as a function of the entry alone.
abbrev pub answer : ℕ → Option ProviderHealth → ℕ → Bool
answer cooldown none now = true
answer cooldown (some s) now = (entry_available cooldown s now).1

pub available-answer :
    (t : Tracker) (p : String) (clock now : ℕ)
    → (available t p clock now).1 ≡ answer t.opts.breaker_cooldown (t.state p) (at_time clock now)
unfolding available available_entry
available-answer t p clock now = elim (Option-cases (t.state p)) [
  | inl e ↦ rw e refl
  | inr (s, e) ↦ rw e refl
]
