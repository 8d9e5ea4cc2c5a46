-- ===== src/Router/Health/Recovery.antt =====
-- What cannot shut a provider out, and how one comes back (internal/router/health.go).
use pen_stock.Base.{
  ℕ, ◌+◌, ◌≤◌, ◌≡◌, ◌⊎◌, refl, ◌∙◌, true, false, Option, none, some, String, List, arith, inl, inr,
  Bool-cases, same, same→eq, ap,
}
use pen_stock.Providers.Errors.{ErrorClass}
use pen_stock.Router.Policy.{counts_against_health}
use pen_stock.Router.Health.{
  ProviderHealth, fresh, Tracker, get_entry, available, record_failure, latency, latency_entry,
  entry_latency, entry_available, entry_failure, at_time, or_fresh, probe_stall_timeout,
}
use pen_stock.Router.Health.History.{Call, run, answer, available-answer}

-- What a caller's own fault can do.
entry_failure-harmless :
    (k cooldown : ℕ) (s : ProviderHealth) (class : ErrorClass) (retry_after now : ℕ)
    → counts_against_health class ≡ false
    → entry_failure k s class retry_after now ≡ s
unfolding entry_failure
entry_failure-harmless k cooldown s class retry_after now h = ground arith

fresh_available : (cooldown now : ℕ) → (entry_available cooldown fresh now).1 ≡ true
unfolding entry_available
fresh_available cooldown now = ground arith

or_fresh-answer :
    (cooldown now : ℕ) (o : Option ProviderHealth)
    → (answer cooldown (some (or_fresh o)) now ≡ answer cooldown o now)
      × (latency_entry (some (or_fresh o)) ≡ latency_entry o)
unfolding latency_entry entry_latency
or_fresh-answer cooldown now none = (fresh_available cooldown now, refl)
or_fresh-answer cooldown now (some s) = (refl, refl)

record_failure-state :
    (t : Tracker) (p q : String) (class : ErrorClass) (retry_after clock now : ℕ)
    → counts_against_health class ≡ false
    → ((record_failure t p class retry_after clock now).state q ≡ t.state q)
      ⊎ ((record_failure t p class retry_after clock now).state q ≡ some (or_fresh (t.state q)))
unfolding record_failure get_entry
record_failure-state t p q class retry_after clock now h = elim (Bool-cases (same p q)) [
  | inr e ↦ inl (rw e refl)
  | inl e ↦ inr (rw (e, ← same→eq p q e, entry_failure-harmless _ 0 _ class retry_after _ h) refl)
]

record_failure-opts :
    (t : Tracker) (p : String) (class : ErrorClass) (retry_after clock now : ℕ)
    → (record_failure t p class retry_after clock now).opts ≡ t.opts
unfolding record_failure
record_failure-opts t p class retry_after clock now = refl

-- A failure that says something about the request (an invalid request, a canceled call, a missing
-- model) changes no answer of the tracker: every provider is as available as before at every time,
-- and its latency reads the same.
pub harmless_failure :
    (t : Tracker) (p q : String) (class : ErrorClass) (retry_after clock now clock' now' : ℕ)
    → counts_against_health class ≡ false
    → ((available (record_failure t p class retry_after clock now) q clock' now').1
        ≡ (available t q clock' now').1)
      × (latency (record_failure t p class retry_after clock now) q ≡ latency t q)
unfolding latency
harmless_failure t p q class retry_after clock now clock' now' h =
    elim (record_failure-state t p q class retry_after clock now h) [
      | inl e ↦ (
        rw
            (
              available-answer t q,
              available-answer (record_failure t p class retry_after clock now) q,
              record_failure-opts t p class retry_after clock now,
              e,
            )
            refl,
        ap latency_entry e,
      )
      | inr e ↦
          let same_answers =
            or_fresh-answer t.opts.breaker_cooldown (at_time clock' now') (t.state q) in
          (
            rw
                (
                  available-answer t q,
                  available-answer (record_failure t p class retry_after clock now) q,
                  record_failure-opts t p class retry_after clock now,
                  e,
                )
                same_answers.0,
            ap latency_entry e ∙ same_answers.1,
          )
    ]

-- When every window of an entry is over.
abbrev pub ready_at : ℕ → Option ProviderHealth → ℕ
ready_at cooldown none = 0
ready_at cooldown (some s) =
    s.cooldown_until + (s.opened_at + cooldown) + (s.probe_started + probe_stall_timeout)

ready_at-answer :
    (cooldown now : ℕ) (o : Option ProviderHealth)
    → ready_at cooldown o ≤ now
    → answer cooldown o now ≡ true
unfolding entry_available
ready_at-answer cooldown now none h = refl
ready_at-answer cooldown now (some s) h = ground arith

-- No provider is shut out for good: after any history there is a time from which on the next
-- question about the provider is answered yes, with no report of any kind needed.
pub provider_returns :
    (t : Tracker) (p : String) (cs : List (String × Call))
    → (ready : ℕ) × ((clock now : ℕ)
        → ready ≤ at_time clock now
        → (available (run t cs) p clock now).1 ≡ true)
provider_returns t p cs = (
  ready_at (run t cs).opts.breaker_cooldown ((run t cs).state p),
  λ clock now h.
      rw (available-answer (run t cs) p clock now) (
        ready_at-answer (run t cs).opts.breaker_cooldown (at_time clock now) ((run t cs).state p)
          h),
)
