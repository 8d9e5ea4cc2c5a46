-- ===== src/Router/Health/Tripping.antt =====
-- How a breaker trips (internal/router/health.go, `RecordFailure` and `RecordSuccess`).
use pen_stock.Base.{
  ℕ, suc, ◌+◌, ◌<◌, ◌≡◌, refl, ◌∙◌, true, Option, none, some, String, List, [], ◌∷◌, arith, All,
  ltb, if◌then◌else◌, Bool, false, sym, subst, update_self,
}
use native.Mathlib.Nat.{zero-add, add-zero}
use pen_stock.Providers.Errors.{ErrorClass}
use pen_stock.Router.Policy.{counts_against_health}
use pen_stock.Router.Options.{Options}
use pen_stock.Router.Health.{
  half_open, entry_available, record_success, BreakerState, ProviderHealth, closed, opened, Tracker,
  get_entry, entry_success, entry_failure, at_time, or_fresh,
}
use pen_stock.Router.Health.History.{
  Call, asks, succeeds, fails, run, entry_step, entry_run, calls_of, run-state,
}

abbrev pub IsNoSuccess : Call → Type 0
IsNoSuccess (asks clock now) = Unit {0}
IsNoSuccess (succeeds ttft) = ⊥
IsNoSuccess (fails class retry_after clock now) = Unit {0}

-- How many failures that count against a provider's health are among some calls.
abbrev pub failures : List Call → ℕ
failures [] = 0
failures (asks clock now ∷ cs) = failures cs
failures (succeeds ttft ∷ cs) = failures cs
failures (fails class retry_after clock now ∷ cs) =
    let rest = failures cs in if counts_against_health class then suc rest else rest

abbrev pub is_closed : BreakerState → Bool
is_closed closed = true
is_closed opened = false
is_closed half_open = false

-- An entry after `n` failures since the last success.
abbrev Streak : ℕ → ℕ → Option ProviderHealth → Type 0
Streak k n none = n ≡ 0
Streak k n (some s) = (s.consecutive_failures ≡ n) × (is_closed s.breaker ≡ ltb n k)

Streak-fresh :
    (k n : ℕ) (o : Option ProviderHealth) → 0 < k → Streak k n o → Streak k n (some (or_fresh o))
Streak-fresh k n none h v = (sym v, ground arith)
Streak-fresh k n (some s) h v = v

entry_failure-Streak :
    (k n : ℕ) (s : ProviderHealth) (class : ErrorClass) (retry_after now : ℕ)
    → Streak k n (some s)
    → Streak k
        (if counts_against_health class then suc n else n)
        (some (entry_failure k s class retry_after now))
unfolding entry_failure
entry_failure-Streak k n s class retry_after now v = ground arith

entry_available-Streak :
    (k n cooldown now : ℕ) (s : ProviderHealth)
    → Streak k n (some s)
    → Streak k n (some (entry_available cooldown s now).0)
unfolding entry_available
entry_available-Streak k n cooldown now s v = ground arith

counted_first :
    (counts : Bool) (n rest : ℕ)
    → (if counts then suc n else n) + rest ≡ n + (if counts then suc rest else rest)
counted_first true n rest = omega arith
counted_first false n rest = refl

Streak-run :
    (opts : Options) (average : ℕ → ℕ → ℕ) (cs : List Call) (n : ℕ) (o : Option ProviderHealth)
    → 0 < opts.breaker_threshold
    → All IsNoSuccess cs
    → Streak opts.breaker_threshold n o
    → Streak opts.breaker_threshold (n + failures cs) (entry_run opts average o cs)
unfolding entry_run entry_step
Streak-run opts average [] n o h q v = rw add-zero v
Streak-run opts average (asks clock now ∷ cs) n none h q v =
    Streak-run opts average cs n none h q.1 v
Streak-run opts average (asks clock now ∷ cs) n (some s) h q v =
    Streak-run opts average cs n _ h q.1
      (entry_available-Streak _ n opts.breaker_cooldown (at_time clock now) s v)
Streak-run opts average (succeeds ttft ∷ cs) n o h q v = absurd q.0
Streak-run opts average (fails class retry_after clock now ∷ cs) n o h q v =
    rw (← counted_first (counts_against_health class) n (failures cs)) (
      Streak-run opts average cs _ _ h q.1 (
        entry_failure-Streak opts.breaker_threshold n (or_fresh o) class retry_after
          (at_time clock now) (Streak-fresh _ n o h v)))

entry_success-Streak :
    (average : ℕ → ℕ → ℕ) (k ttft : ℕ) (s : ProviderHealth)
    → 0 < k
    → Streak k 0 (some (entry_success average s ttft))
unfolding entry_success
entry_success-Streak average k ttft s h = ground arith

-- A breaker trips on a run of failures and on nothing shorter: whatever questions were asked and
-- failures reported since the last success of a provider, whatever happened before, and whatever was
-- called for other providers, its breaker is closed exactly while the failures since that success that
-- count against its health are fewer than the threshold, and is open or half open from then on until
-- it succeeds.
pub breaker_trips :
    (t : Tracker) (p : String) (ttft : ℕ) (cs : List (String × Call)) (s : ProviderHealth)
    → 0 < t.opts.breaker_threshold
    → All IsNoSuccess (calls_of p cs)
    → (run (record_success t p ttft) cs).state p ≡ some s
    → (s.consecutive_failures ≡ failures (calls_of p cs))
      × (is_closed s.breaker ≡ ltb (failures (calls_of p cs)) t.opts.breaker_threshold)
unfolding record_success
breaker_trips t p ttft cs s h q e =
    subst (Streak t.opts.breaker_threshold (failures (calls_of p cs)))
      (sym (run-state (record_success t p ttft) cs p) ∙ e)
      (rw (← zero-add (failures (calls_of p cs))) (
        Streak-run t.opts t.average (calls_of p cs) 0 _ h q (
          rw (update_self t.state p)
            (entry_success-Streak t.average t.opts.breaker_threshold ttft (get_entry t p) h))))
