-- ===== src/Router/Health/Gates.antt =====
-- When the tracker turns callers away (internal/router/health.go): a pause that the provider asked
-- for, and an open breaker, each over every history of calls.
use pen_stock.Base.{
  ℕ, ◌+◌, ◌<◌, ◌≤◌, ◌≡◌, refl, false, Option, none, some, String, List, [], ◌∷◌, arith, All,
  update_self, subst, Option-cases, inl, inr,
}
use pen_stock.Providers.Errors.{ErrorClass}
use pen_stock.Router.Options.{Options}
use pen_stock.Router.Health.{
  ProviderHealth, opened, Tracker, get_entry, available, record_failure, entry_available,
  entry_success, entry_failure, available_entry, at_time, cooldown_for,
}
use pen_stock.Router.Health.History.{
  Call, asks, succeeds, fails, run, entry_step, entry_run, calls_of, run-state, run-opts,
}

-- The induction over a history: what each allowed call keeps, the history keeps.
entry_run-keeps :
    (opts : Options) (average : ℕ → ℕ → ℕ) (P : Option ProviderHealth → Type 0) (Q : Call → Type 0)
    → ((o : Option ProviderHealth) (c : Call) → Q c → P o → P (entry_step opts average o c))
    → (cs : List Call) (o : Option ProviderHealth) → All Q cs
    → P o
    → P (entry_run opts average o cs)
unfolding entry_run
entry_run-keeps opts average P Q keep [] o q h = h
entry_run-keeps opts average P Q keep (c ∷ cs) o q h =
    entry_run-keeps opts average P Q keep cs (entry_step opts average o c) q.1 (keep o c q.0 h)

All-unit : (cs : List Call) → All (λ _. Unit {0}) cs
All-unit [] = tt
All-unit (c ∷ cs) = (tt, All-unit cs)

-- An entry is there, and `P` holds of it.
abbrev pub Holds : (ProviderHealth → Type 0) → Option ProviderHealth → Type 0
Holds P none = ⊥
Holds P (some s) = P s

-- A provider whose entry turns callers away is not available.
refused :
    (P : ProviderHealth → Type 0) (t : Tracker) (p : String) (clock now : ℕ)
    → ((s : ProviderHealth)
        → P s
        → (entry_available t.opts.breaker_cooldown s (at_time clock now)).1 ≡ false)
    → Holds P (t.state p)
    → (available t p clock now).1 ≡ false
unfolding available available_entry
refused P t p clock now turn h = elim (Option-cases (t.state p)) [
  | inl e ↦ absurd (subst (Holds P) e h)
  | inr (s, e) ↦ rw e (turn s (subst (Holds P) e h))
]

-- The same after a history of calls, of which those that name the provider satisfy `Q`.
pub refused_after :
    (P : ProviderHealth → Type 0) (Q : Call → Type 0) (t : Tracker) (p : String)
    (cs : List (String × Call)) (clock now : ℕ)
    → ((o : Option ProviderHealth) (c : Call)
        → Q c
        → Holds P o
        → Holds P (entry_step t.opts t.average o c))
    → ((s : ProviderHealth)
        → P s
        → (entry_available t.opts.breaker_cooldown s (at_time clock now)).1 ≡ false)
    → All Q (calls_of p cs)
    → Holds P (t.state p)
    → (available (run t cs) p clock now).1 ≡ false
refused_after P Q t p cs clock now keep turn q h =
    refused P (run t cs) p clock now (rw ((run-opts t cs).0) turn) (
      rw (run-state t cs p)
        (entry_run-keeps t.opts t.average (Holds P) Q keep (calls_of p cs) (t.state p) q h))

-- The pause.
abbrev PausedUntil : ℕ → ProviderHealth → Type 0
PausedUntil d s = d ≤ s.cooldown_until

paused-step :
    (opts : Options) (average : ℕ → ℕ → ℕ) (d : ℕ) (o : Option ProviderHealth) (c : Call)
    → Unit {0}
    → Holds (PausedUntil d) o
    → Holds (PausedUntil d) (entry_step opts average o c)
unfolding entry_step entry_available entry_success entry_failure
paused-step opts average d none c u h = absurd h
paused-step opts average d (some s) (asks clock now) u h = ground arith
paused-step opts average d (some s) (succeeds ttft) u h = ground arith
paused-step opts average d (some s) (fails class retry_after clock now) u h = ground arith

paused-refuses :
    (cooldown d now : ℕ) (s : ProviderHealth)
    → now < d
    → PausedUntil d s
    → (entry_available cooldown s now).1 ≡ false
unfolding entry_available
paused-refuses cooldown d now s h k = ground arith

entry_failure-pause :
    (threshold : ℕ) (s : ProviderHealth) (class : ErrorClass) (retry_after now : ℕ)
    → 0 < cooldown_for class retry_after
    → PausedUntil
        (now + cooldown_for class retry_after)
        (entry_failure threshold s class retry_after now)
unfolding entry_failure
entry_failure-pause threshold s class retry_after now h = ground arith

-- A failure whose class asks for a pause (429 and 402) keeps its provider out of the chain for the
-- whole pause, whatever the tracker sees meanwhile, successes of the same provider and shorter
-- pauses included.
pub pause_holds :
    (t : Tracker) (p : String) (class : ErrorClass) (retry_after clock now : ℕ)
    (cs : List (String × Call)) (clock' now' : ℕ)
    → 0 < cooldown_for class retry_after
    → at_time clock' now' < at_time clock now + cooldown_for class retry_after
    → (available (run (record_failure t p class retry_after clock now) cs) p clock' now').1 ≡ false
unfolding record_failure
pause_holds t p class retry_after clock now cs clock' now' pos early =
    refused_after (PausedUntil (at_time clock now + cooldown_for class retry_after)) (λ _. Unit {0})
      (record_failure t p class retry_after clock now) p cs clock' now' (paused-step _ _ _)
      (λ s. paused-refuses _ _ _ s early) (All-unit (calls_of p cs))
      (rw (update_self t.state p) (entry_failure-pause _ (get_entry t p) class retry_after _ pos))

-- The open breaker. A call that can come before `d` without ending the outage: a question asked
-- before `d`, or any failure report.
abbrev pub Straggles : ℕ → Call → Type 0
Straggles d (asks clock now) = at_time clock now < d
Straggles d (succeeds ttft) = ⊥
Straggles d (fails class retry_after clock now) = Unit {0}

abbrev OpenedAt : ℕ → ProviderHealth → Type 0
OpenedAt start s = (s.breaker ≡ opened) × (s.opened_at ≡ start)

opened-step :
    (opts : Options) (average : ℕ → ℕ → ℕ) (start : ℕ) (o : Option ProviderHealth) (c : Call)
    → Straggles (start + opts.breaker_cooldown) c
    → Holds (OpenedAt start) o
    → Holds (OpenedAt start) (entry_step opts average o c)
unfolding entry_step entry_available entry_success entry_failure
opened-step opts average start none c u h = absurd h
opened-step opts average start (some s) (asks clock now) u h = ground arith
opened-step opts average start (some s) (succeeds ttft) u h = absurd u
opened-step opts average start (some s) (fails class retry_after clock now) u h = ground arith

opened-refuses :
    (cooldown start now : ℕ) (s : ProviderHealth)
    → now < start + cooldown
    → OpenedAt start s
    → (entry_available cooldown s now).1 ≡ false
unfolding entry_available
opened-refuses cooldown start now s h k = ground arith

-- An open breaker sheds every request until its cooldown is over, counted from when it opened:
-- questions and late failure reports, of any provider and in any order, neither let a request
-- through nor move the time at which the cooldown ends. (Only a success of that provider could.)
pub open_breaker_sheds :
    (t : Tracker) (p : String) (s : ProviderHealth) (cs : List (String × Call)) (clock now : ℕ)
    → t.state p ≡ some s
    → s.breaker ≡ opened
    → All (Straggles (s.opened_at + t.opts.breaker_cooldown)) (calls_of p cs)
    → at_time clock now < s.opened_at + t.opts.breaker_cooldown
    → ((available (run t cs) p clock now).1 ≡ false)
      × Holds (λ s'. (s'.breaker ≡ opened) × (s'.opened_at ≡ s.opened_at)) ((run t cs).state p)
open_breaker_sheds t p s cs clock now e b q early = (
  refused_after (OpenedAt s.opened_at) (Straggles (s.opened_at + t.opts.breaker_cooldown)) t p cs
      clock now (opened-step _ _ _) (λ s'. opened-refuses _ _ _ s' early) q (rw e (b, refl)),
  rw (run-state t cs p) (
      entry_run-keeps t.opts t.average (Holds (OpenedAt s.opened_at))
        (Straggles (s.opened_at + t.opts.breaker_cooldown)) (opened-step _ _ _) (calls_of p cs)
        (t.state p) q (rw e (b, refl))),
)
