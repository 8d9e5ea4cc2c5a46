-- ===== src/Router/Chain/Totality.antt =====
-- The attempt loops end, within the attempts allowed (internal/router/orchestrator.go).
use pen_stock.Base.{
  ℕ, zero, suc, ◌+◌, ◌<◌, ◌≤◌, ◌≡◌, refl, ◌∙◌, Option, none, some, String, List, [], ◌∷◌, arith,
  length, length-append, Bool-cases, inl, inr,
}
use pen_stock.Providers.Errors.{GoError}
use pen_stock.Router.Health.{Tracker}
use pen_stock.Router.Chain.{
  Router, Reply, Env, ChainState, failed_state, success_state, sleep, try_provider, walk, contains,
  continue_with,
}
use pen_stock.Router.Chain.Cases.{
  RoundCase, used_up, hung_up, succeeded, gave_up, moved_on, repeated, round-case,
}

-- From one state of the loops to a later one: calls are only added, each with its attempt, and
-- never past the number allowed.
pub record Progress (limit : ℕ) (s s' : ChainState) : Type 0 where
  pub grows : s.used ≤ s'.used
  pub capped : s.used ≤ limit → s'.used ≤ limit
  pub counted : length s'.attempts + s.used ≡ length s.attempts + s'.used

pub Progress-refl : (limit : ℕ) (s : ChainState) → Progress limit s s
Progress-refl limit s = omega arith

pub Progress-trans :
    (limit : ℕ) (s t u : ChainState) → Progress limit s t → Progress limit t u → Progress limit s u
Progress-trans limit s t u h k = omega arith

module _ {A : Type 0} (env : Env A) (on_success : Tracker → String → ℕ → Tracker) (r : Router) where
  failed-Progress :
      (p : String) (e : GoError) (s : ChainState)
      → s.used < r.opts.max_attempts
      → Progress r.opts.max_attempts s (failed_state env on_success r p e s)
  unfolding failed_state
  failed-Progress p e s h = omega (arith, length-append {0} s.attempts)

  success-Progress :
      (p : String) (s : ChainState)
      → s.used < r.opts.max_attempts
      → Progress r.opts.max_attempts s (success_state env on_success r p s)
  unfolding success_state
  success-Progress p s h = omega (arith, length-append {0} s.attempts)

  sleep-Progress : (s : ChainState) → Progress r.opts.max_attempts s (sleep env on_success r s)
  unfolding sleep
  sleep-Progress s = omega arith

  pub again-used :
      (p : String) (e : GoError) (s : ChainState)
      → (sleep env on_success r (failed_state env on_success r p e s)).used ≡ s.used + 1
  unfolding sleep failed_state
  again-used p e s = refl

  -- A result is there, and the state has come on.
  abbrev pub Ends {ℓ} : {B : Type ℓ} → ChainState → Option (ChainState × B) → Type ℓ
  Ends {B} s out =
      (s' : ChainState) × (b : B) × (out ≡ some (s', b)) × Progress r.opts.max_attempts s s'

  pub try-total :
      (fuel reserved : ℕ) (p : String) (s : ChainState)
      → r.opts.max_attempts < fuel + s.used
      → 0 < fuel
      → Ends s (try_provider env on_success r fuel reserved p s)
  unfolding try_provider
  try-total zero reserved p s h z = absurd (omega arith)
  try-total (suc fuel) reserved p s h z =
      go (try-total fuel reserved p)
        (round-case env on_success r reserved p (try_provider env on_success r fuel reserved p) s)
    where
      go :
          {out : Option (ChainState × Option (Reply A))}
          → ((s' : ChainState)
              → r.opts.max_attempts < fuel + s'.used
              → 0 < fuel
              → Ends s' (try_provider env on_success r fuel reserved p s'))
          → RoundCase env on_success r reserved p
              (try_provider env on_success r fuel reserved p)
              s
              out
          → Ends s out
      go ih (used_up k e) = (s, _, e, Progress-refl r.opts.max_attempts s)
      go ih (hung_up c k e) = (s, _, e, Progress-refl r.opts.max_attempts s)
      go ih (succeeded a k l e) = (success_state env on_success r p s, _, e, success-Progress p s k)
      go ih (gave_up x k l d e) =
          (failed_state env on_success r p x s, _, e, failed-Progress p x s k)
      go ih (moved_on x k l d e) =
          (failed_state env on_success r p x s, _, e, failed-Progress p x s k)
      go ih (repeated x k l d m e) =
          let next = sleep env on_success r (failed_state env on_success r p x s) in
          let step =
            Progress-trans r.opts.max_attempts s (failed_state env on_success r p x s) next
              (failed-Progress p x s k) (sleep-Progress (failed_state env on_success r p x s)) in
          let (s', o, e', more) = ih next (omega (arith, again-used p x s)) (omega arith) in
          (s', o, e ∙ e', Progress-trans r.opts.max_attempts s next s' step more)

  pub walk-total :
      (fuel : ℕ) (order : List String) (s : ChainState)
      → r.opts.max_attempts < fuel
      → Ends s (walk env on_success r fuel order s)
  unfolding walk
  walk-total fuel [] s h = (s, _, refl, Progress-refl r.opts.max_attempts s)
  walk-total fuel (p ∷ rest) s h = elim (Bool-cases (contains p r.names)) [
    | inr absent ↦ rw (absent, walk) (walk-total fuel rest s h)
    | inl known ↦
        rw (known, walk)
          (go (walk-total fuel rest) (try-total fuel (length rest) p s (omega arith) (omega arith)))
  ]
    where
      go :
          {out : Option (ChainState × Option (Reply A))}
          → ((s' : ChainState)
              → r.opts.max_attempts < fuel
              → Ends s' (walk env on_success r fuel rest s'))
          → Ends s out
          → Ends s (continue_with (walk env on_success r fuel rest) out)
      go ih (s', none, e, more) =
          let (s'', reply, e', rest_more) = ih s' h in
          (s'', reply, rw e e', Progress-trans r.opts.max_attempts s s' s'' more rest_more)
      go ih (s', some reply, e, more) = (s', reply, rw e refl, more)
