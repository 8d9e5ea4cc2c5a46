-- ===== src/Router/Chain/Effects.antt =====
-- The induction over the attempt loops: what every change of their state keeps, a finished loop keeps
-- (internal/router/orchestrator.go).
use pen_stock.Base.{
  ℕ, zero, suc, ◌≡◌, refl, ◌∙◌, Option, none, some, String, List, [], ◌∷◌, length, Bool-cases, inl,
  inr, subst, sym,
}
use pen_stock.Providers.Errors.{GoError}
use pen_stock.Router.Health.{Tracker}
use pen_stock.Router.Chain.{
  Router, Reply, Env, ChainState, failed_state, success_state, sleep, try_provider, walk, contains,
  continue_with,
}
use pen_stock.Router.Chain.Cases.{
  RoundCase, used_up, hung_up, succeeded, gave_up, moved_on, repeated, round-case,
}

module _ {A : Type 0} (env : Env A) (on_success : Tracker → String → ℕ → Tracker) (r : Router)
    (R : ChainState → ChainState → Type 0) (R-refl : (s : ChainState) → R s s)
    (R-trans : (s t u : ChainState) → R s t → R t u → R s u)
    (R-failed : (p : String) (e : GoError) (s : ChainState)
      → R s (failed_state env on_success r p e s))
    (R-success : (p : String) (s : ChainState) → R s (success_state env on_success r p s))
    (R-sleep : (s : ChainState) → R s (sleep env on_success r s)) where
  -- A finished loop leads from its state to a related one.
  abbrev Leads : {B : Type 0} → ChainState → Option (ChainState × B) → Type 0
  Leads {B} s out = (s' : ChainState) (b : B) → out ≡ some (s', b) → R s s'

  same-state :
      {B : Type 0} {s s' : ChainState} {x y : B}
      → ◌≡◌ {A = Option (ChainState × B)} (some (s, x)) (some (s', y))
      → R s s'
  same-state {B} {s} h = subst (R s) (state-eq h) (R-refl s)
    where
      state-eq :
          {t t' : ChainState} {x y : B}
          → ◌≡◌ {A = Option (ChainState × B)} (some (t, x)) (some (t', y))
          → t ≡ t'
      state-eq h = cc

  try-Leads :
      (fuel reserved : ℕ) (p : String) (s : ChainState)
      → Leads s (try_provider env on_success r fuel reserved p s)
  unfolding try_provider
  try-Leads zero reserved p s = λ s' b e. absurd (cc)
  try-Leads (suc fuel) reserved p s =
      go (try-Leads fuel reserved p)
        (round-case env on_success r reserved p (try_provider env on_success r fuel reserved p) s)
    where
      to :
          {B : Type 0} {out : Option (ChainState × B)} {b : B} (t : ChainState)
          → R s t
          → out ≡ some (t, b)
          → Leads s out
      to t h e = λ s' b' q. R-trans s t s' h (same-state (sym e ∙ q))

      go :
          {out : Option (ChainState × Option (Reply A))}
          → ((s' : ChainState) → Leads s' (try_provider env on_success r fuel reserved p s'))
          → RoundCase env on_success r reserved p
              (try_provider env on_success r fuel reserved p)
              s
              out
          → Leads s out
      go ih (used_up k e) = to s (R-refl s) e
      go ih (hung_up c k e) = to s (R-refl s) e
      go ih (succeeded a k l e) = to _ (R-success p s) e
      go ih (gave_up x k l d e) = to _ (R-failed p x s) e
      go ih (moved_on x k l d e) = to _ (R-failed p x s) e
      go ih (repeated x k l d n e) = λ s' b q.
          let failed = failed_state env on_success r p x s in
          R-trans s (sleep env on_success r failed) s'
            (R-trans s failed (sleep env on_success r failed) (R-failed p x s) (R-sleep failed))
            (ih (sleep env on_success r failed) s' b (sym e ∙ q))

  pub walk-Leads :
      (fuel : ℕ) (order : List String) (s : ChainState)
      → Leads s (walk env on_success r fuel order s)
  unfolding walk
  walk-Leads fuel [] s = λ s' b e. same-state e
  walk-Leads fuel (p ∷ rest) s = elim (Bool-cases (contains p r.names)) [
    | inr absent ↦ rw (absent, walk) (walk-Leads fuel rest s)
    | inl known ↦
        rw (known, walk)
          (go (try_provider env on_success r fuel (length rest) p s) (walk-Leads fuel rest)
            (try-Leads fuel (length rest) p s))
  ]
    where
      go :
          (out : Option (ChainState × Option (Reply A)))
          → ((s' : ChainState) → Leads s' (walk env on_success r fuel rest s'))
          → Leads s out
          → Leads s (continue_with (walk env on_success r fuel rest) out)
      go none ih h = λ s' b e. absurd (cc)
      go (some (t, some reply)) ih h = λ s' b e. R-trans s t s' (h t _ refl) (same-state e)
      go (some (t, none)) ih h = λ s' b e. R-trans s t s' (h t _ refl) (ih t s' b e)
