-- ===== src/Router/Chain/Coverage.antt =====
-- Which providers a request reaches (internal/router/orchestrator.go): the reserve of one attempt
-- for each provider still untried.
use pen_stock.Base.{
  ℕ, zero, suc, ◌+◌, ◌<◌, ◌≤◌, ◌≡◌, ◌≢◌, ◌⊎◌, refl, ◌∙◌, true, Option, none, some, String, List, [],
  ◌∷◌, ◌++◌, arith, All, length, inl, inr,
}
use pen_stock.Providers.Errors.{GoError}
use pen_stock.Router.Policy.{fail, class_disposition}
use pen_stock.Router.Health.{Tracker}
use pen_stock.Router.Errors.{class_of}
use pen_stock.Router.Chain.{
  Router, Reply, ok, err, Env, Attempt, ChainState, failed_state, success_state, sleep,
  try_provider, walk, contains, continue_with,
}
use pen_stock.Router.Chain.Cases.{
  RoundCase, used_up, hung_up, succeeded, gave_up, moved_on, repeated, round-case,
  failed_state-used,
}
use pen_stock.Router.Chain.Totality.{again-used}

-- The caller stays, and no upstream answers that the request itself is at fault.
pub record IsPatient (A : Type 0) (env : Env A) : Type 0 where
  pub stays : (i : ℕ) → env.ctx_before i ≡ none
  pub blameless :
      (i : ℕ) (p : String) (e : GoError)
      → env.answer i p ≡ err e
      → class_disposition (class_of e) ≢ fail

-- An upstream that answers every call.
abbrev pub Answers : {A : Type 0} → Env A → String → Type 0
Answers {A} env p = (i : ℕ) → (a : A) × (env.answer i p ≡ ok a)

-- The provider stands in the log.
abbrev pub Tried : String → List Attempt → Type 0
Tried p [] = ⊥
Tried p (a ∷ log) = (a.provider ≡ p) ⊎ Tried p log

Tried-append : (p : String) (xs ys : List Attempt) → Tried p xs → Tried p (xs ++ ys)
Tried-append p (a ∷ xs) ys (inl e) = inl e
Tried-append p (a ∷ xs) ys (inr h) = inr (Tried-append p xs ys h)
Tried-append p [] ys h = absurd h

Tried-last :
    (p : String) (xs : List Attempt) (a : Attempt) → a.provider ≡ p → Tried p (xs ++ a ∷ [])
Tried-last p [] a e = inl e
Tried-last p (x ∷ xs) a e = inr (Tried-last p xs a e)

-- The log only grows.
abbrev Extends : ChainState → ChainState → Type 0
Extends s s' = (p : String) → Tried p s.attempts → Tried p s'.attempts

module _ {A : Type 0} (env : Env A) (on_success : Tracker → String → ℕ → Tracker) (r : Router)
    (patient : IsPatient A env) where
  failed-Tried :
      (p : String) (e : GoError) (s : ChainState)
      → Tried p (failed_state env on_success r p e s).attempts
        × Extends s (failed_state env on_success r p e s)
  unfolding failed_state
  failed-Tried p e s = (Tried-last p s.attempts _ refl, λ q. Tried-append q s.attempts _)

  sleep-tried : (s : ChainState) → Extends s (sleep env on_success r s)
  unfolding sleep
  sleep-tried s q h = h

  stays-absurd : {i : ℕ} (c : GoError) → env.ctx_before i ≡ some c → ⊥
  stays-absurd {i} c h = cc (patient.stays i)

  not-err :
      {i : ℕ} {p : String} {e : GoError}
      → ((a : A) × (env.answer i p ≡ ok a))
      → env.answer i p ≡ err e
      → ⊥
  not-err (a, h) k = cc

  -- What the loop over one provider comes to: success, or the next provider's turn with the reserve
  -- untouched and this provider in the log.
  pub data Turn (reserved : ℕ) (p : String) (s : ChainState)
      (out : Option (ChainState × Option (Reply A))) : Type 0 where
    won : (s' : ChainState) (a : A) → out ≡ some (s', some (ok a)) → Turn reserved p s out
    passed :
        (s' : ChainState)
        → s'.used + reserved ≤ r.opts.max_attempts
        → Tried p s'.attempts
        → Extends s s'
        → ¬ Answers env p
        → out ≡ some (s', none)
        → Turn reserved p s out

  try-Turn :
      (fuel reserved : ℕ) (p : String) (s : ChainState)
      → r.opts.max_attempts < fuel + s.used
      → s.used + 1 + reserved ≤ r.opts.max_attempts
      → Turn reserved p s (try_provider env on_success r fuel reserved p s)
  unfolding try_provider
  try-Turn zero reserved p s h m = absurd (omega arith)
  try-Turn (suc fuel) reserved p s h m =
      go (try-Turn fuel reserved p)
        (round-case env on_success r reserved p (try_provider env on_success r fuel reserved p) s)
    where
      later :
          {out : Option (ChainState × Option (Reply A))} (s' : ChainState)
          → Extends s s'
          → out ≡ try_provider env on_success r fuel reserved p s'
          → Turn reserved p s' (try_provider env on_success r fuel reserved p s')
          → Turn reserved p s out
      later s' x e (won t a e') = won t a (e ∙ e')
      later s' x e (passed t k tried x' n e') = passed t k tried (λ q z. x' q (x q z)) n (e ∙ e')

      go :
          {out : Option (ChainState × Option (Reply A))}
          → ((s' : ChainState)
              → r.opts.max_attempts < fuel + s'.used
              → s'.used + 1 + reserved ≤ r.opts.max_attempts
              → Turn reserved p s' (try_provider env on_success r fuel reserved p s'))
          → RoundCase env on_success r reserved p
              (try_provider env on_success r fuel reserved p)
              s
              out
          → Turn reserved p s out
      go ih (used_up k e) = absurd (omega arith)
      go ih (hung_up c k e) = absurd (stays-absurd c k)
      go ih (succeeded a k l e) = won (success_state env on_success r p s) a e
      go ih (gave_up x k l d e) = absurd (patient.blameless s.used p x l d)
      go ih (moved_on x k l d e) =
          let (tried, extends) = failed-Tried p x s in
          passed (failed_state env on_success r p x s)
            (omega (arith, failed_state-used env on_success r p x s)) tried extends
            (λ all. not-err (all s.used) l) e
      go ih (repeated x k l d n e) =
          let next = sleep env on_success r (failed_state env on_success r p x s) in
          let (tried, extends) = failed-Tried p x s in
          later next (λ q z. sleep-tried (failed_state env on_success r p x s) q (extends q z)) e
            (ih next (omega (arith, again-used env on_success r p x s))
              (omega (arith, again-used env on_success r p x s)))

  -- What the walk comes to, from a state whose budget covers the order.
  pub data Verdict (order : List String) (s : ChainState) (out : Option (ChainState × Reply A))
      : Type 0 where
    answered : (s' : ChainState) (a : A) → out ≡ some (s', ok a) → Verdict order s out
    all_failed :
        (s' : ChainState) (e : GoError)
        → All (λ p. Tried p s'.attempts × ¬ Answers env p) order
        → Extends s s'
        → out ≡ some (s', err e)
        → Verdict order s out

  pub walk-Verdict :
      (fuel : ℕ) (order : List String) (s : ChainState)
      → r.opts.max_attempts < fuel
      → s.used + length order ≤ r.opts.max_attempts
      → All (λ p. contains p r.names ≡ true) order
      → Verdict order s (walk env on_success r fuel order s)
  unfolding walk
  walk-Verdict fuel [] s h m known = all_failed s _ tt (λ q z. z) refl
  walk-Verdict fuel (p ∷ rest) s h m known =
      rw (known.0, walk)
        (go (walk-Verdict fuel rest) (try-Turn fuel (length rest) p s (omega arith) (omega arith)))
    where
      later :
          {out : Option (ChainState × Reply A)} (s' : ChainState)
          → Tried p s'.attempts
          → ¬ Answers env p
          → Extends s s'
          → Verdict rest s' out
          → Verdict (p ∷ rest) s out
      later s' tried n x (answered t a e) = answered t a e
      later s' tried n x (all_failed t e all x' q) =
          all_failed t e ((x' p tried, n), all) (λ y z. x' y (x y z)) q

      go :
          {out : Option (ChainState × Option (Reply A))}
          → ((s' : ChainState)
              → r.opts.max_attempts < fuel
              → s'.used + length rest ≤ r.opts.max_attempts
              → All (λ p. contains p r.names ≡ true) rest
              → Verdict rest s' (walk env on_success r fuel rest s'))
          → Turn (length rest) p s out
          → Verdict (p ∷ rest) s (continue_with (walk env on_success r fuel rest) out)
      go ih (won s' a e) = answered s' a (rw e refl)
      go ih (passed s' k tried x n e) = rw e (later s' tried n x (ih s' h k known.1))
