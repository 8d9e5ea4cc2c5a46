-- ===== src/Router/Chain/Order.antt =====
-- The order of the upstream calls of a request (internal/router/orchestrator.go): the chain is
-- walked forwards, and only a failure that may be transient is repeated.
use pen_stock.Base.{
  ℕ, zero, suc, ◌≡◌, ◌≢◌, refl, ◌∙◌, Option, none, some, String, List, [], ◌∷◌, ◌++◌, length,
  Bool-cases, inl, inr, sym, ap,
}
use mathlib.Core.List.{append_assoc, append-nil}
use pen_stock.Providers.Errors.{GoError}
use pen_stock.Router.Policy.{fail, retry, class_disposition}
use pen_stock.Router.Health.{Tracker}
use pen_stock.Router.Errors.{class_of}
use pen_stock.Router.Chain.{
  Router, Reply, Env, Attempt, ChainState, failed_state, success_state, sleep, try_provider, walk,
  contains, continue_with,
}
use pen_stock.Router.Chain.Cases.{
  RoundCase, used_up, hung_up, succeeded, gave_up, moved_on, repeated, round-case,
}

-- A logged failure after which the loop may go on, and one after which it may try again.
abbrev pub GoesOn : Attempt → Type 0
GoesOn a =
    (e : GoError) × (a.err ≡ some e)
    × (a.class ≡ some (class_of e))
    × (class_disposition (class_of e) ≢ fail)

abbrev pub Repeats : Attempt → Type 0
Repeats a =
    (e : GoError) × (a.err ≡ some e)
    × (a.class ≡ some (class_of e))
    × (class_disposition (class_of e) ≡ retry)

-- A log that walks the order forwards: providers may be passed over, a provider is called again only
-- after a failure that may be retried, and every call but the last is a failure after which the loop
-- may go on.
pub data Follows : List String → List Attempt → Type 0 where
  stop : {order : List String} → Follows order []
  skip :
      {p : String} {order : List String} {log : List Attempt}
      → Follows order log
      → Follows (p ∷ order) log
  last :
      {p : String} {order : List String} (a : Attempt)
      → a.provider ≡ p
      → Follows (p ∷ order) (a ∷ [])
  next :
      {p : String} {order : List String} {log : List Attempt} (a : Attempt)
      → a.provider ≡ p
      → GoesOn a
      → Follows order log
      → Follows (p ∷ order) (a ∷ log)
  again :
      {p : String} {order : List String} {log : List Attempt} (a : Attempt)
      → a.provider ≡ p
      → Repeats a
      → Follows (p ∷ order) log
      → Follows (p ∷ order) (a ∷ log)

Repeats-GoesOn : (a : Attempt) → Repeats a → GoesOn a
Repeats-GoesOn a (e, h, k, d) = (e, h, k, λ q. cc)

-- The calls that a state has logged since an earlier one.
abbrev Logged : ChainState → ChainState → List Attempt → Type 0
Logged s s' log = s'.attempts ≡ s.attempts ++ log

module _ {A : Type 0} (env : Env A) (on_success : Tracker → String → ℕ → Tracker) (r : Router) where
  -- What the loop over one provider logs: it is left for the next provider after a run of calls to
  -- this one, each of which may be followed; or it ends the request, with any last call.
  pub data Run (p : String) (s : ChainState) (out : Option (ChainState × Option (Reply A)))
      : Type 0 where
    ended :
        (s' : ChainState) (reply : Reply A) (log : List Attempt)
        → ((order : List String) → Follows (p ∷ order) log)
        → Logged s s' log
        → out ≡ some (s', some reply)
        → Run p s out
    left :
        (s' : ChainState) (log : List Attempt)
        → ((order : List String) (rest : List Attempt)
            → Follows order rest
            → Follows (p ∷ order) (log ++ rest))
        → Logged s s' log
        → out ≡ some (s', none)
        → Run p s out
    starved : out ≡ none → Run p s out

  abbrev failure : String → GoError → ChainState → Attempt
  failure p e s = record {
    provider = p;
    class = some (class_of e);
    err = some e;
    duration = env.duration s.used;
  }

  failed-Logged :
      (p : String) (e : GoError) (s : ChainState)
      → Logged s (failed_state env on_success r p e s) (failure p e s ∷ [])
  unfolding failed_state
  failed-Logged p e s = refl

  sleep-Logged : (s : ChainState) → (sleep env on_success r s).attempts ≡ s.attempts
  unfolding sleep
  sleep-Logged s = refl

  success-Logged :
      (p : String) (s : ChainState)
      → (a : Attempt) × (a.provider ≡ p) × Logged s (success_state env on_success r p s) (a ∷ [])
  unfolding success_state
  success-Logged p s = (
    record { provider = p; class = none; err = none; duration = env.duration s.used },
    refl,
    refl,
  )

  later-Logged :
      (p : String) (e : GoError) (s s' : ChainState) (log : List Attempt)
      → Logged (sleep env on_success r (failed_state env on_success r p e s)) s' log
      → Logged s s' (failure p e s ∷ log)
  later-Logged p e s s' log h =
      h
      ∙ (ap (λ xs. xs ++ log)
            (sleep-Logged (failed_state env on_success r p e s) ∙ failed-Logged p e s)
          ∙ append_assoc s.attempts (failure p e s ∷ []) log)

  pub try-Run :
      (fuel reserved : ℕ) (p : String) (s : ChainState)
      → Run p s (try_provider env on_success r fuel reserved p s)
  unfolding try_provider
  try-Run zero reserved p s = starved refl
  try-Run (suc fuel) reserved p s =
      go (try-Run fuel reserved p)
        (round-case env on_success r reserved p (try_provider env on_success r fuel reserved p) s)
    where
      later :
          {out : Option (ChainState × Option (Reply A))}
          {out' : Option (ChainState × Option (Reply A))} (x : GoError)
          → class_disposition (class_of x) ≡ retry
          → out ≡ out'
          → Run p (sleep env on_success r (failed_state env on_success r p x s)) out'
          → Run p s out
      later x d e (ended s' reply log f l e') =
          ended s' reply (failure p x s ∷ log)
            (λ order. again (failure p x s) refl (x, refl, refl, d) (f order))
            (later-Logged p x s s' log l) (e ∙ e')
      later x d e (left s' log f l e') =
          left s' (failure p x s ∷ log)
            (λ order rest k. again (failure p x s) refl (x, refl, refl, d) (f order rest k))
            (later-Logged p x s s' log l) (e ∙ e')
      later x d e (starved e') = starved (e ∙ e')

      go :
          {out : Option (ChainState × Option (Reply A))}
          → ((s' : ChainState) → Run p s' (try_provider env on_success r fuel reserved p s'))
          → RoundCase env on_success r reserved p
              (try_provider env on_success r fuel reserved p)
              s
              out
          → Run p s out
      go ih (used_up k e) = ended s _ [] (λ order. stop) (sym (append-nil s.attempts)) e
      go ih (hung_up c k e) = ended s _ [] (λ order. stop) (sym (append-nil s.attempts)) e
      go ih (succeeded a k l e) =
          let (att, same_p, logged) = success-Logged p s in
          ended _ _ (att ∷ []) (λ order. last att same_p) logged e
      go ih (gave_up x k l d e) =
          ended _ _ (failure p x s ∷ []) (λ order. last (failure p x s) refl) (failed-Logged p x s)
            e
      go ih (moved_on x k l d e) =
          left _ (failure p x s ∷ [])
            (λ order rest f. next (failure p x s) refl (x, refl, refl, d) f) (failed-Logged p x s) e
      go ih (repeated x k l d n e) = later x d e (ih _)

  state-eq :
      {s s' : ChainState} {x y : Reply A}
      → ◌≡◌ {A = Option (ChainState × Reply A)} (some (s, x)) (some (s', y))
      → s ≡ s'
  state-eq h = cc

  none-absurd :
      {s : ChainState} {x : Reply A}
      → ◌≡◌ {A = Option (ChainState × Reply A)} none (some (s, x))
      → ⊥
  none-absurd h = cc

  -- What a finished walk has logged follows the order that it walked.
  abbrev pub Walked : List String → ChainState → Option (ChainState × Reply A) → Type 0
  Walked order s out =
      (s' : ChainState) (reply : Reply A)
      → out ≡ some (s', reply)
      → (log : List Attempt) × Logged s s' log × Follows order log

  pub walk-Follows :
      (fuel : ℕ) (order : List String) (s : ChainState)
      → Walked order s (walk env on_success r fuel order s)
  unfolding walk
  walk-Follows fuel [] s =
      λ s' reply e. ([], sym (append-nil s.attempts ∙ ap (λ t. t.attempts) (state-eq e)), stop)
  walk-Follows fuel (p ∷ rest) s = elim (Bool-cases (contains p r.names)) [
    | inr absent ↦
        rw (absent, walk)
          (λ s' reply e.
            let (log, logged, f) = walk-Follows fuel rest s s' reply e in (log, logged, skip f))
    | inl known ↦ rw (known, walk) (go (walk-Follows fuel rest) (try-Run fuel (length rest) p s))
  ]
    where
      go :
          {out : Option (ChainState × Option (Reply A))}
          → ((s' : ChainState) → Walked rest s' (walk env on_success r fuel rest s'))
          → Run p s out
          → Walked (p ∷ rest) s (continue_with (walk env on_success r fuel rest) out)
      go ih (ended t answer log f l e) =
          rw e (λ s' reply q. (log, sym (ap (λ x. x.attempts) (state-eq q)) ∙ l, f rest))
      go ih (left t log f l e) = rw e (λ s' reply q.
          let (more, logged, g) = ih t s' reply q in
          (
            log ++ more,
            logged ∙ (ap (λ xs. xs ++ more) l ∙ append_assoc s.attempts log more),
            f rest more g,
          ))
      go ih (starved e) = rw e (λ s' reply q. absurd (none-absurd q))
