-- ===== src/Router/Chain/Cases.antt =====
-- The five ways in which one round of the attempt loop can go (internal/router/orchestrator.go).
use pen_stock.Base.{
  ℕ, ◌+◌, ◌<◌, ◌≤◌, ◌≡◌, ◌≢◌, inl, inr, refl, true, false, Option, none, some, String, arith, leb,
  Bool-cases, Option-cases, ◌&&◌,
}
use pen_stock.Providers.Errors.{ErrorClass, GoError}
use pen_stock.Router.Policy.{Disposition, fail, retry, failover, class_disposition}
use pen_stock.Router.Health.{Tracker}
use pen_stock.Router.Errors.{class_of, canceled_error, exhausted}
use pen_stock.Router.Chain.{
  Router, Reply, ok, err, Env, ChainState, failed_state, success_state, sleep, dispose,
  is_canceled_class, is_done, on_reply, on_ctx, round,
}

is_canceled_class-fail : (c : ErrorClass) → is_canceled_class c ≡ true → class_disposition c ≡ fail
unfolding is_canceled_class class_disposition
is_canceled_class-fail c h = ground arith

room : {m n : ℕ} → leb m n ≡ false → n < m
room {m} {n} h = ground arith

module _ {A : Type 0} (env : Env A) (on_success : Tracker → String → ℕ → Tracker) (r : Router) where
  pub data RoundCase (reserved : ℕ) (p : String)
      (again : ChainState → Option (ChainState × Option (Reply A))) (s : ChainState)
      (out : Option (ChainState × Option (Reply A))) : Type 0 where
    used_up :
        r.opts.max_attempts ≤ s.used
        → out ≡ some (s, some (err (exhausted r.name s.last_err)))
        → RoundCase reserved p again s out
    hung_up :
        (c : GoError)
        → env.ctx_before s.used ≡ some c
        → out ≡ some (s, some (err (canceled_error r.name c)))
        → RoundCase reserved p again s out
    succeeded :
        (a : A)
        → s.used < r.opts.max_attempts
        → env.answer s.used p ≡ ok a
        → out ≡ some (success_state env on_success r p s, some (ok a))
        → RoundCase reserved p again s out
    gave_up :
        (e : GoError)
        → s.used < r.opts.max_attempts
        → env.answer s.used p ≡ err e
        → class_disposition (class_of e) ≡ fail
        → out ≡ some (failed_state env on_success r p e s, some (err e))
        → RoundCase reserved p again s out
    moved_on :
        (e : GoError)
        → s.used < r.opts.max_attempts
        → env.answer s.used p ≡ err e
        → class_disposition (class_of e) ≢ fail
        → out ≡ some (failed_state env on_success r p e s, none)
        → RoundCase reserved p again s out
    repeated :
        (e : GoError)
        → s.used < r.opts.max_attempts
        → env.answer s.used p ≡ err e
        → class_disposition (class_of e) ≡ retry
        → s.used + 1 + reserved < r.opts.max_attempts
        → out ≡ again (sleep env on_success r (failed_state env on_success r p e s))
        → RoundCase reserved p again s out

  pub failed_state-used :
      (p : String) (e : GoError) (s : ChainState)
      → (failed_state env on_success r p e s).used ≡ s.used + 1
  unfolding failed_state
  failed_state-used p e s = refl

  dispose-full :
      (reserved : ℕ) (e : GoError) (again : ChainState → Option (ChainState × Option (Reply A)))
      (s : ChainState)
      → leb r.opts.max_attempts (s.used + reserved) ≡ true
      → dispose env on_success r retry reserved e again s ≡ some (s, none)
  unfolding dispose
  dispose-full reserved e again s t = rw (t, dispose) refl

  dispose-room :
      (reserved : ℕ) (e : GoError) (again : ChainState → Option (ChainState × Option (Reply A)))
      (s : ChainState)
      → leb r.opts.max_attempts (s.used + reserved) ≡ false
      → dispose env on_success r retry reserved e again s ≡ again (sleep env on_success r s)
  unfolding dispose
  dispose-room reserved e again s t = rw (t, dispose) refl

  dispose-case :
      (reserved : ℕ) (p : String) (again : ChainState → Option (ChainState × Option (Reply A)))
      (s : ChainState) (e : GoError) (d : Disposition)
      → s.used < r.opts.max_attempts
      → env.answer s.used p ≡ err e
      → class_disposition (class_of e) ≡ d
      → RoundCase reserved p again s
          (dispose env on_success r d reserved e again (failed_state env on_success r p e s))
  unfolding dispose
  dispose-case reserved p again s e fail h k l = gave_up e h k l refl
  dispose-case reserved p again s e failover h k l = moved_on e h k (λ q. cc) refl
  dispose-case reserved p again s e retry h k l =
      elim (Bool-cases
        (leb r.opts.max_attempts ((failed_state env on_success r p e s).used + reserved))) [
          | inl t ↦ moved_on e h k (λ q. cc) (dispose-full reserved e again _ t)
          | inr t ↦
              repeated e h k l (omega (arith, room t, failed_state-used p e s))
                (dispose-room reserved e again _ t)
        ]

  on_reply-case :
      (reserved : ℕ) (p : String) (again : ChainState → Option (ChainState × Option (Reply A)))
      (s : ChainState) (reply : Reply A)
      → s.used < r.opts.max_attempts
      → env.answer s.used p ≡ reply
      → RoundCase reserved p again s (on_reply env on_success r reserved p again s reply)
  unfolding on_reply
  on_reply-case reserved p again s (ok a) h k = succeeded a h k refl
  on_reply-case reserved p again s (err e) h k =
      elim (Bool-cases (is_done (env.ctx_after s.used) && is_canceled_class (class_of e))) [
        | inl t ↦ rw t (gave_up e h k (is_canceled_class-fail (class_of e) (ground arith)) refl)
        | inr t ↦ rw t (dispose-case reserved p again s e (class_disposition (class_of e)) h k refl)
      ]

  pub round-case :
      (reserved : ℕ) (p : String) (again : ChainState → Option (ChainState × Option (Reply A)))
      (s : ChainState)
      → RoundCase reserved p again s (round env on_success r reserved p again s)
  unfolding round on_ctx
  round-case reserved p again s = elim (Bool-cases (leb r.opts.max_attempts s.used)) [
    | inl t ↦ rw t (used_up (ground arith) refl)
    | inr t ↦ elim (Option-cases (env.ctx_before s.used)) [
      | inl e ↦
          rw (t, e) (on_reply-case reserved p again s (env.answer s.used p) (ground arith) refl)
      | inr (c, e) ↦ rw (t, e) (hung_up c e refl)
    ]
  ]
