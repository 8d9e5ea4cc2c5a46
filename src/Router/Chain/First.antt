-- ===== src/Router/Chain/First.antt =====
-- A request whose first candidate answers (internal/router/orchestrator.go).
use pen_stock.Base.{
  ℕ, suc, ◌<◌, ◌≡◌, refl, true, false, Option, none, some, String, List, ◌∷◌, arith, leb, length,
}
use pen_stock.Router.Health.{Tracker}
use pen_stock.Router.Chain.{
  Router, Reply, ok, Env, ChainState, success_state, walk, try_provider, round, on_ctx, on_reply,
  contains,
}

module _ {A : Type 0} (env : Env A) (on_success : Tracker → String → ℕ → Tracker) (r : Router) where
  round-ok :
      (reserved : ℕ) (p : String) (again : ChainState → Option (ChainState × Option (Reply A)))
      (s : ChainState) (x : A)
      → s.used < r.opts.max_attempts
      → env.ctx_before s.used ≡ none
      → env.answer s.used p ≡ ok x
      → round env on_success r reserved p again s
        ≡ some (success_state env on_success r p s, some (ok x))
  unfolding round on_ctx on_reply
  round-ok reserved p again s x h live answers = rw (has_room h, live, answers) refl
    where
      has_room : s.used < r.opts.max_attempts → leb r.opts.max_attempts s.used ≡ false
      has_room k = ground arith

  pub walk-ok :
      (fuel : ℕ) (p : String) (rest : List String) (s : ChainState) (x : A)
      → s.used < r.opts.max_attempts
      → env.ctx_before s.used ≡ none
      → env.answer s.used p ≡ ok x
      → contains p r.names ≡ true
      → walk env on_success r (suc fuel) (p ∷ rest) s
        ≡ some (success_state env on_success r p s, ok x)
  unfolding walk try_provider
  walk-ok fuel p rest s x h live answers known =
      rw
        (
          known,
          walk,
          round-ok (length rest) p (try_provider env on_success r fuel (length rest) p) s x h live
              answers,
        )
        refl
