-- ===== src/Router/Route/Sequence.antt =====
-- The upstream calls of one request, in order (internal/router/orchestrator.go).
use pen_stock.Base.{
  ℕ, suc, ◌≡◌, refl, ◌∙◌, Option, none, some, String, List, [], ◌∷◌, ◌++◌, sym, ap, subst,
}
use pen_stock.Router.Health.{Tracker}
use pen_stock.Router.Chain.{Router, Reply, Env, ChainState}
use pen_stock.Router.Chain.Order.{Follows, stop, Walked, walk-Follows}
use pen_stock.Router.Route.{run_chain, start_walk, finish}
use pen_stock.Router.Route.Requests.{candidates}

attempts-eq :
    {A : Type 0} {q q' : Router} {y y' : Reply A}
    → ◌≡◌ {A = Option (Router × Reply A)} (some (q, y)) (some (q', y'))
    → q.attempts ≡ q'.attempts
attempts-eq k = cc

finish-Follows :
    {A : Type 0} (env : Env A) (on_success : Tracker → String → ℕ → Tracker) (r r' : Router)
    (names : List String) (s : ChainState) (reply : Reply A) (out : Option (ChainState × Reply A))
    → s.attempts ≡ []
    → Walked env on_success r names s out
    → finish r out ≡ some (r', reply)
    → Follows names r'.attempts
unfolding finish
finish-Follows env on_success r r' names s reply none z w e = absurd (cc)
finish-Follows env on_success r r' names s reply (some (t, x)) z w e =
    let (log, logged, f) = w t x refl in subst (Follows names) (sym logged-all ∙ attempts-eq e) f
  where
    logged-all : t.attempts ≡ (w t x refl).0
    logged-all = (w t x refl).1 ∙ ap (λ xs. xs ++ (w t x refl).0) z

start_walk-Follows :
    {A : Type 0} (env : Env A) (on_success : Tracker → String → ℕ → Tracker) (r r' : Router)
    (names : List String) (reply : Reply A)
    → r.attempts ≡ []
    → start_walk env on_success r names ≡ some (r', reply)
    → Follows names r'.attempts
unfolding start_walk
start_walk-Follows env on_success r r' [] reply z e =
    subst (Follows []) (sym z ∙ attempts-eq e) stop
start_walk-Follows env on_success r r' (p ∷ rest) reply z e =
    let s : ChainState = record {
      health = r.health;
      used = 0;
      attempts = [];
      last_err = none;
      waits = [];
    } in
    finish-Follows env on_success r r' (p ∷ rest) s reply _ refl
      (walk-Follows env on_success r (suc r.opts.max_attempts) (p ∷ rest) s) e

-- The upstream calls of a request walk the candidates forwards: a provider that has been left is not
-- called again; one is called again only right after a failure that may be transient; and every call
-- but the last is a failure that the policy lets the loop go on after, so the first success, invalid
-- request or cancellation is the last call.
pub run_chain-Follows :
    {A : Type 0} (env : Env A) (on_success : Tracker → String → ℕ → Tracker) (r r' : Router)
    (reply : Reply A)
    → run_chain env on_success r ≡ some (r', reply)
    → Follows (candidates env r) r'.attempts
unfolding run_chain
run_chain-Follows env on_success r r' reply e =
    start_walk-Follows env on_success _ r' (candidates env r) reply refl e
