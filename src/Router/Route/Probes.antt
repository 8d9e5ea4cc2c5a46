-- ===== src/Router/Route/Probes.antt =====
-- A probe that selection claims and the request does not use (internal/router/health.go, selector.go
-- and orchestrator.go together).
use pen_stock.Base.{
  ℕ, ◌+◌, ◌<◌, ◌≡◌, ◌≢◌, refl, true, false, none, some, String, List, [], ◌∷◌, Bool-cases, inl, inr,
  same, same→eq, same_refl, map,
}
use pen_stock.Router.Options.{Options}
use pen_stock.Router.Health.{
  Tracker, ProviderHealth, closed, available, record_success, at_time, probe_stall_timeout,
}
use pen_stock.Router.Health.History.{run, step, succeeds, calls_of}
use pen_stock.Router.Health.Probe.{single_probe}
use pen_stock.Router.Selector.{priority_selector, order, available_from, available_names}
use pen_stock.Router.Chain.{Router, ok, Env, success_state, contains}
use pen_stock.Router.Chain.First.{walk-ok}
use pen_stock.Router.Route.{run_chain, start_walk, finish, chat}

abbrev pub two_providers : String → String → String → Tracker → Options → Router
two_providers name a b t opts = record {
  name = name;
  names = a ∷ b ∷ [];
  health = t;
  sel = priority_selector;
  opts = opts;
  attempts = [];
}

-- The tracker after the selection and the answer.
abbrev pub after_answer : Tracker → String → String → ℕ → Tracker
after_answer t a b now = record_success (available (available t a now now).0 b now now).0 a 0

start_walk-ok :
    {A : Type 0} (env : Env A) (on_success : Tracker → String → ℕ → Tracker) (r : Router)
    (p : String) (rest : List String) (x : A)
    → 0 < r.opts.max_attempts
    → env.ctx_before 0 ≡ none
    → env.answer 0 p ≡ ok x
    → contains p r.names ≡ true
    → start_walk env on_success r (p ∷ rest)
      ≡ some (
        record r {
          health = on_success r.health p (env.clock 0);
          attempts =
              record { provider = p; class = none; err = none; duration = env.duration 0 } ∷ [];
        },
        ok x,
      )
unfolding start_walk finish success_state
start_walk-ok env on_success r p rest x room live answers known =
    rw
      (walk-ok env on_success r r.opts.max_attempts p rest
        (record { health = r.health; used = 0; attempts = []; last_err = none; waits = [] }) x room
        live answers known)
      refl

order-both :
    (t : Tracker) (a b : String) (now : ℕ)
    → (available t a now now).1 ≡ true
    → (available (available t a now now).0 b now now).1 ≡ true
    → order priority_selector (some t) (a ∷ b ∷ []) now now
      ≡ (priority_selector, some (available (available t a now now).0 b now now).0, a ∷ b ∷ [])
unfolding order available_from available_names
order-both t a b now ha hb = rw (ha, hb) refl

contains-first : (a : String) (rest : List String) → contains a (a ∷ rest) ≡ true
unfolding contains
contains-first a rest = rw (same_refl a) refl

chat-first :
    {A : Type 0} (env : Env A) (name a b : String) (t : Tracker) (opts : Options) (x : A)
    → 0 < opts.max_attempts
    → env.ctx_before 0 ≡ none
    → env.answer 0 a ≡ ok x
    → (available t a env.start env.start).1 ≡ true
    → (available (available t a env.start env.start).0 b env.start env.start).1 ≡ true
    → chat env (two_providers name a b t opts)
      ≡ some (
        record (two_providers name a b t opts) {
          health = after_answer t a b env.start;
          attempts =
              record { provider = a; class = none; err = none; duration = env.duration 0 } ∷ [];
        },
        ok x,
      )
unfolding chat run_chain
chat-first env name a b t opts x room live answers ha hb =
    rw (order-both t a b env.start ha hb, chat, run_chain)
      (start_walk-ok env (λ t p now. record_success t p 0) _ a (b ∷ []) x room live answers
        (contains-first a (b ∷ [])))

other-calls : (a b : String) (ttft : ℕ) → a ≢ b → calls_of b ((a, succeeds ttft) ∷ []) ≡ []
unfolding calls_of
other-calls a b ttft ne = elim (Bool-cases (same a b)) [
  | inl e ↦ absurd (ne (same→eq a b e))
  | inr e ↦ rw e refl
]

run-answer : (t : Tracker) (a : String) → run t ((a, succeeds 0) ∷ []) ≡ record_success t a 0
unfolding run step
run-answer t a = refl

-- Selection claims the probe of a provider that the request then does not call: in front of two
-- providers of which the first answers and the second waits for its probe, a completion calls the
-- first alone, and yet the second is turned away for the next two minutes, so that it can neither be
-- probed nor stand in if the first fails meanwhile.
pub unused_probe_blocks :
    {A : Type 0} (env : Env A) (name a b : String) (t : Tracker) (opts : Options) (x : A)
    (s : ProviderHealth) (clock now : ℕ)
    → a ≢ b
    → 0 < opts.max_attempts
    → env.ctx_before 0 ≡ none
    → env.answer 0 a ≡ ok x
    → (available t a env.start env.start).1 ≡ true
    → (available t a env.start env.start).0.state b ≡ some s
    → s.breaker ≢ closed
    → (available (available t a env.start env.start).0 b env.start env.start).1 ≡ true
    → at_time clock now < at_time env.start env.start + probe_stall_timeout
    → (r' : Router) × (chat env (two_providers name a b t opts) ≡ some (r', ok x))
      × (map (λ att. att.provider) r'.attempts ≡ a ∷ [])
      × ((available r'.health b clock now).1 ≡ false)
unused_probe_blocks env name a b t opts x s clock now ne room live answers ha e unclosed hb early =
    (
      _,
      chat-first env name a b t opts x room live answers ha hb,
      refl,
      rw (← run-answer (available (available t a env.start env.start).0 b env.start env.start).0 a)
          (single_probe (available t a env.start env.start).0 b s env.start env.start
            ((a, succeeds 0) ∷ []) clock now e unclosed hb (rw (other-calls a b 0 ne) tt) early),
    )
