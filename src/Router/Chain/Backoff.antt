-- ===== src/Router/Chain/Backoff.antt =====
-- How long a request sleeps between attempts (internal/router/orchestrator.go, `backoff`).
use pen_stock.Base.{
  ℕ, ◌+◌, ◌-◌, ◌*◌, ◌^◌, ◌<◌, ◌≤◌, ◌≡◌, some, String, List, arith, All, All-append, if◌then◌else◌,
  ltb, leb, ◌||◌, ◌==◌, ◌%◌,
}
use Prim.Native.Nat.{min}
use native.Mathlib.Nat.{one-le-pow, mul-pos}
use pen_stock.Router.Options.{Options}
use pen_stock.Router.Health.{Tracker}
use pen_stock.Router.Chain.{
  Router, Reply, Env, ChainState, failed_state, success_state, sleep, walk, backoff_delay,
}
use pen_stock.Router.Chain.Effects.{walk-Leads}

doubled :
    (delay cap : ℕ)
    → 0 < delay
    → delay < 2 ^ 63
    → (if◌then◌else◌ {A = ℕ}
        (ltb cap (delay % 2 ^ 64) || (leb (2 ^ 63) (delay % 2 ^ 64) || delay % 2 ^ 64 == 0))
        cap
        (delay % 2 ^ 64))
      ≡ min delay cap
doubled delay cap pos fits = ground arith

backoff_delay-capped :
    (opts : Options) (attempt : ℕ) → backoff_delay opts attempt ≤ opts.max_retry_delay
unfolding backoff_delay
backoff_delay-capped opts attempt = ground arith

-- The delay before jitter doubles with each upstream call of the request, up to sixteen times, and is
-- cut off at the configured cap. The base is set, and the doubled base fits an int64.
pub backoff_delay-doubles :
    (opts : Options) (attempt : ℕ)
    → 0 < opts.retry_base_delay
    → opts.retry_base_delay * 2 ^ min (attempt - 1) 16 < 2 ^ 63
    → backoff_delay opts attempt
      ≡ min (opts.retry_base_delay * 2 ^ min (attempt - 1) 16) opts.max_retry_delay
unfolding backoff_delay
backoff_delay-doubles opts attempt set fits =
    doubled (opts.retry_base_delay * 2 ^ min (attempt - 1) 16) opts.max_retry_delay
      (mul-pos set (one-le-pow _ 2 (omega arith))) fits

-- `rand.Int64N(n)` is below `n`.
abbrev pub IsRandom : {A : Type 0} → Env A → Type 0
IsRandom env = (i n : ℕ) → 0 < n → env.random i n < n

abbrev pub IsShort : ℕ → ChainState → Type 0
IsShort cap s = All (λ w. w ≤ cap) s.waits

-- Every sleep of a request lasts at most `MaxRetryDelay`, provided that the random number generator
-- keeps to its range.
pub walk-waits :
    {A : Type 0} (env : Env A) (on_success : Tracker → String → ℕ → Tracker) (r : Router) (fuel : ℕ)
    (order : List String) (s s' : ChainState) (reply : Reply A)
    → IsRandom env
    → walk env on_success r fuel order s ≡ some (s', reply)
    → IsShort r.opts.max_retry_delay s
    → IsShort r.opts.max_retry_delay s'
unfolding failed_state success_state sleep
walk-waits env on_success r fuel order s s' reply random e =
    walk-Leads env on_success r
      (λ s t. IsShort r.opts.max_retry_delay s → IsShort r.opts.max_retry_delay t) (λ s h. h)
      (λ s t u f g h. g (f h)) (λ p x s h. h) (λ p s h. h)
      (λ s h.
        All-append (λ w. w ≤ r.opts.max_retry_delay) s.waits _ h
          (short s.used (backoff_delay r.opts s.used) (backoff_delay-capped r.opts s.used), tt))
      fuel order s s' reply e
  where
    short :
        (i delay : ℕ)
        → delay ≤ r.opts.max_retry_delay
        → env.random i (delay + 1) ≤ r.opts.max_retry_delay
    short i delay h = omega (arith, random i (delay + 1) (omega arith))
