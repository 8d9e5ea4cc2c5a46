-- ===== src/Router/Chain.antt =====
-- internal/router/orchestrator.go: the loops of `runChain` over the providers and their attempts.
-- What the loop reads from outside is the environment, indexed by the number of upstream calls made
-- so far, which is different at each reading of one kind: the upstream's answer, the context, the
-- clock and the random numbers. A sleep is recorded in `waits`.
pub mod Cases
pub mod Totality
pub mod Order
pub mod Coverage
pub mod Effects
pub mod Backoff
pub mod First
use Prim.Native.Nat.{min}
use pen_stock.Base.{
  ℕ, zero, suc, ◌+◌, ◌-◌, ◌*◌, ◌%◌, ◌^◌, Bool, true, false, ◌&&◌, ◌||◌, Option, none, some, String,
  List, [], ◌∷◌, ◌++◌, length, ltb, leb, ◌==◌, if◌then◌else◌, same,
}
use pen_stock.Providers.Errors.{ErrorClass, canceled, GoError}
use pen_stock.Router.Policy.{
  Disposition, fail, retry, failover, class_disposition, counts_against_health,
}
use pen_stock.Router.Options.{Options, with_defaults}
use pen_stock.Router.Health.{Tracker, record_failure, record_success}
use pen_stock.Router.Selector.{Selector, order}
use pen_stock.Router.Errors.{class_of, exhausted, canceled_error, no_healthy_provider}

-- `Attempt`; a success has neither class nor error.
pub record Attempt : Type 0 where
  pub provider : String
  pub class : Option ErrorClass
  pub err : Option GoError
  pub duration : ℕ

-- `Router`. `names` are the keys of `byName`, whose values are providers of those names.
pub record Router : Type 0 where
  pub name : String
  pub names : List String
  pub health : Tracker
  pub sel : Selector
  pub opts : Options
  pub attempts : List Attempt

unfoldable pub contains : String → List String → Bool
contains p [] = false
contains p (q ∷ qs) = let rest = contains p qs in if same q p then true else rest

pub data Reply (A : Type 0) : Type 0 where
  ok : A → Reply A
  err : GoError → Reply A

pub record Env (A : Type 0) : Type 0 where
  pub start : ℕ  -- the clock when the request arrives
  pub answer : ℕ → String → Reply A  -- the upstream call
  pub ctx_before : ℕ → Option GoError  -- `ctx.Err()` before a call
  pub ctx_after : ℕ → Option GoError  -- and after a failed one
  pub clock : ℕ → ℕ  -- the clock after a call
  pub duration : ℕ → ℕ
  pub random : ℕ → ℕ → ℕ  -- `rand.Int64N`, at its argument

-- The variables of `runChain`.
pub record ChainState : Type 0 where
  pub health : Tracker
  pub used : ℕ
  pub attempts : List Attempt
  pub last_err : Option GoError
  pub waits : List ℕ

-- The delay of `backoff` before jitter, an int64: a shift that overflows is negative or zero.
unfoldable pub backoff_delay : Options → ℕ → ℕ
backoff_delay opts attempt =
    let delay = opts.retry_base_delay * 2 ^ min (attempt - 1) 16 % 2 ^ 64 in
    if ltb opts.max_retry_delay delay || (leb (2 ^ 63) delay || delay == 0)
    then opts.max_retry_delay
    else delay

is_canceled_class : ErrorClass → Bool
is_canceled_class canceled = true
is_canceled_class _ = false

abbrev is_done : Option GoError → Bool
is_done none = false
is_done (some e) = true

-- After the loop over one provider: the caller has its reply, or the next provider is tried.
abbrev pub continue_with :
    {A : Type 0}
    → (ChainState → Option (ChainState × Reply A))
    → Option (ChainState × Option (Reply A))
    → Option (ChainState × Reply A)
continue_with next none = none
continue_with next (some (s, none)) = next s
continue_with next (some (s, some reply)) = some (s, reply)

module _ {A : Type 0} (env : Env A) (on_success : Tracker → String → ℕ → Tracker) (r : Router) where
  -- What a failed call leaves behind.
  unfoldable pub failed_state : String → GoError → ChainState → ChainState
  unfolding class_of counts_against_health
  failed_state p e s =
      let class = class_of e in
      let now = env.clock s.used in
      record {
        health =
            if counts_against_health class
            then record_failure s.health p class 0 now now
            else s.health;
        used = s.used + 1;
        attempts =
            s.attempts
            ++ record {
              provider = p;
              class = some class;
              err = some e;
              duration = env.duration s.used;
            }
              ∷ [];
        last_err = some e;
        waits = s.waits;
      }

  unfoldable pub success_state : String → ChainState → ChainState
  success_state p s = record s {
    health = on_success s.health p (env.clock s.used);
    used = s.used + 1;
    attempts =
        s.attempts
        ++ record { provider = p; class = none; err = none; duration = env.duration s.used } ∷ [];
  }

  -- `backoff`: the jittered sleep.
  unfoldable pub sleep : ChainState → ChainState
  unfolding backoff_delay
  sleep s = record s { waits = s.waits ++ env.random s.used (backoff_delay r.opts s.used + 1) ∷ [] }

  -- The switch on the disposition. `again` is the next round of the loop over one provider; a result
  -- `none` beside the state means that the loop over this provider is left for the next one.
  dispose :
      Disposition
      → ℕ
      → GoError
      → (ChainState → Option (ChainState × Option (Reply A)))
      → ChainState
      → Option (ChainState × Option (Reply A))
  unfolding sleep
  dispose fail reserved e again s = some (s, some (err e))
  dispose retry reserved e again s = elim (leb r.opts.max_attempts (s.used + reserved)) [
    | true ↦ some (s, none)
    | false ↦ again (sleep s)
  ]
  dispose failover reserved e again s = some (s, none)

  -- After the call.
  unfoldable pub on_reply :
      ℕ
      → String
      → (ChainState → Option (ChainState × Option (Reply A)))
      → ChainState
      → Reply A
      → Option (ChainState × Option (Reply A))
  unfolding failed_state success_state dispose is_canceled_class class_disposition
  on_reply reserved p again s (ok a) = some (success_state p s, some (ok a))
  on_reply reserved p again s (err e) =
      if is_done (env.ctx_after s.used) && is_canceled_class (class_of e)
      then some (failed_state p e s, some (err e))
      else dispose (class_disposition (class_of e)) reserved e again (failed_state p e s)

  -- Before the call.
  on_ctx :
      ℕ
      → String
      → (ChainState → Option (ChainState × Option (Reply A)))
      → ChainState
      → Option GoError
      → Option (ChainState × Option (Reply A))
  unfolding on_reply canceled_error
  on_ctx reserved p again s (some e) = some (s, some (err (canceled_error r.name e)))
  on_ctx reserved p again s none = on_reply reserved p again s (env.answer s.used p)

  -- One round of the inner loop.
  unfoldable pub round :
      ℕ
      → String
      → (ChainState → Option (ChainState × Option (Reply A)))
      → ChainState
      → Option (ChainState × Option (Reply A))
  unfolding on_ctx exhausted
  round reserved p again s =
      if leb r.opts.max_attempts s.used
      then some (s, some (err (exhausted r.name s.last_err)))
      else on_ctx reserved p again s (env.ctx_before s.used)

  -- The inner loop, over one provider, on fuel; `none` means that the fuel ran out.
  unfoldable pub try_provider : ℕ → ℕ → String → ChainState → Option (ChainState × Option (Reply A))
  try_provider zero reserved p s = none
  try_provider (suc fuel) reserved p s = round reserved p (try_provider fuel reserved p) s

  -- The outer loop, over the order.
  unfoldable pub walk : ℕ → List String → ChainState → Option (ChainState × Reply A)
  walk fuel [] s = some (s, err (exhausted r.name s.last_err))
  walk fuel (p ∷ rest) s = elim (contains p r.names) [
    | true ↦ continue_with (walk fuel rest) (try_provider fuel (length rest) p s)
    | false ↦ walk fuel rest s
  ]
