-- ===== src/Router/Options.antt =====
-- internal/router/types.go: the options of one routed model. Counts and durations (nanoseconds) are
-- natural numbers: a negative value is read by the code as zero is, that is as unset.
use pen_stock.Base.{ℕ, Option, none, some, leb, if◌then◌else◌}

pub data Strategy : Type 0 where
  priority : Strategy
  least_latency : Strategy
  round_robin : Strategy

pub record Options : Type 0 where
  pub strategy : Option Strategy  -- `none` is the empty string
  pub max_attempts : ℕ
  pub retry_base_delay : ℕ
  pub max_retry_delay : ℕ
  pub breaker_threshold : ℕ
  pub breaker_cooldown : ℕ

abbrev pub millisecond : ℕ
millisecond = 1_000_000

abbrev pub second : ℕ
second = 1_000_000_000

abbrev pub minute : ℕ
minute = 60_000_000_000

abbrev pub default_max_attempts : ℕ
default_max_attempts = 3

abbrev pub default_retry_base_delay : ℕ
default_retry_base_delay = 100_000_000

abbrev pub default_max_retry_delay : ℕ
default_max_retry_delay = 2_000_000_000

abbrev pub default_breaker_threshold : ℕ
default_breaker_threshold = 5

abbrev pub default_breaker_cooldown : ℕ
default_breaker_cooldown = 30_000_000_000

-- `if field <= 0 { field = def }`
abbrev or_default : ℕ → ℕ → ℕ
or_default v d = if leb v 0 then d else v

or_priority : Option Strategy → Option Strategy
or_priority none = some priority
or_priority (some s) = some s

-- `withDefaults`
unfoldable pub with_defaults : Options → Options
unfolding or_priority
with_defaults o = record {
  strategy = or_priority o.strategy;
  max_attempts = or_default o.max_attempts default_max_attempts;
  retry_base_delay = or_default o.retry_base_delay default_retry_base_delay;
  max_retry_delay = or_default o.max_retry_delay default_max_retry_delay;
  breaker_threshold = or_default o.breaker_threshold default_breaker_threshold;
  breaker_cooldown = or_default o.breaker_cooldown default_breaker_cooldown;
}
