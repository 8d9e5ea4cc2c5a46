-- ===== src/Budget/Types.antt =====
-- internal/budget/types.go and store.go. Amounts of money are exact numbers of one small unit, where
-- the code has float64 dollars: the rounding of float64 sums is not modelled. Limits, tokens and
-- amounts are natural numbers; a negative limit is read by the code as zero is, as unlimited.
use pen_stock.Base.{ℕ, Bool, String}

pub record Limits : Type 0 where
  pub requests_per_minute : ℕ
  pub tokens_per_minute : ℕ
  pub daily_usd : ℕ
  pub monthly_usd : ℕ
  pub fail_closed : Bool

pub record Estimate : Type 0 where
  pub prompt_tokens : ℕ
  pub completion_tokens : ℕ
  pub usd : ℕ

-- The id is the counter's value; the code prints it in decimal.
pub record Reservation : Type 0 where
  pub tenant : String
  pub estimate : Estimate
  pub issued_at : ℕ
  pub id : ℕ

pub data DenyReason : Type 0 where
  request_rate : DenyReason
  token_rate : DenyReason
  daily_budget : DenyReason
  monthly_budget : DenyReason
  store_degraded : DenyReason
  unknown_tenant : DenyReason

-- The message is left out.
pub record Denial : Type 0 where
  pub reason : DenyReason
  pub retry_after : ℕ

pub record SpendRow : Type 0 where
  pub tenant : String
  pub daily_usd : ℕ
  pub monthly_usd : ℕ
  pub daily_start : ℕ
  pub monthly_start : ℕ
