-- ===== src/Budget/Windows.antt =====
-- internal/budget/enforcer.go: one tenant's counters, their windows, and the checks of a request
-- against them. A time is a number of nanoseconds; `now.Sub(start) >= w` is `start + w ≤ now`.
use pen_stock.Base.{ℕ, ◌+◌, ◌-◌, ◌&&◌, Option, none, some, ltb, leb, if◌then◌else◌}
use pen_stock.Budget.Types.{
  Limits, Estimate, Denial, request_rate, token_rate, daily_budget, monthly_budget,
}

abbrev pub daily_window : ℕ
daily_window = 86_400_000_000_000

abbrev pub monthly_window : ℕ
monthly_window = 2_592_000_000_000_000

abbrev pub rate_window : ℕ
rate_window = 60_000_000_000

abbrev pub second : ℕ
second = 1_000_000_000

pub record TenantState : Type 0 where
  pub daily_spent : ℕ
  pub daily_start : ℕ
  pub monthly_spent : ℕ
  pub monthly_start : ℕ
  pub committed : ℕ
  pub requests : ℕ
  pub requests_at : ℕ
  pub tokens : ℕ
  pub tokens_at : ℕ

-- A tenant that is seen for the first time.
unfoldable pub first_state : ℕ → TenantState
first_state now = record {
  daily_spent = 0;
  daily_start = now;
  monthly_spent = 0;
  monthly_start = now;
  committed = 0;
  requests = 0;
  requests_at = now;
  tokens = 0;
  tokens_at = now;
}

-- The four windows of `stateFor`, each turned over on its own.
unfoldable pub roll : TenantState → ℕ → TenantState
roll st now =
    let day = leb (st.daily_start + daily_window) now in
    let month = leb (st.monthly_start + monthly_window) now in
    let request_minute = leb (st.requests_at + rate_window) now in
    let token_minute = leb (st.tokens_at + rate_window) now in
    record {
      daily_spent = if day then 0 else st.daily_spent;
      daily_start = if day then now else st.daily_start;
      monthly_spent = if month then 0 else st.monthly_spent;
      monthly_start = if month then now else st.monthly_start;
      committed = st.committed;
      requests = if request_minute then 0 else st.requests;
      requests_at = if request_minute then now else st.requests_at;
      tokens = if token_minute then 0 else st.tokens;
      tokens_at = if token_minute then now else st.tokens_at;
    }

-- `stateFor`, on the map's entry.
unfoldable pub entry_for : Option TenantState → ℕ → TenantState
unfolding first_state roll
entry_for none now = first_state now
entry_for (some st) now = roll st now

-- `remainingIn`: what is left of the window, and a second if nothing is.
unfoldable pub remaining_in : ℕ → ℕ → ℕ
remaining_in start now = if leb (start + rate_window) now then second else start + rate_window - now

-- `checkRates`
unfoldable pub check_rates : TenantState → Limits → Estimate → ℕ → Option Denial
unfolding remaining_in
check_rates st limits est now =
    if ltb 0 limits.requests_per_minute && leb limits.requests_per_minute st.requests
    then some (record { reason = request_rate; retry_after = remaining_in st.requests_at now })
    else if ltb 0 limits.tokens_per_minute
        && ltb limits.tokens_per_minute (st.tokens + (est.prompt_tokens + est.completion_tokens))
    then some (record { reason = token_rate; retry_after = remaining_in st.tokens_at now })
    else none

-- `checkBudgets`
unfoldable pub check_budgets : TenantState → Limits → Estimate → Option Denial
check_budgets st limits est =
    if ltb 0 limits.daily_usd && ltb limits.daily_usd (st.daily_spent + st.committed + est.usd)
    then some (record { reason = daily_budget; retry_after = 0 })
    else if ltb 0 limits.monthly_usd
        && ltb limits.monthly_usd (st.monthly_spent + st.committed + est.usd)
    then some (record { reason = monthly_budget; retry_after = 0 })
    else none

-- Both, as `Reserve` makes them.
unfoldable pub check : TenantState → Limits → Estimate → ℕ → Option Denial
unfolding check_rates check_budgets
check st limits est now = elim (check_rates st limits est now) [
  | some d ↦ some d
  | none ↦ check_budgets st limits est
]

-- The claim that an admitted request makes.
unfoldable pub claim : TenantState → Estimate → TenantState
claim st est = record st {
  committed = st.committed + est.usd;
  requests = st.requests + 1;
  tokens = st.tokens + (est.prompt_tokens + est.completion_tokens);
}

-- The claim goes back; below zero is zero, as in the code.
unfoldable pub give_back : TenantState → Estimate → TenantState
give_back st est = record st { committed = st.committed - est.usd }

-- And the real cost takes its place, with the tokens that were really used.
unfoldable pub charge : TenantState → Estimate → ℕ → ℕ → TenantState
unfolding give_back
charge st est total_tokens usd =
    let st' = give_back st est in
    record st' {
      daily_spent = st.daily_spent + usd;
      monthly_spent = st.monthly_spent + usd;
      tokens = st.tokens + total_tokens - (est.prompt_tokens + est.completion_tokens);
    }
