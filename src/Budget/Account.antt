-- ===== src/Budget/Account.antt =====
-- One tenant's counters against its limits (internal/budget/enforcer.go): what each change of them
-- does to the balance.
use pen_stock.Base.{ℕ, ◌+◌, ◌-◌, ◌<◌, ◌≤◌, ◌≡◌, ◌⊎◌, none, arith}
use pen_stock.Budget.Types.{Limits, Estimate}
use pen_stock.Budget.Windows.{TenantState, roll, first_state, check, claim, give_back, charge}

-- A cap of zero is none.
abbrev pub WithinCap : ℕ → ℕ → Type 0
WithinCap cap amount = (cap ≡ 0) ⊎ (amount ≤ cap)

pub within_cap : (cap amount : ℕ) → (0 < cap → amount ≤ cap) → WithinCap cap amount
within_cap cap amount h = ground (arith, h)

-- `out` is what the outstanding reservations have claimed, `excess` by how much the settlements since
-- the last admission have outrun their estimates.
pub record Account (l : Limits) (out excess : ℕ) (st : TenantState) : Type 0 where
  pub claims : st.committed ≡ out
  pub daily : 0 < l.daily_usd → st.daily_spent + st.committed ≤ l.daily_usd + excess
  pub monthly : 0 < l.monthly_usd → st.monthly_spent + st.committed ≤ l.monthly_usd + excess

pub first-Account : (l : Limits) (excess now : ℕ) → Account l 0 excess (first_state now)
unfolding first_state
first-Account l excess now = omega arith

pub roll-Account :
    (l : Limits) (out excess now : ℕ) (st : TenantState)
    → Account l out excess st
    → Account l out excess (roll st now)
unfolding roll
roll-Account l out excess now st h = ground arith

-- What passes the checks fits.
pub check-fits :
    (st : TenantState) (l : Limits) (est : Estimate) (now : ℕ)
    → check st l est now ≡ none
    → (0 < l.requests_per_minute → st.requests < l.requests_per_minute)
      × (0 < l.tokens_per_minute
          → st.tokens + (est.prompt_tokens + est.completion_tokens) ≤ l.tokens_per_minute)
      × (0 < l.daily_usd → st.daily_spent + st.committed + est.usd ≤ l.daily_usd)
      × (0 < l.monthly_usd → st.monthly_spent + st.committed + est.usd ≤ l.monthly_usd)
unfolding check
check-fits st l est now h = ground arith

pub claim-Account :
    (l : Limits) (out excess now : ℕ) (st : TenantState) (est : Estimate)
    → Account l out excess st
    → check st l est now ≡ none
    → Account l (out + est.usd) 0 (claim st est)
unfolding claim
claim-Account l out excess now st est h c =
    omega (arith, (check-fits st l est now c).2, (check-fits st l est now c).3)

pub give_back-Account :
    (l : Limits) (out excess : ℕ) (st : TenantState) (est : Estimate)
    → Account l (out + est.usd) excess st
    → Account l out excess (give_back st est)
unfolding give_back
give_back-Account l out excess st est h = omega arith

pub charge-Account :
    (l : Limits) (out excess total usd : ℕ) (st : TenantState) (est : Estimate)
    → Account l (out + est.usd) excess st
    → Account l out (excess + (usd - est.usd)) (charge st est total usd)
unfolding charge
charge-Account l out excess total usd st est h = omega arith
