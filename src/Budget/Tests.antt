-- ===== src/Budget/Tests.antt =====
-- Examples for internal/budget: one tenant with a daily cap of 100.
use pen_stock.Base.{
  ℕ, ◌<◌, ◌≤◌, ◌≡◌, ◌⊎◌, refl, Bool, true, false, Option, none, some, String, [], ◌∷◌, arith, same,
  if◌then◌else◌,
}
use pen_stock.Providers.Samples.{toy_codec}
use pen_stock.Pricing.{Table}
use pen_stock.Budget.Guard.{price}
use pen_stock.Budget.Estimator.{EstimatorOptions, new_estimator, estimate, estimate_usd}
use pen_stock.Budget.Estimator.Cover.{
  ClientCaps, CoversPrompt, estimate-covers, estimate_usd-covers,
}
use pen_stock.Budget.Types.{SpendRow, Limits, Estimate, Reservation, Denial, daily_budget}
use pen_stock.Budget.Windows.{
  check, check_rates, check_budgets, charge, claim, entry_for, first_state, roll,
}
use pen_stock.Budget.Enforcer.{
  restore, new_durable_enforcer, Enforcer, admitted, denied, Snapshot, reserve, reserve_known,
  admit, settle, settle_open, release, committed, new_enforcer, state_for, put_state, bump,
}
use pen_stock.Budget.Admission.{WithinLimits, NoMore, reserve-within, reserve-denied}
use pen_stock.Budget.Beginning.{History, starting, restored_from}
use pen_stock.Budget.World.{World, admits, Reach, here, next}
use pen_stock.Budget.Overshoot.{committed-outstanding}
use pen_stock.Budget.Survival.{spend_at, settled_spend_survives}
use pen_stock.Budget.Restart.{Remembers, restart-Remembers}
use pen_stock.Budget.Once.{settles-once}
use pen_stock.Budget.Durability.{persist_all, newest_snapshot_wins}

abbrev daily_hundred : Limits
daily_hundred = record {
  requests_per_minute = 0;
  tokens_per_minute = 0;
  daily_usd = 100;
  monthly_usd = 0;
  fail_closed = true;
}

abbrev acme_only : String → Option Limits
acme_only t = if same t "acme" then some daily_hundred else none

abbrev sixty : Estimate
sixty = record { prompt_tokens = 10; completion_tokens = 20; usd = 60 }

abbrev first_request : Reservation
first_request = record { tenant = "acme"; estimate = sixty; issued_at = 5; id = 1 }

-- A durable enforcer whose store is empty.
abbrev start : Enforcer
start = record (new_enforcer acme_only) { has_store = true }

abbrev after_first : Enforcer
after_first = record (put_state start "acme" (claim (state_for start "acme" 5) sixty)) {
  next_id = 1;
}

first_admitted : reserve start "acme" sixty 5 ≡ (after_first, admitted first_request)
unfolding reserve reserve_known admit check check_rates check_budgets new_enforcer state_for
    entry_for first_state
first_admitted = refl

abbrev second_denial : Denial
second_denial = record { reason = daily_budget; retry_after = 0 }

second_denied :
    reserve after_first "acme" sixty 6
    ≡ (put_state after_first "acme" (state_for after_first "acme" 6), denied second_denial)
unfolding reserve reserve_known admit check check_rates check_budgets new_enforcer state_for
    entry_for first_state roll claim
second_denied = refl

reserve-within_example :
    (l : Limits) × (start.limits "acme" ≡ some l)
    × ((start.healthy ≡ true) ⊎ (l.fail_closed ≡ false))
    × WithinLimits l (after_first.state "acme")
reserve-within_example =
    reserve-within start after_first "acme" sixty 5 first_request first_admitted

reserve-denied_example :
    NoMore
      (after_first.state "acme")
      ((put_state after_first "acme" (state_for after_first "acme" 6)).state "acme")
    × (after_first.next_id ≡ 1)
    × (after_first.done ≡ after_first.done)
reserve-denied_example =
    reserve-denied after_first _ "acme" sixty 6 second_denial "acme" second_denied

-- One request, admitted at an estimate of 60 and settled at 130.
abbrev in_flight : World
in_flight = record {
  enforcer = after_first;
  outstanding = first_request ∷ [];
  excess = bump (λ _. 0) "acme" 0;
}

abbrev over_budget : World
over_budget = record {
  enforcer = (settle after_first first_request 30 130 7).0;
  outstanding = [];
  excess = bump in_flight.excess "acme" 70;
}

in_flight-reached : Reach (starting acme_only start) in_flight
unfolding new_enforcer
in_flight-reached =
    next here (admits "acme" sixty 5 after_first first_request (omega arith) first_admitted)

in_flight-History : History acme_only in_flight
unfolding new_durable_enforcer restore
in_flight-History = record {
  start = starting acme_only start;
  begins = restored_from [] 5 start refl;
  path = in_flight-reached;
}

committed-outstanding_example : (committed after_first "acme" 8).1 ≡ 60
committed-outstanding_example = committed-outstanding acme_only in_flight "acme" 8 in_flight-History

settles-once_example :
    (settle (settle after_first first_request 30 130 7).0 first_request 1 5 9
      ≡ ((settle after_first first_request 30 130 7).0, none))
    × (release (settle after_first first_request 30 130 7).0 first_request 9
        ≡ (settle after_first first_request 30 130 7).0)
    × (settle (release after_first first_request 7) first_request 1 5 9
        ≡ (release after_first first_request 7, none))
    × (release (release after_first first_request 7) first_request 9
        ≡ release after_first first_request 7)
settles-once_example = settles-once after_first first_request 30 130 7 1 5 9

abbrev durable : Enforcer
durable = record after_first { has_store = true }

abbrev total_at : ℕ → Snapshot
total_at n = record {
  row = record {
    tenant = "acme";
    daily_usd = n;
    monthly_usd = n;
    daily_start = 0;
    monthly_start = 0;
  };
  seq = n;
}

abbrev write : ℕ → Bool → Snapshot × Bool
write n saved = (total_at n, saved)

-- The second total is written first, and the third write is refused.
newest_snapshot_wins_example :
    (persist_all durable (λ _. none) (write 1 false ∷ write 3 true ∷ write 2 true ∷ [])).1 "acme"
    ≡ some (total_at 3).row
unfolding new_enforcer
newest_snapshot_wins_example =
    newest_snapshot_wins durable (λ _. none) (total_at 3) (write 1 false ∷ []) (write 2 true ∷ [])
      (omega arith) ((λ h. omega arith), tt) ((λ h. omega arith), tt)

abbrev old_row : SpendRow
old_row = record {
  tenant = "acme";
  daily_usd = 70;
  monthly_usd = 90;
  daily_start = 0;
  monthly_start = 0;
}

abbrev gone_row : SpendRow
gone_row = record {
  tenant = "zenith";
  daily_usd = 5;
  monthly_usd = 5;
  daily_start = 0;
  monthly_start = 0;
}

-- "zenith" is no longer configured.
abbrev restarted : Enforcer
restarted = restore start (old_row ∷ gone_row ∷ []) 10

restart-Remembers_example : Remembers old_row 20 restarted
unfolding new_durable_enforcer
restart-Remembers_example =
    restart-Remembers acme_only [] (gone_row ∷ []) old_row daily_hundred 10 20 restarted refl
      (refl, tt) refl

-- What the first request leaves for the store.
abbrev first_row : SpendRow
first_row = record {
  tenant = "acme";
  daily_usd = 130;
  monthly_usd = 130;
  daily_start = 5;
  monthly_start = 5;
}

first_settled :
    (settle after_first first_request 30 130 7).1 ≡ some (record { row = first_row; seq = 1 })
unfolding settle settle_open state_for entry_for roll charge claim first_state new_enforcer
first_settled = refl

settled_spend_survives_example :
    spend_at (restore start (gone_row ∷ first_row ∷ []) 10) "acme" 20
    ≡ spend_at (settle after_first first_request 30 130 7).0 "acme" 20
unfolding new_durable_enforcer
settled_spend_survives_example =
    settled_spend_survives acme_only daily_hundred after_first
      (restore start (gone_row ∷ first_row ∷ []) 10) first_request 30 130 7 10 20
      (record { row = first_row; seq = 1 }) (gone_row ∷ []) [] refl first_settled tt refl

abbrev prices : Table
prices = record {
  version = 3;
  prices = λ k.
      if same k "groq/llama"
      then some (record { input_per_mtok = 2; output_per_mtok = 3; free = false })
      else none;
}

abbrev ceiling : EstimatorOptions
ceiling = record { default_completion_tokens = 0; max_completion_tokens = 600 }

estimate-covers_example :
    let est = estimate toy_codec (new_estimator none none ceiling) "auto" (1 ∷ 2 ∷ 3 ∷ []) in
    (0 < est.completion_tokens)
    × ((ceiling.max_completion_tokens ≡ 0)
        ⊎ (est.completion_tokens ≤ ceiling.max_completion_tokens))
    × ClientCaps (toy_codec.chat_body (1 ∷ 2 ∷ 3 ∷ [])) est.completion_tokens
    × CoversPrompt (toy_codec.chat_body (1 ∷ 2 ∷ 3 ∷ [])) (1 ∷ 2 ∷ 3 ∷ []) est.prompt_tokens
estimate-covers_example = estimate-covers toy_codec none none ceiling "auto" (1 ∷ 2 ∷ 3 ∷ [])

estimate_usd-covers_example :
    price
      (some prices)
      (some (λ p. p))
      "groq"
      "llama"
      (record { prompt_tokens = 4; completion_tokens = 9; total_tokens = 13 })
    ≤ estimate_usd (some prices) (some (λ m. ("groq", "llama"))) "auto" 5 10
estimate_usd-covers_example =
    estimate_usd-covers prices (λ m. ("groq", "llama")) (λ p. p) "auto" "llama" "groq"
      (record { prompt_tokens = 4; completion_tokens = 9; total_tokens = 13 }) 5 10 refl refl refl
      (omega arith) (omega arith)
