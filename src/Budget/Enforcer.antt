-- ===== src/Budget/Enforcer.antt =====
-- internal/budget/enforcer.go: `MemEnforcer`. A method takes the enforcer and returns the new one.
-- What runs under the mutex `mu` is one step; `persist` runs later, under `storeMu`, so a settlement
-- returns the snapshot that remains to be written. The clock's reading is an argument.
use pen_stock.Base.{
  ℕ, ◌+◌, ◌%◌, ◌^◌, Bool, true, false, not, ◌&&◌, Option, none, some, String, List, [], ◌∷◌, leb,
  ◌==◌, if◌then◌else◌, same, update,
}
use pen_stock.Budget.Types.{
  Limits, Estimate, Reservation, Denial, store_degraded, unknown_tenant, SpendRow,
}
use pen_stock.Budget.Windows.{TenantState, entry_for, check, claim, give_back, charge}

pub record Enforcer : Type 0 where
  pub limits : String → Option Limits
  pub state : String → Option TenantState
  pub healthy : Bool
  pub next_id : ℕ  -- uint64
  pub done : ℕ → Bool
  pub has_store : Bool
  pub seq : String → ℕ
  pub written : String → ℕ

-- `NewEnforcer`
unfoldable pub new_enforcer : (String → Option Limits) → Enforcer
new_enforcer limits = record {
  limits = limits;
  state = λ _. none;
  healthy = true;
  next_id = 0;
  done = λ _. false;
  has_store = false;
  seq = λ _. 0;
  written = λ _. 0;
}

-- A restored tenant.
unfoldable pub restored : SpendRow → ℕ → TenantState
restored row now = record {
  daily_spent = row.daily_usd;
  daily_start = row.daily_start;
  monthly_spent = row.monthly_usd;
  monthly_start = row.monthly_start;
  committed = 0;
  requests = 0;
  requests_at = now;
  tokens = 0;
  tokens_at = now;
}

unfoldable pub restore_row : Option Limits → Enforcer → SpendRow → ℕ → Enforcer
unfolding restored
restore_row none e row now = e
restore_row (some l) e row now = record e { state = update e.state row.tenant (restored row now) }

-- The loop of `NewDurableEnforcer` over the rows.
unfoldable pub restore : Enforcer → List SpendRow → ℕ → Enforcer
unfolding restore_row
restore e [] now = e
restore e (row ∷ rows) now = restore (restore_row (e.limits row.tenant) e row now) rows now

-- `NewDurableEnforcer`: the store's rows, or `none` where `Load` fails, which is fatal.
unfoldable pub new_durable_enforcer :
    (String → Option Limits) → Option (List SpendRow) → ℕ → Option Enforcer
unfolding restore new_enforcer
new_durable_enforcer limits none now = none
new_durable_enforcer limits (some rows) now =
    some (restore (record (new_enforcer limits) { has_store = true }) rows now)

-- `stateFor`
unfoldable pub state_for : Enforcer → String → ℕ → TenantState
state_for e tenant now = entry_for (e.state tenant) now

abbrev pub put_state : Enforcer → String → TenantState → Enforcer
put_state e tenant st = record e { state = update e.state tenant st }

-- `SetStoreHealthy`
abbrev pub set_store_healthy : Enforcer → Bool → Enforcer
set_store_healthy e healthy = record e { healthy = healthy }

-- `Spent` and `Committed`: both roll the windows.
unfoldable pub spent : Enforcer → String → ℕ → Enforcer × ℕ × ℕ
unfolding state_for
spent e tenant now =
    let st = state_for e tenant now in (put_state e tenant st, st.daily_spent, st.monthly_spent)

unfoldable pub committed : Enforcer → String → ℕ → Enforcer × ℕ
unfolding state_for
committed e tenant now = let st = state_for e tenant now in (put_state e tenant st, st.committed)

pub data Admission : Type 0 where
  admitted : Reservation → Admission
  denied : Denial → Admission

-- What the checks leave: a refusal, or the claim.
unfoldable pub admit :
    Option Denial → Enforcer → String → TenantState → Estimate → ℕ → Enforcer × Admission
unfolding claim
admit (some d) e tenant st est now = (put_state e tenant st, denied d)
admit none e tenant st est now =
    let id = (e.next_id + 1) % 2 ^ 64 in
    (
      record (put_state e tenant (claim st est)) { next_id = id },
      admitted (record { tenant = tenant; estimate = est; issued_at = now; id = id }),
    )

unfoldable pub reserve_known :
    Option Limits → Enforcer → String → Estimate → ℕ → Enforcer × Admission
unfolding admit state_for
reserve_known none e tenant est now =
    (e, denied (record { reason = unknown_tenant; retry_after = 0 }))
reserve_known (some limits) e tenant est now =
    let st = state_for e tenant now in
    if not e.healthy && limits.fail_closed
    then (e, denied (record { reason = store_degraded; retry_after = 0 }))
    else admit (check st limits est now) e tenant st est now

-- `Reserve`
unfoldable pub reserve : Enforcer → String → Estimate → ℕ → Enforcer × Admission
unfolding reserve_known
reserve e tenant est now = reserve_known (e.limits tenant) e tenant est now

abbrev pub mark : (ℕ → Bool) → ℕ → ℕ → Bool
mark done id j = if id == j then true else done j

abbrev pub bump : (String → ℕ) → String → ℕ → String → ℕ
bump m k n j = if same k j then n else m j

-- A snapshot on its way to the store: the row and its sequence number.
pub record Snapshot : Type 0 where
  pub row : SpendRow
  pub seq : ℕ

unfoldable pub settle_open : Enforcer → Reservation → ℕ → ℕ → ℕ → Enforcer × Option Snapshot
unfolding state_for charge
settle_open e r total_tokens usd now =
    let st = charge (state_for e r.tenant now) r.estimate total_tokens usd in
    let e' = record (put_state e r.tenant st) { done = mark e.done r.id } in
    let n = (e.seq r.tenant + 1) % 2 ^ 64 in
    if e.has_store
    then (
      record e' { seq = bump e.seq r.tenant n },
      some (record {
        row = record {
          tenant = r.tenant;
          daily_usd = st.daily_spent;
          monthly_usd = st.monthly_spent;
          daily_start = st.daily_start;
          monthly_start = st.monthly_start;
        };
        seq = n;
      }),
    )
    else (e', none)

-- `Settle` up to the release of `mu`.
unfoldable pub settle : Enforcer → Reservation → ℕ → ℕ → ℕ → Enforcer × Option Snapshot
unfolding settle_open
settle e r total_tokens usd now =
    if e.done r.id then (e, none) else settle_open e r total_tokens usd now

-- `Release`
unfoldable pub release : Enforcer → Reservation → ℕ → Enforcer
unfolding state_for give_back
release e r now =
    if e.done r.id
    then e
    else record (put_state e r.tenant (give_back (state_for e r.tenant now) r.estimate)) {
      done = mark e.done r.id;
    }

-- `persist`, given whether `Save` succeeds; the disk is the store's rows.
unfoldable pub persist :
    Enforcer
    → (String → Option SpendRow)
    → Snapshot
    → Bool
    → Enforcer × (String → Option SpendRow) × Bool
persist e disk s saved =
    if leb s.seq (e.written s.row.tenant)
    then (e, disk, true)
    else if saved
    then (
      record e { written = bump e.written s.row.tenant s.seq; healthy = true },
      update disk s.row.tenant s.row,
      true,
    )
    else (set_store_healthy e false, disk, false)
