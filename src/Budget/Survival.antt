-- ===== src/Budget/Survival.antt =====
-- What the store keeps of a settlement (internal/budget/enforcer.go: `Settle`, then `NewDurableEnforcer`).
use pen_stock.Base.{
  ℕ, ◌+◌, ◌≡◌, refl, sym, ap, ◌∙◌, false, Option, none, some, String, List, ◌∷◌, ◌++◌, All, same,
  Bool-cases, inl, inr, leb, if◌then◌else◌, update_self,
}
use pen_stock.Budget.Types.{Limits, Reservation, SpendRow}
use pen_stock.Budget.Windows.{TenantState, roll, entry_for, charge, daily_window, monthly_window}
use pen_stock.Budget.Enforcer.{
  Enforcer, Snapshot, settle, settle_open, state_for, spent, new_durable_enforcer,
}
use pen_stock.Budget.Restart.{restart-Remembers}

-- What a tenant has spent, as the enforcer tells it.
abbrev pub spend_at : Enforcer → String → ℕ → ℕ × ℕ
spend_at e tenant now = ((spent e tenant now).1, (spent e tenant now).2)

-- What a row says of the spending in the windows that are not over.
abbrev spend_in : SpendRow → ℕ → ℕ × ℕ
spend_in row now = (
  if leb (row.daily_start + daily_window) now then 0 else row.daily_usd,
  if leb (row.monthly_start + monthly_window) now then 0 else row.monthly_usd,
)

abbrev row_of : String → TenantState → SpendRow
row_of tenant st = record {
  tenant = tenant;
  daily_usd = st.daily_spent;
  monthly_usd = st.monthly_spent;
  daily_start = st.daily_start;
  monthly_start = st.monthly_start;
}

spend_at-row_of :
    (e : Enforcer) (tenant : String) (st : TenantState) (now : ℕ)
    → e.state tenant ≡ some st
    → spend_at e tenant now ≡ spend_in (row_of tenant st) now
unfolding spent state_for entry_for roll
spend_at-row_of e tenant st now h = rw h refl

abbrev row_or : SpendRow → Option Snapshot → SpendRow
row_or row none = row
row_or row (some s) = s.row

-- A settlement that gives a row gives that of the entry that it leaves.
settle-row :
    (e : Enforcer) (r : Reservation) (total usd now : ℕ) (s : Snapshot)
    → (settle e r total usd now).1 ≡ some s
    → let st = charge (state_for e r.tenant now) r.estimate total usd in
      (row_of r.tenant st ≡ s.row) × ((settle e r total usd now).0.state r.tenant ≡ some st)
unfolding settle settle_open
settle-row e r total usd now s h = elim (Bool-cases (e.done r.id)) [
  | inl d ↦ absurd (cc (rw d at h))
  | inr d ↦ elim (Bool-cases e.has_store) [
    | inl k ↦ rw (d, k) (ap (row_or s.row) (rw (d, k) at h), update_self e.state r.tenant _)
    | inr k ↦ absurd (cc (rw (d, k) at h))
  ]
]

-- Settled spending survives a restart: if the row that a settlement gives is the tenant's last row in
-- the store, and the tenant is still configured, then an enforcer that is restored from the store at any
-- time tells at every later time the same daily and the same monthly spending of the tenant as the
-- enforcer that settled, where neither has admitted or settled anything since.
pub settled_spend_survives :
    (limits : String → Option Limits) (l : Limits) (e e' : Enforcer) (r : Reservation)
    (total usd now boot later : ℕ) (s : Snapshot) (before after : List SpendRow)
    → limits r.tenant ≡ some l
    → (settle e r total usd now).1 ≡ some s
    → All (λ q. same q.tenant s.row.tenant ≡ false) after
    → new_durable_enforcer limits (some (before ++ s.row ∷ after)) boot ≡ some e'
    → spend_at e' r.tenant later ≡ spend_at (settle e r total usd now).0 r.tenant later
settled_spend_survives limits l e e' r total usd now boot later s before after k settled last h =
    let (same_row, left) = settle-row e r total usd now s settled in
    let one_tenant : r.tenant ≡ s.row.tenant = ap (λ row. row.tenant) same_row in
    let known = ap limits (sym one_tenant) ∙ k in
    let (day, month, claims) =
      restart-Remembers limits before after s.row l boot later e' known last h in
    ap (λ t. spend_at e' t later) one_tenant
    ∙ ap (λ d. (d, (spent e' s.row.tenant later).2)) day
    ∙ ap (λ m. ((spend_in s.row later).0, m)) month
    ∙ ap (λ row. spend_in row later) (sym same_row)
    ∙ sym (spend_at-row_of (settle e r total usd now).0 r.tenant _ later left)
