-- ===== src/Budget/Restart.antt =====
-- What an enforcer knows after a restart (internal/budget/enforcer.go, `NewDurableEnforcer`).
use pen_stock.Base.{
  ℕ, ◌+◌, ◌≡◌, refl, ap, subst, ◌∙◌, true, false, Option, none, some, String, List, [], ◌∷◌, ◌++◌,
  All, if◌then◌else◌, leb, same, update_self,
}
use pen_stock.Budget.Types.{Limits, SpendRow}
use pen_stock.Budget.Windows.{roll, entry_for, daily_window, monthly_window}
use pen_stock.Budget.Enforcer.{
  Enforcer, new_enforcer, restored, restore_row, restore, new_durable_enforcer, state_for, spent,
  committed,
}

row-limits :
    (o : Option Limits) (e : Enforcer) (row : SpendRow) (now : ℕ)
    → (restore_row o e row now).limits ≡ e.limits
unfolding restore_row
row-limits none e row now = refl
row-limits (some l) e row now = refl

row-other :
    (o : Option Limits) (e : Enforcer) (row : SpendRow) (now : ℕ) (t : String)
    → same row.tenant t ≡ false
    → (restore_row o e row now).state t ≡ e.state t
unfolding restore_row
row-other none e row now t h = refl
row-other (some l) e row now t h = rw h refl

restore-other :
    (rows : List SpendRow) (e : Enforcer) (now : ℕ) (t : String)
    → All (λ q. same q.tenant t ≡ false) rows
    → (restore e rows now).state t ≡ e.state t
unfolding restore
restore-other [] e now t h = refl
restore-other (row ∷ rows) e now t h =
    restore-other rows (restore_row (e.limits row.tenant) e row now) now t h.1
    ∙ row-other (e.limits row.tenant) e row now t h.0

restore-here :
    (before after : List SpendRow) (row : SpendRow) (e : Enforcer) (now : ℕ) (l : Limits)
    → e.limits row.tenant ≡ some l
    → All (λ q. same q.tenant row.tenant ≡ false) after
    → (restore e (before ++ row ∷ after) now).state row.tenant ≡ some (restored row now)
unfolding restore restore_row
restore-here [] after row e now l k h =
    restore-other after (restore_row (e.limits row.tenant) e row now) now row.tenant h
    ∙ rw k (update_self e.state row.tenant (restored row now))
restore-here (q ∷ before) after row e now l k h =
    restore-here before after row (restore_row (e.limits q.tenant) e q now) now l
      (ap (λ f. f row.tenant) (row-limits (e.limits q.tenant) e q now) ∙ k) h

-- A restored tenant's counters, at a time.
abbrev pub Remembers : SpendRow → ℕ → Enforcer → Type 0
Remembers row now e =
    ((spent e row.tenant now).1
      ≡ (if leb (row.daily_start + daily_window) now then 0 else row.daily_usd))
    × ((spent e row.tenant now).2
        ≡ (if leb (row.monthly_start + monthly_window) now then 0 else row.monthly_usd))
    × ((committed e row.tenant now).1 ≡ 0)

abbrev pub OnSome : (Enforcer → Type 0) → Option Enforcer → Type 0
OnSome P none = Unit {0}
OnSome P (some e) = P e

remembers :
    (e : Enforcer) (row : SpendRow) (now later : ℕ)
    → e.state row.tenant ≡ some (restored row now)
    → Remembers row later e
unfolding spent committed state_for entry_for roll restored
remembers e row now later h = rw h (refl, refl, refl)

-- A restart forgives no spending: a configured tenant whose last row in the store is `row` has spent
-- what that row says, in each window that is not over by the time one looks, and nothing in one that
-- is; and it has nothing committed.
pub restart-Remembers :
    (limits : String → Option Limits) (before after : List SpendRow) (row : SpendRow) (l : Limits)
    (now later : ℕ) (e : Enforcer)
    → limits row.tenant ≡ some l
    → All (λ q. same q.tenant row.tenant ≡ false) after
    → new_durable_enforcer limits (some (before ++ row ∷ after)) now ≡ some e
    → Remembers row later e
unfolding new_durable_enforcer new_enforcer
restart-Remembers limits before after row l now later e k h q =
    subst (OnSome (Remembers row later)) q (
      remembers _ row now later (
        restore-here before after row (record (new_enforcer limits) { has_store = true }) now l k
          h))
