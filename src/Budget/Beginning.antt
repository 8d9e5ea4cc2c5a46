-- ===== src/Budget/Beginning.antt =====
-- How the histories of Budget/World.antt begin: `NewEnforcer` and `NewDurableEnforcer` of
-- internal/budget/enforcer.go.
use pen_stock.Base.{
  ℕ, ◌-◌, ◌≡◌, refl, subst, true, false, Option, none, some, String, List, [], ◌∷◌, arith, leb,
  same, Bool-cases, inl, inr, if◌then◌else◌,
}
use pen_stock.Budget.Types.{Limits, SpendRow}
use pen_stock.Budget.Windows.{TenantState}
use pen_stock.Budget.Enforcer.{
  Enforcer, new_enforcer, restored, restore_row, restore, new_durable_enforcer,
}
use pen_stock.Budget.World.{World, opening, Reach}
use pen_stock.Budget.Books.{Good, limits_or, AccountOf, opening-Good}
use pen_stock.Budget.Restart.{OnSome}

-- By how much what an entry has spent is beyond the caps, by the cap that it is more beyond.
abbrev pub overrun : Limits → Option TenantState → ℕ
overrun l none = 0
overrun l (some st) =
    if leb (st.daily_spent - l.daily_usd) (st.monthly_spent - l.monthly_usd)
    then st.monthly_spent - l.monthly_usd
    else st.daily_spent - l.daily_usd

-- An enforcer at its start; the spending that it found in its store may be beyond the caps.
abbrev pub starting : (String → Option Limits) → Enforcer → World
starting limits e = record {
  enforcer = e;
  outstanding = [];
  excess = λ t. overrun (limits_or (limits t)) (e.state t);
}

-- The beginning of a history: a new enforcer, or one that is restored from any rows of its store.
pub data Begins (limits : String → Option Limits) : World → Type 0 where
  from_new : Begins limits (opening limits)
  restored_from :
      (rows : List SpendRow) (now : ℕ) (e : Enforcer)
      → new_durable_enforcer limits (some rows) now ≡ some e
      → Begins limits (starting limits e)

-- A history of an enforcer, from its beginning.
pub record History (limits : String → Option Limits) (w : World) : Type 0 where
  pub start : World
  pub begins : Begins limits start
  pub path : Reach start w

abbrev IsIdle : Option TenantState → Type 0
IsIdle none = Unit {0}
IsIdle (some st) = st.committed ≡ 0

-- An enforcer that has admitted nothing.
record Quiet (limits : String → Option Limits) (e : Enforcer) : Type 0 where
  same_limits : e.limits ≡ limits
  idle : (t : String) → IsIdle (e.state t)
  not_done : (i : ℕ) → e.done i ≡ false

restore_row-Quiet :
    (limits : String → Option Limits) (o : Option Limits) (e : Enforcer) (row : SpendRow) (now : ℕ)
    → Quiet limits e
    → Quiet limits (restore_row o e row now)
unfolding restore_row restored
restore_row-Quiet limits none e row now q = q
restore_row-Quiet limits (some l) e row now q = record {
  same_limits = q.same_limits;
  idle = λ t. elim (Bool-cases (same row.tenant t)) [ inl h ↦ rw h refl | inr h ↦ rw h (q.idle t) ];
  not_done = q.not_done;
}

restore-Quiet :
    (limits : String → Option Limits) (rows : List SpendRow) (e : Enforcer) (now : ℕ)
    → Quiet limits e
    → Quiet limits (restore e rows now)
unfolding restore
restore-Quiet limits [] e now q = q
restore-Quiet limits (row ∷ rows) e now q =
    restore-Quiet limits rows (restore_row (e.limits row.tenant) e row now) now
      (restore_row-Quiet limits (e.limits row.tenant) e row now q)

idle-AccountOf : (l : Limits) (o : Option TenantState) → IsIdle o → AccountOf l 0 (overrun l o) o
idle-AccountOf l none h = refl
idle-AccountOf l (some st) h = record {
  claims = h;
  daily = λ c. ground arith;
  monthly = λ c. ground arith;
}

Quiet-Good :
    (limits : String → Option Limits) (e : Enforcer)
    → Quiet limits e
    → Good limits (starting limits e)
Quiet-Good limits e q = record {
  same_limits = q.same_limits;
  accounts = λ t. idle-AccountOf (limits_or (limits t)) (e.state t) (q.idle t);
  ids = tt;
  open_ids = tt;
  new_ids = λ i h. q.not_done i;
}

pub Begins-Good : (limits : String → Option Limits) (w : World) → Begins limits w → Good limits w
unfolding new_durable_enforcer new_enforcer
Begins-Good limits w from_new = opening-Good limits
Begins-Good limits w (restored_from rows now e q) =
    subst (OnSome (λ e. Good limits (starting limits e))) q (
      Quiet-Good limits _ (
        restore-Quiet limits rows (record (new_enforcer limits) { has_store = true }) now
          (record { same_limits = refl; idle = λ t. tt; not_done = λ i. refl })))
