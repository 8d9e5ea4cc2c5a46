-- ===== src/Budget/Overshoot.antt =====
-- The overshoot bound that internal/budget/types.go promises and internal/budget/enforcer.go has to
-- keep, and the claims of the outstanding requests.
use pen_stock.Base.{
  ℕ, ◌+◌, ◌^◌, ◌<◌, ◌≤◌, ◌≡◌, ◌⊎◌, sym, subst, Option, String, ◌∷◌, inl, inr, Bool, true, false,
  if◌then◌else◌, leb, update,
}
use pen_stock.Budget.Types.{Limits, Estimate, Denial, SpendRow}
use pen_stock.Budget.Windows.{entry_for}
use pen_stock.Budget.Account.{Account}
use pen_stock.Budget.Enforcer.{
  Enforcer, Admission, Snapshot, persist, set_store_healthy, admitted, denied, reserve, spent,
  committed, bump, state_for,
}
use pen_stock.Budget.Admission.{
  ReserveCase, unknown, blind, over, fits, reserve-case, reserve-denied_enforcer,
}
use pen_stock.Budget.World.{
  World, claims_of, Step, admits, refuses, settles, releases, reads, writes, store_turns, Reach,
  here, next,
}
use pen_stock.Budget.Books.{Good, limits_or, rolled-Good, admits-Good, entry_for-Account}
use pen_stock.Budget.Beginning.{Begins-Good, History}
use pen_stock.Budget.Settling.{release-Good, settle-Good}

-- What a call of `Reserve` leaves, whichever way it goes.
abbrev pub AfterReserve : (String → Option Limits) → World → String → Enforcer × Admission → Type 0
AfterReserve limits w tenant (e, admitted r) =
    Good limits
      (record { enforcer = e; outstanding = r ∷ w.outstanding; excess = bump w.excess tenant 0 })
AfterReserve limits w tenant (e, denied d) = Good limits (record w { enforcer = e })

reserve-Good :
    (limits : String → Option Limits) (w : World) (tenant : String) (est : Estimate) (now : ℕ)
    → Good limits w
    → w.enforcer.next_id + 1 < 2 ^ 64
    → AfterReserve limits w tenant (reserve w.enforcer tenant est now)
reserve-Good limits w tenant est now g small = go (reserve-case w.enforcer tenant est now)
  where
    go :
        ReserveCase w.enforcer tenant est now (reserve w.enforcer tenant est now)
        → AfterReserve limits w tenant (reserve w.enforcer tenant est now)
    go (unknown u k) = subst (AfterReserve limits w tenant) (sym k) g
    go (blind l k h f c) = subst (AfterReserve limits w tenant) (sym c) g
    go (over l d k c x) =
        subst (AfterReserve limits w tenant) (sym x) (rolled-Good limits w tenant now g)
    go (fits l k h c x) =
        subst (AfterReserve limits w tenant) (sym x)
          (admits-Good limits w tenant est now l g small k c)

refused-Good :
    (limits : String → Option Limits) (w : World) (tenant : String) (est : Estimate) (now : ℕ)
    (e' : Enforcer) (d : Denial)
    → Good limits w
    → reserve w.enforcer tenant est now ≡ (e', denied d)
    → Good limits (record w { enforcer = e' })
refused-Good limits w tenant est now e' d g q =
    elim (reserve-denied_enforcer w.enforcer e' tenant est now d q) [
      | inl h ↦ subst (λ e. Good limits (record w { enforcer = e })) (sym h) g
      | inr h ↦
          subst (λ e. Good limits (record w { enforcer = e })) (sym h)
            (rolled-Good limits w tenant now g)
    ]

-- The books do not depend on what the store holds.
kept-Good :
    (limits : String → Option Limits) (w : World) (written : String → ℕ) (healthy : Bool)
    → Good limits w
    → Good limits
        (record w { enforcer = record w.enforcer { written = written; healthy = healthy } })
kept-Good limits w written healthy g = record {
  same_limits = g.same_limits;
  accounts = g.accounts;
  ids = g.ids;
  open_ids = g.open_ids;
  new_ids = g.new_ids;
}

-- A write keeps the books, whichever way it goes.
written-Good :
    (limits : String → Option Limits) (w : World) (disk : String → Option SpendRow) (s : Snapshot)
    (stale saved : Bool)
    → Good limits w
    → Good limits (record w {
      enforcer =
          (if◌then◌else◌ {A = Enforcer × (String → Option SpendRow) × Bool} stale
            (w.enforcer, disk, true)
            (if◌then◌else◌ {A = Enforcer × (String → Option SpendRow) × Bool} saved
              (
                record w.enforcer {
                  written = bump w.enforcer.written s.row.tenant s.seq;
                  healthy = true;
                },
                update disk s.row.tenant s.row,
                true,
              )
              (set_store_healthy w.enforcer false, disk, false))).0;
    })
written-Good limits w disk s true saved g = g
written-Good limits w disk s false true g = kept-Good limits w _ _ g
written-Good limits w disk s false false g = kept-Good limits w _ _ g

pub Step-Good :
    (limits : String → Option Limits) (w v : World) → Step w v → Good limits w → Good limits v
unfolding spent persist
Step-Good limits w v (admits tenant est now e' r small q) g =
    subst (AfterReserve limits w tenant) q (reserve-Good limits w tenant est now g small)
Step-Good limits w v (refuses tenant est now e' d q) g =
    refused-Good limits w tenant est now e' d g q
Step-Good limits w v (settles older newer r total usd now e) g =
    settle-Good limits w newer older r total usd now g e
Step-Good limits w v (releases older newer r now e) g = release-Good limits w newer older r now g e
Step-Good limits w v (reads tenant now) g = rolled-Good limits w tenant now g
Step-Good limits w v (writes disk s saved) g =
    written-Good limits w disk s (leb s.seq (w.enforcer.written s.row.tenant)) saved g
Step-Good limits w v (store_turns healthy) g = kept-Good limits w _ healthy g

pub Reach-Good :
    (limits : String → Option Limits) (w v : World) → Reach w v → Good limits w → Good limits v
Reach-Good limits w v here g = g
Reach-Good limits w v (next {u} p s) g = Step-Good limits u v s (Reach-Good limits w u p g)

pub History-Good : (limits : String → Option Limits) (w : World) → History limits w → Good limits w
History-Good limits w p = Reach-Good limits p.start w p.path (Begins-Good limits p.start p.begins)

books :
    (limits : String → Option Limits) (w : World) (tenant : String) (now : ℕ)
    → History limits w
    → Account
        (limits_or (limits tenant))
        (claims_of tenant w.outstanding)
        (w.excess tenant)
        (entry_for (w.enforcer.state tenant) now)
books limits w tenant now p =
    entry_for-Account _ _ _ now (w.enforcer.state tenant)
      ((History-Good limits w p).accounts tenant)

-- Spend and claims against the caps.
abbrev pub WithinCaps : Limits → ℕ → ℕ → ℕ → ℕ → Type 0
WithinCaps l excess day month claimed =
    ((l.daily_usd ≡ 0) ⊎ (day + claimed ≤ l.daily_usd + excess))
    × ((l.monthly_usd ≡ 0) ⊎ (month + claimed ≤ l.monthly_usd + excess))

-- In every history of an enforcer, new or restored from the rows of its store, with a store or without,
-- what it reports as committed for a tenant is the sum of the estimates of the tenant's requests that
-- are neither settled nor released: no claim leaks, and none is given back twice. A history settles or
-- releases each admitted request at most once, and admits fewer than 2^64 requests.
pub committed-outstanding :
    (limits : String → Option Limits) (w : World) (tenant : String) (now : ℕ)
    → History limits w
    → (committed w.enforcer tenant now).1 ≡ claims_of tenant w.outstanding
unfolding committed state_for
committed-outstanding limits w tenant now p = (books limits w tenant now p).claims
