-- ===== src/Budget/Books.antt =====
-- The books of one enforcer (internal/budget/enforcer.go): what holds of every tenant's entry, and how
-- each operation keeps it.
use pen_stock.Base.{
  ℕ, suc, ◌+◌, ◌%◌, ◌^◌, ◌<◌, ◌≡◌, refl, ◌∙◌, sym, ap, subst, false, Option, none, some, String,
  ◌∷◌, arith, All, same, same→eq, same_refl, Bool-cases, inl, inr, if◌then◌else◌, update,
}
use native.Mathlib.Nat.{add_comm}
use pen_stock.Budget.Types.{Limits, Estimate}
use pen_stock.Budget.Windows.{TenantState, entry_for, first_state, check, claim}
use pen_stock.Budget.Account.{Account, first-Account, roll-Account, claim-Account}
use pen_stock.Budget.Enforcer.{new_enforcer, bump, state_for, put_state}
use pen_stock.Budget.Outstanding.{Below, Below-mono}
use pen_stock.Budget.World.{World, claims_of, opening}

-- A tenant with no limits is one for which none is set.
abbrev pub unlimited : Limits
unlimited = record {
  requests_per_minute = 0;
  tokens_per_minute = 0;
  daily_usd = 0;
  monthly_usd = 0;
  fail_closed = false;
}

abbrev pub limits_or : Option Limits → Limits
limits_or none = unlimited
limits_or (some l) = l

-- The account of an entry; a tenant with no entry has claimed nothing.
abbrev pub AccountOf : Limits → ℕ → ℕ → Option TenantState → Type 0
AccountOf l out excess none = out ≡ 0
AccountOf l out excess (some st) = Account l out excess st

pub entry_for-Account :
    (l : Limits) (out excess now : ℕ) (o : Option TenantState)
    → AccountOf l out excess o
    → Account l out excess (entry_for o now)
unfolding entry_for
entry_for-Account l out excess now none h =
    subst (λ n. Account l n excess (first_state now)) (sym h) (first-Account l excess now)
entry_for-Account l out excess now (some st) h = roll-Account l out excess now st h

-- Every tenant's account.
abbrev pub Accounts :
    (String → Option Limits) → (String → ℕ) → (String → ℕ) → (String → Option TenantState) → Type 0
Accounts limits out excess state =
    (t : String) → AccountOf (limits_or (limits t)) (out t) (excess t) (state t)

pub put-Accounts :
    (limits : String → Option Limits) (out out' excess excess' : String → ℕ)
    (state : String → Option TenantState) (p : String) (st : TenantState)
    → Accounts limits out excess state
    → Account (limits_or (limits p)) (out' p) (excess' p) st
    → ((t : String) → same p t ≡ false → (out' t ≡ out t) × (excess' t ≡ excess t))
    → Accounts limits out' excess' (update state p st)
put-Accounts limits out out' excess excess' state p st all mine others t =
    elim (Bool-cases (same p t)) [
      | inl e ↦ rw (e, ← same→eq p t e) mine
      | inr e ↦ rw (e, (others t e).0, (others t e).1) (all t)
    ]

pub record Good (limits : String → Option Limits) (w : World) : Type 0 where
  pub same_limits : w.enforcer.limits ≡ limits
  pub accounts : Accounts limits (λ t. claims_of t w.outstanding) w.excess w.enforcer.state
  pub ids : Below (suc w.enforcer.next_id) w.outstanding
  pub open_ids : All (λ q. w.enforcer.done q.id ≡ false) w.outstanding
  pub new_ids : (i : ℕ) → w.enforcer.next_id < i → w.enforcer.done i ≡ false

pub opening-Good : (limits : String → Option Limits) → Good limits (opening limits)
unfolding new_enforcer
opening-Good limits = record {
  same_limits = refl;
  accounts = λ t. refl;
  ids = tt;
  open_ids = tt;
  new_ids = λ i h. refl;
}

-- Reading and refusing turn over windows, and nothing else.
pub rolled-Good :
    (limits : String → Option Limits) (w : World) (p : String) (now : ℕ)
    → Good limits w
    → Good limits (record w { enforcer = put_state w.enforcer p (state_for w.enforcer p now) })
unfolding state_for
rolled-Good limits w p now g = record {
  same_limits = g.same_limits;
  accounts =
      put-Accounts limits _ _ w.excess w.excess w.enforcer.state p _ g.accounts
        (entry_for-Account _ _ _ now (w.enforcer.state p) (g.accounts p)) (λ t h. (refl, refl));
  ids = g.ids;
  open_ids = g.open_ids;
  new_ids = g.new_ids;
}

pub admits-Good :
    (limits : String → Option Limits) (w : World) (tenant : String) (est : Estimate) (now : ℕ)
    (l : Limits)
    → Good limits w
    → w.enforcer.next_id + 1 < 2 ^ 64
    → w.enforcer.limits tenant ≡ some l
    → check (state_for w.enforcer tenant now) l est now ≡ none
    → let id = (w.enforcer.next_id + 1) % 2 ^ 64 in
      Good limits (record {
        enforcer =
            record (put_state w.enforcer tenant (claim (state_for w.enforcer tenant now) est)) {
              next_id = id;
            };
        outstanding =
            record { tenant = tenant; estimate = est; issued_at = now; id = id } ∷ w.outstanding;
        excess = bump w.excess tenant 0;
      })
unfolding state_for
admits-Good limits w tenant est now l g small k c = record {
  same_limits = g.same_limits;
  accounts =
      put-Accounts limits _ _ w.excess _ w.enforcer.state tenant _ g.accounts account
        (λ t h. rw h (refl, refl));
  ids = (omega arith, Below-mono (suc w.enforcer.next_id) _ w.outstanding (omega arith) g.ids);
  open_ids = (g.new_ids _ (omega arith), g.open_ids);
  new_ids = λ i h. g.new_ids i (omega arith);
}
  where
    known : limits_or (limits tenant) ≡ l
    known = ap limits_or (sym (ap (λ f. f tenant) g.same_limits) ∙ k)

    claimed :
        Account
          (limits_or (limits tenant))
          (claims_of tenant w.outstanding + est.usd)
          0
          (claim (entry_for (w.enforcer.state tenant) now) est)
    claimed =
        claim-Account (limits_or (limits tenant)) (claims_of tenant w.outstanding) (w.excess tenant)
          now (entry_for (w.enforcer.state tenant) now) est
          (entry_for-Account _ _ _ now (w.enforcer.state tenant) (g.accounts tenant))
          (subst (λ x. check (entry_for (w.enforcer.state tenant) now) x est now ≡ none) (sym known)
            c)

    account :
        Account
          (limits_or (limits tenant))
          (if same tenant tenant
            then est.usd + claims_of tenant w.outstanding
            else claims_of tenant w.outstanding)
          (bump w.excess tenant 0 tenant)
          (claim (entry_for (w.enforcer.state tenant) now) est)
    account = rw (same_refl tenant, add_comm est.usd (claims_of tenant w.outstanding)) claimed
