-- ===== src/Budget/Admission.antt =====
-- What `Reserve` decides (internal/budget/enforcer.go).
use pen_stock.Base.{
  ℕ, ◌+◌, ◌%◌, ◌^◌, ◌≤◌, ◌≡◌, ◌⊎◌, refl, ◌∙◌, same, same→eq, true, false, not, ◌&&◌, Option, none,
  some, String, arith, inl, inr, Bool-cases, Option-cases, update_self, sym, ap, subst,
}
use pen_stock.Budget.Types.{Limits, Estimate, Reservation, Denial, store_degraded, unknown_tenant}
use pen_stock.Budget.Windows.{TenantState, check, claim, entry_for, roll, first_state}
use pen_stock.Budget.Account.{check-fits, WithinCap, within_cap}
use pen_stock.Budget.Enforcer.{
  admit, reserve_known, Enforcer, Admission, admitted, denied, reserve, state_for, put_state,
}

-- The ways in which a call can go.
pub data ReserveCase (e : Enforcer) (tenant : String) (est : Estimate) (now : ℕ)
    (out : Enforcer × Admission) : Type 0 where
  unknown :
      e.limits tenant ≡ none
      → out ≡ (e, denied (record { reason = unknown_tenant; retry_after = 0 }))
      → ReserveCase e tenant est now out
  blind :
      (l : Limits)
      → e.limits tenant ≡ some l
      → e.healthy ≡ false
      → l.fail_closed ≡ true
      → out ≡ (e, denied (record { reason = store_degraded; retry_after = 0 }))
      → ReserveCase e tenant est now out
  over :
      (l : Limits) (d : Denial)
      → e.limits tenant ≡ some l
      → check (state_for e tenant now) l est now ≡ some d
      → out ≡ (put_state e tenant (state_for e tenant now), denied d)
      → ReserveCase e tenant est now out
  fits :
      (l : Limits)
      → e.limits tenant ≡ some l
      → (e.healthy ≡ true) ⊎ (l.fail_closed ≡ false)
      → check (state_for e tenant now) l est now ≡ none
      → out ≡ (
        record (put_state e tenant (claim (state_for e tenant now) est)) {
          next_id = (e.next_id + 1) % 2 ^ 64;
        },
        admitted (record {
          tenant = tenant;
          estimate = est;
          issued_at = now;
          id = (e.next_id + 1) % 2 ^ 64;
        }),
      )
      → ReserveCase e tenant est now out

enforcer-eq :
    {e e' : Enforcer} {a a' : Admission} → ◌≡◌ {A = Enforcer × Admission} (e, a) (e', a') → e ≡ e'
enforcer-eq h = ap (λ p. p.0) h

denied-absurd :
    {e e' : Enforcer} {d : Denial} {r : Reservation}
    → ◌≡◌ {A = Enforcer × Admission} (e, denied d) (e', admitted r)
    → ⊥
denied-absurd h = cc

admitted-absurd :
    {e e' : Enforcer} {d : Denial} {r : Reservation}
    → ◌≡◌ {A = Enforcer × Admission} (e, admitted r) (e', denied d)
    → ⊥
admitted-absurd h = cc

admit-case :
    (e : Enforcer) (tenant : String) (est : Estimate) (now : ℕ) (l : Limits) (o : Option Denial)
    → e.limits tenant ≡ some l
    → (e.healthy ≡ true) ⊎ (l.fail_closed ≡ false)
    → check (state_for e tenant now) l est now ≡ o
    → ReserveCase e tenant est now (admit o e tenant (state_for e tenant now) est now)
unfolding admit
admit-case e tenant est now l none k h c = fits l k h c refl
admit-case e tenant est now l (some d) k h c = over l d k c refl

known-case :
    (e : Enforcer) (tenant : String) (est : Estimate) (now : ℕ) (l : Limits)
    → e.limits tenant ≡ some l
    → ReserveCase e tenant est now (reserve_known (some l) e tenant est now)
unfolding reserve_known
known-case e tenant est now l k = elim (Bool-cases (not e.healthy && l.fail_closed)) [
  | inl b ↦ rw b (blind l k (ground arith) (ground arith) refl)
  | inr b ↦ rw b (
      admit-case e tenant est now l (check (state_for e tenant now) l est now) k (ground arith)
        refl)
]

pub reserve-case :
    (e : Enforcer) (tenant : String) (est : Estimate) (now : ℕ)
    → ReserveCase e tenant est now (reserve e tenant est now)
unfolding reserve reserve_known
reserve-case e tenant est now = elim (Option-cases (e.limits tenant)) [
  | inl u ↦ rw (u, reserve_known) (unknown u refl)
  | inr (l, k) ↦ rw k (known-case e tenant est now l k)
]

-- The tenant's entry after a call that admitted a request.
abbrev pub WithinLimits : Limits → Option TenantState → Type 0
WithinLimits l none = ⊥
WithinLimits l (some st) =
    WithinCap l.requests_per_minute st.requests
    × WithinCap l.tokens_per_minute st.tokens
    × WithinCap l.daily_usd (st.daily_spent + st.committed)
    × WithinCap l.monthly_usd (st.monthly_spent + st.committed)

claim-WithinLimits :
    (st : TenantState) (l : Limits) (est : Estimate) (now : ℕ)
    → check st l est now ≡ none
    → WithinLimits l (some (claim st est))
unfolding claim
claim-WithinLimits st l est now c =
    let (rate, tokens, day, month) = check-fits st l est now c in
    (
      within_cap _ _ (λ h. omega (arith, rate h)),
      within_cap _ _ (λ h. omega (arith, tokens h)),
      within_cap _ _ (λ h. omega (arith, day h)),
      within_cap _ _ (λ h. omega (arith, month h)),
    )

-- A request is admitted only for a configured tenant, only with a healthy store or a tenant that
-- fails open, and only if it fits every limit that is set: with its claim counted, the requests and
-- the tokens of the minute, and the money spent and committed in the day and in the month, are all
-- within their caps.
pub reserve-within :
    (e e' : Enforcer) (tenant : String) (est : Estimate) (now : ℕ) (r : Reservation)
    → reserve e tenant est now ≡ (e', admitted r)
    → (l : Limits) × (e.limits tenant ≡ some l)
      × ((e.healthy ≡ true) ⊎ (l.fail_closed ≡ false))
      × WithinLimits l (e'.state tenant)
reserve-within e e' tenant est now r q = go (reserve-case e tenant est now)
  where
    go :
        ReserveCase e tenant est now (reserve e tenant est now)
        → (l : Limits) × (e.limits tenant ≡ some l)
          × ((e.healthy ≡ true) ⊎ (l.fail_closed ≡ false))
          × WithinLimits l (e'.state tenant)
    go (unknown u k) = absurd (denied-absurd (sym k ∙ q))
    go (blind l k h f c) = absurd (denied-absurd (sym c ∙ q))
    go (over l d k c x) = absurd (denied-absurd (sym x ∙ q))
    go (fits l k h c x) = (
      l,
      k,
      h,
      subst (λ o. WithinLimits l o)
          (sym (update_self e.state tenant _) ∙ ap (λ t. t.state tenant) (enforcer-eq (sym x ∙ q)))
          (claim-WithinLimits (state_for e tenant now) l est now c),
    )

-- A refusal leaves the enforcer, or the tenant's entry is rolled.
pub reserve-denied_enforcer :
    (e e' : Enforcer) (tenant : String) (est : Estimate) (now : ℕ) (d : Denial)
    → reserve e tenant est now ≡ (e', denied d)
    → (e' ≡ e) ⊎ (e' ≡ put_state e tenant (state_for e tenant now))
reserve-denied_enforcer e e' tenant est now d q = go (reserve-case e tenant est now)
  where
    go :
        ReserveCase e tenant est now (reserve e tenant est now)
        → (e' ≡ e) ⊎ (e' ≡ put_state e tenant (state_for e tenant now))
    go (unknown u k) = inl (sym (enforcer-eq (sym k ∙ q)))
    go (blind l k h f c) = inl (sym (enforcer-eq (sym c ∙ q)))
    go (over l o k c x) = inr (sym (enforcer-eq (sym x ∙ q)))
    go (fits l k h c x) = absurd (admitted-absurd (sym x ∙ q))

-- The counters of an entry; a tenant with no entry has claimed and spent nothing.
abbrev pub counter : (TenantState → ℕ) → Option TenantState → ℕ
counter of none = 0
counter of (some st) = of st

-- An entry after a refusal, against the one before: the same claims, and no more used or spent.
abbrev pub NoMore : Option TenantState → Option TenantState → Type 0
NoMore before after =
    (counter (λ st. st.committed) after ≡ counter (λ st. st.committed) before)
    × (counter (λ st. st.requests) after ≤ counter (λ st. st.requests) before)
    × (counter (λ st. st.tokens) after ≤ counter (λ st. st.tokens) before)
    × (counter (λ st. st.daily_spent) after ≤ counter (λ st. st.daily_spent) before)
    × (counter (λ st. st.monthly_spent) after ≤ counter (λ st. st.monthly_spent) before)

NoMore-refl : (o : Option TenantState) → NoMore o o
NoMore-refl none = (refl, omega arith, omega arith, omega arith, omega arith)
NoMore-refl (some st) = (refl, omega arith, omega arith, omega arith, omega arith)

entry_for-NoMore : (o : Option TenantState) (now : ℕ) → NoMore o (some (entry_for o now))
unfolding entry_for roll first_state
entry_for-NoMore none now = (refl, omega arith, omega arith, omega arith, omega arith)
entry_for-NoMore (some st) now =
    (ground arith, ground arith, ground arith, ground arith, ground arith)

state_for-NoMore :
    (e : Enforcer) (tenant : String) (now : ℕ) (t : String)
    → NoMore (e.state t) ((put_state e tenant (state_for e tenant now)).state t)
unfolding state_for
state_for-NoMore e tenant now t = elim (Bool-cases (same tenant t)) [
  | inl h ↦ rw (h, same→eq tenant t h) (entry_for-NoMore (e.state t) now)
  | inr h ↦ rw h (NoMore-refl (e.state t))
]

-- A refused request claims nothing and uses nothing up: every tenant has as much committed as before,
-- no more requests and tokens counted and no more money spent in any window (an expired one may have
-- been turned over, and a tenant seen for the first time may have got an entry with nothing in it), and
-- the request counter and the settled requests are as before.
pub reserve-denied :
    (e e' : Enforcer) (tenant : String) (est : Estimate) (now : ℕ) (d : Denial) (t : String)
    → reserve e tenant est now ≡ (e', denied d)
    → NoMore (e.state t) (e'.state t) × (e'.next_id ≡ e.next_id) × (e'.done ≡ e.done)
reserve-denied e e' tenant est now d t q = elim (reserve-denied_enforcer e e' tenant est now d q) [
  | inl h ↦ rw h (NoMore-refl (e.state t), refl, refl)
  | inr h ↦ rw h (state_for-NoMore e tenant now t, refl, refl)
]
