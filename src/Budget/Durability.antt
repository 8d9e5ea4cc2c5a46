-- ===== src/Budget/Durability.antt =====
-- Snapshots on their way to the store (internal/budget/enforcer.go): `persist` takes them in any order.
use pen_stock.Base.{
  ℕ, ◌+◌, ◌%◌, ◌^◌, ◌<◌, ◌≤◌, ◌≡◌, ◌⊎◌, refl, Bool, true, false, Option, none, some, String, List,
  [], ◌∷◌, ◌++◌, arith, All, Bool-cases, inl, inr, same, same_refl, same→eq, ap, sym, ◌∙◌,
  update_self,
}
use pen_stock.Budget.Windows.{TenantState, roll, entry_for, charge, first_state}
use pen_stock.Budget.Types.{Estimate, Reservation, SpendRow}
use pen_stock.Budget.Enforcer.{Enforcer, Snapshot, settle, settle_open, persist, spent, state_for}

-- A write that the store takes or refuses.
abbrev pub Write : Type 0
Write = Snapshot × Bool

abbrev pub Disk : Type 0
Disk = String → Option SpendRow

-- One write after another.
abbrev pub persist_all : Enforcer → Disk → List Write → Enforcer × Disk
persist_all e disk [] = (e, disk)
persist_all e disk ((s, saved) ∷ ws) =
    let (e', disk', ok) = persist e disk s saved in persist_all e' disk' ws

-- The tenant's older snapshots.
abbrev pub Older : Snapshot → Write → Type 0
Older s (q, saved) = same q.row.tenant s.row.tenant ≡ true → q.seq < s.seq

not-yet :
    (e : Enforcer) (disk : Disk) (s q : Snapshot) (saved : Bool)
    → e.written s.row.tenant < s.seq
    → Older s (q, saved)
    → (persist e disk q saved).0.written s.row.tenant < s.seq
unfolding persist
not-yet e disk s q saved h o = ground (arith, o)

abbrev pub Written : Snapshot → Enforcer → Disk → Type 0
Written s e disk = (s.seq ≤ e.written s.row.tenant) × (disk s.row.tenant ≡ some s.row)

writes :
    (e : Enforcer) (disk : Disk) (s : Snapshot)
    → e.written s.row.tenant < s.seq
    → Written s (persist e disk s true).0 (persist e disk s true).1
unfolding persist
writes e disk s h = ground (arith, same_refl s.row.tenant)

stays :
    (e : Enforcer) (disk : Disk) (s q : Snapshot) (saved : Bool)
    → Older s (q, saved)
    → Written s e disk
    → Written s (persist e disk q saved).0 (persist e disk q saved).1
unfolding persist
stays e disk s q saved o h = elim (Bool-cases (same q.row.tenant s.row.tenant)) [
  | inl t ↦
      let less = o t in
      let newer = ap e.written (same→eq q.row.tenant s.row.tenant t) in
      ground (arith, less, newer, h)
  | inr f ↦ ground (arith, f, h)
]

stay_lem :
    (e : Enforcer) (disk : Disk) (s : Snapshot) (ws : List Write)
    → All (Older s) ws
    → Written s e disk
    → (persist_all e disk ws).1 s.row.tenant ≡ some s.row
stay_lem e disk s [] o h = h.1
stay_lem e disk s ((q, saved) ∷ ws) o h =
    stay_lem (persist e disk q saved).0 (persist e disk q saved).1 s ws o.1
      (stays e disk s q saved o.0 h)

-- Whatever order the snapshots of one tenant reach the store in, and whichever other writes fail, once
-- the newest of them has been written, it is what the store holds in the end: no older total lands on
-- top of it. Newest means that its sequence number is above those of the tenant's other snapshots and
-- above what had been written before.
pub newest_snapshot_wins :
    (e : Enforcer) (disk : Disk) (s : Snapshot) (before after : List Write)
    → e.written s.row.tenant < s.seq
    → All (Older s) before
    → All (Older s) after
    → (persist_all e disk (before ++ (s, true) ∷ after)).1 s.row.tenant ≡ some s.row
newest_snapshot_wins e disk s [] after h b a = stay_lem _ _ s after a (writes e disk s h)
newest_snapshot_wins e disk s ((q, saved) ∷ before) after h b a =
    newest_snapshot_wins (persist e disk q saved).0 (persist e disk q saved).1 s before after
      (not-yet e disk s q saved h b.0) b.1 a

-- A settlement's snapshot, if there is one.
abbrev pub TakenBy : Enforcer → Reservation → ℕ → Enforcer × Option Snapshot → Type 0
TakenBy e r now (e', none) = (e.done r.id ≡ true) ⊎ (e.has_store ≡ false)
TakenBy e r now (e', some s) =
    (s.row.tenant ≡ r.tenant)
    × (s.seq ≡ (e.seq r.tenant + 1) % 2 ^ 64)
    × (e'.seq r.tenant ≡ s.seq)
    × (s.row.daily_usd ≡ (spent e' r.tenant now).1)
    × (s.row.monthly_usd ≡ (spent e' r.tenant now).2)

-- A window that was looked at just now does not turn over again.
rolled-again :
    (o : Option TenantState) (est : Estimate) (total usd now : ℕ)
    → let st = charge (entry_for o now) est total usd in
      ((roll st now).daily_spent ≡ st.daily_spent)
      × ((roll st now).monthly_spent ≡ st.monthly_spent)
unfolding charge entry_for roll first_state
rolled-again none est total usd now = ground arith
rolled-again (some st) est total usd now = ground arith

-- What `Spent` says of a tenant with this entry.
spent-entry :
    (e : Enforcer) (t : String) (st : TenantState) (now : ℕ)
    → e.state t ≡ some st
    → ((spent e t now).1 ≡ (roll st now).daily_spent)
      × ((spent e t now).2 ≡ (roll st now).monthly_spent)
unfolding spent state_for entry_for
spent-entry e t st now h = rw h (refl, refl)

open-snapshot :
    (e : Enforcer) (r : Reservation) (total usd now : ℕ)
    → TakenBy e r now (settle_open e r total usd now)
unfolding settle_open state_for
open-snapshot e r total usd now = elim (Bool-cases e.has_store) [
  | inl h ↦ rw h (
    refl,
    refl,
    rw (same_refl r.tenant) refl,
    sym (
        (spent-entry _ r.tenant st now (update_self e.state r.tenant st)).0
        ∙ (rolled-again (e.state r.tenant) r.estimate total usd now).0),
    sym (
        (spent-entry _ r.tenant st now (update_self e.state r.tenant st)).1
        ∙ (rolled-again (e.state r.tenant) r.estimate total usd now).1),
  )
  | inr h ↦ rw h (inr refl)
]
  where
    st : TenantState
    st = charge (entry_for (e.state r.tenant) now) r.estimate total usd

-- What a settlement sends to the store, if the enforcer has one and the reservation was open: the
-- tenant's totals as `Spent` reports them from then on, under the tenant's next sequence number. It
-- sends nothing only for a reservation that is done, or without a store.
pub settle-snapshot :
    (e : Enforcer) (r : Reservation) (total usd now : ℕ)
    → TakenBy e r now (settle e r total usd now)
unfolding settle
settle-snapshot e r total usd now = elim (Bool-cases (e.done r.id)) [
  | inl d ↦ rw d (inl d)
  | inr d ↦ rw d (open-snapshot e r total usd now)
]
