-- ===== src/Budget/Settling.antt =====
-- How a settlement and a release keep the books (internal/budget/enforcer.go).
use pen_stock.Base.{
  ℕ, suc, ◌+◌, ◌-◌, ◌<◌, ◌≡◌, refl, ◌∙◌, sym, ap, subst, Bool, true, false, Option, String, List,
  ◌∷◌, ◌++◌, arith, All, same, same_refl, if◌then◌else◌,
}
use native.Mathlib.Nat.{add_comm}
use pen_stock.Budget.Types.{Limits, Reservation}
use pen_stock.Budget.Windows.{TenantState, entry_for, charge}
use pen_stock.Budget.Account.{Account, give_back-Account, charge-Account}
use pen_stock.Budget.Enforcer.{
  Enforcer, Snapshot, settle, settle_open, release, bump, mark, state_for, put_state,
}
use pen_stock.Budget.Outstanding.{
  Below, Below-All, Below-remove, All-remove, still-open, claims_of-remove,
}
use pen_stock.Budget.World.{World, claims_of}
use pen_stock.Budget.Books.{Good, limits_or, put-Accounts, entry_for-Account}

-- A reservation leaves the list, and its tenant's entry changes.
leaves-Good :
    (limits : String → Option Limits) (w : World) (newer older : List Reservation) (r : Reservation)
    (excess' : String → ℕ) (st : TenantState) (seq : String → ℕ)
    → Good limits w
    → w.outstanding ≡ newer ++ r ∷ older
    → Account
        (limits_or (limits r.tenant))
        (claims_of r.tenant (newer ++ older))
        (excess' r.tenant)
        st
    → ((t : String) → same r.tenant t ≡ false → excess' t ≡ w.excess t)
    → Good limits (record {
      enforcer = record (put_state w.enforcer r.tenant st) {
        done = mark w.enforcer.done r.id;
        seq = seq;
      };
      outstanding = newer ++ older;
      excess = excess';
    })
leaves-Good limits w newer older r excess' st seq g e mine others = record {
  same_limits = g.same_limits;
  accounts =
      put-Accounts limits _ _ w.excess excess' w.enforcer.state r.tenant st g.accounts mine (λ t h.
        (
          sym (ap (claims_of t) e ∙ (claims_of-remove t newer older r ∙ zero-claim t h)),
          others t h,
        ));
  ids = Below-remove _ newer older r (subst (Below _) e g.ids);
  open_ids =
      still-open w.enforcer.done newer older r (suc w.enforcer.next_id) (subst (Below _) e g.ids)
        (subst (All (λ q. w.enforcer.done q.id ≡ false)) e g.open_ids);
  new_ids = λ i h. marked-new i h;
}
  where
    zero-claim :
        (t : String)
        → same r.tenant t ≡ false
        → (if same r.tenant t then r.estimate.usd else 0) + claims_of t (newer ++ older)
          ≡ claims_of t (newer ++ older)
    zero-claim t h = rw h (omega arith)

    older-id : r.id < suc w.enforcer.next_id
    older-id =
        (All-remove (λ x. x.id < suc w.enforcer.next_id) newer older r
          (Below-All _ _ (subst (Below _) e g.ids))).0

    marked-new : (i : ℕ) → w.enforcer.next_id < i → mark w.enforcer.done r.id i ≡ false
    marked-new i h = ground (arith, older-id, g.new_ids i h)

-- The tenant of an outstanding reservation, with that reservation's claim set apart.
open-Account :
    (limits : String → Option Limits) (w : World) (newer older : List Reservation) (r : Reservation)
    (now : ℕ)
    → Good limits w
    → w.outstanding ≡ newer ++ r ∷ older
    → Account
        (limits_or (limits r.tenant))
        (claims_of r.tenant (newer ++ older) + r.estimate.usd)
        (w.excess r.tenant)
        (state_for w.enforcer r.tenant now)
unfolding state_for
open-Account limits w newer older r now g e =
    subst
      (λ n.
        Account (limits_or (limits r.tenant)) n (w.excess r.tenant)
          (entry_for (w.enforcer.state r.tenant) now))
      split_claim (entry_for-Account _ _ _ now (w.enforcer.state r.tenant) (g.accounts r.tenant))
  where
    own : (n : ℕ) → (if same r.tenant r.tenant then r.estimate.usd else 0) + n ≡ n + r.estimate.usd
    own n = rw (same_refl r.tenant) (add_comm r.estimate.usd n)

    split_claim :
        claims_of r.tenant w.outstanding ≡ claims_of r.tenant (newer ++ older) + r.estimate.usd
    split_claim =
        ap (claims_of r.tenant) e
        ∙ (claims_of-remove r.tenant newer older r ∙ own (claims_of r.tenant (newer ++ older)))

open-done :
    (limits : String → Option Limits) (w : World) (newer older : List Reservation) (r : Reservation)
    → Good limits w
    → w.outstanding ≡ newer ++ r ∷ older
    → w.enforcer.done r.id ≡ false
open-done limits w newer older r g e =
    (All-remove (λ q. w.enforcer.done q.id ≡ false) newer older r
      (subst (All (λ q. w.enforcer.done q.id ≡ false)) e g.open_ids)).0

pub release-Good :
    (limits : String → Option Limits) (w : World) (newer older : List Reservation) (r : Reservation)
    (now : ℕ)
    → Good limits w
    → w.outstanding ≡ newer ++ r ∷ older
    → Good limits (record w { enforcer = release w.enforcer r now; outstanding = newer ++ older })
unfolding release
release-Good limits w newer older r now g e = rw (open-done limits w newer older r g e) (
    leaves-Good limits w newer older r w.excess _ w.enforcer.seq g e
      (give_back-Account _ _ _ _ r.estimate (open-Account limits w newer older r now g e))
      (λ t h. refl))

-- With a store a snapshot is taken, without one there is none.
either-Good :
    (limits : String → Option Limits) (rs : List Reservation) (excess : String → ℕ) (b : Bool)
    (x y : Enforcer) (s t : Option Snapshot)
    → Good limits (record { enforcer = x; outstanding = rs; excess = excess })
    → Good limits (record { enforcer = y; outstanding = rs; excess = excess })
    → Good limits (record {
      enforcer = (if◌then◌else◌ {A = Enforcer × Option Snapshot} b (x, s) (y, t)).0;
      outstanding = rs;
      excess = excess;
    })
either-Good limits rs excess true x y s t g h = g
either-Good limits rs excess false x y s t g h = h

pub settle-Good :
    (limits : String → Option Limits) (w : World) (newer older : List Reservation) (r : Reservation)
    (total usd now : ℕ)
    → Good limits w
    → w.outstanding ≡ newer ++ r ∷ older
    → Good limits (record {
      enforcer = (settle w.enforcer r total usd now).0;
      outstanding = newer ++ older;
      excess = bump w.excess r.tenant (w.excess r.tenant + (usd - r.estimate.usd));
    })
unfolding settle settle_open
settle-Good limits w newer older r total usd now g e = rw (open-done limits w newer older r g e) (
    either-Good limits (newer ++ older) _ w.enforcer.has_store _ _ _ _ (left _)
      (left w.enforcer.seq))
  where
    left :
        (seq : String → ℕ)
        → Good limits (record {
          enforcer =
              record (put_state w.enforcer r.tenant
                (charge (state_for w.enforcer r.tenant now) r.estimate total usd)) {
                  done = mark w.enforcer.done r.id;
                  seq = seq;
                };
          outstanding = newer ++ older;
          excess = bump w.excess r.tenant (w.excess r.tenant + (usd - r.estimate.usd));
        })
    left seq =
        leaves-Good limits w newer older r _ _ seq g e
          (rw (same_refl r.tenant) (
            charge-Account _ _ _ total usd _ r.estimate
              (open-Account limits w newer older r now g e)))
          (λ t h. rw h refl)
