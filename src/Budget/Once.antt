-- ===== src/Budget/Once.antt =====
-- A reservation is settled or released once (internal/budget/enforcer.go): the same reservation again
-- changes nothing.
use pen_stock.Base.{ℕ, ◌≡◌, refl, Bool, true, none, arith, Bool-cases, inl, inr}
use pen_stock.Budget.Types.{Reservation}
use pen_stock.Budget.Enforcer.{Enforcer, settle, settle_open, release, mark}

marked : (done : ℕ → Bool) (i : ℕ) → mark done i i ≡ true
marked done i = ground arith

open-done :
    (e : Enforcer) (r : Reservation) (total usd now : ℕ)
    → (settle_open e r total usd now).0.done r.id ≡ true
unfolding settle_open
open-done e r total usd now = elim (Bool-cases e.has_store) [
  | inl h ↦ ground (arith, h)
  | inr h ↦ ground (arith, h)
]

settle-done :
    (e : Enforcer) (r : Reservation) (total usd now : ℕ)
    → (settle e r total usd now).0.done r.id ≡ true
unfolding settle
settle-done e r total usd now = elim (Bool-cases (e.done r.id)) [
  | inl d ↦ rw d d
  | inr d ↦ rw d (open-done e r total usd now)
]

release-done : (e : Enforcer) (r : Reservation) (now : ℕ) → (release e r now).done r.id ≡ true
unfolding release
release-done e r now = elim (Bool-cases (e.done r.id)) [
  | inl d ↦ rw d d
  | inr d ↦ rw d (marked e.done r.id)
]

done-settle :
    (e : Enforcer) (r : Reservation) (total usd now : ℕ)
    → e.done r.id ≡ true
    → settle e r total usd now ≡ (e, none)
unfolding settle
done-settle e r total usd now d = rw d refl

done-release : (e : Enforcer) (r : Reservation) (now : ℕ) → e.done r.id ≡ true → release e r now ≡ e
unfolding release
done-release e r now d = rw d refl

-- Once a reservation has been settled, settling it again, at whatever price, and releasing it change
-- nothing and write nothing; and the same holds once it has been released.
pub settles-once :
    (e : Enforcer) (r : Reservation) (total usd now total' usd' later : ℕ)
    → (settle (settle e r total usd now).0 r total' usd' later
        ≡ ((settle e r total usd now).0, none))
      × (release (settle e r total usd now).0 r later ≡ (settle e r total usd now).0)
      × (settle (release e r now) r total' usd' later ≡ (release e r now, none))
      × (release (release e r now) r later ≡ release e r now)
settles-once e r total usd now total' usd' later =
    let settled = settle-done e r total usd now in
    let released = release-done e r now in
    (
      done-settle _ r total' usd' later settled,
      done-release _ r later settled,
      done-settle _ r total' usd' later released,
      done-release _ r later released,
    )
