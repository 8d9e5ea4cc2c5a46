-- ===== src/Budget/Outstanding.antt =====
-- The list of the outstanding reservations (internal/budget/enforcer.go).
use pen_stock.Base.{
  ℕ, ◌+◌, ◌<◌, ◌≤◌, ◌≡◌, Bool, false, String, List, [], ◌∷◌, ◌++◌, arith, All, same, if◌then◌else◌,
}
use pen_stock.Budget.Types.{Reservation}
use pen_stock.Budget.Enforcer.{mark}
use pen_stock.Budget.World.{claims_of}

-- Ids fall along the list and stay at or below the counter.
abbrev pub Below : ℕ → List Reservation → Type 0
Below n [] = Unit {0}
Below n (r ∷ rs) = (r.id < n) × Below r.id rs

pub Below-mono : (m n : ℕ) (rs : List Reservation) → m ≤ n → Below m rs → Below n rs
Below-mono m n [] h b = tt
Below-mono m n (r ∷ rs) h b = (omega arith, b.1)

pub Below-remove :
    (n : ℕ) (newer older : List Reservation) (r : Reservation)
    → Below n (newer ++ r ∷ older)
    → Below n (newer ++ older)
Below-remove n [] older r b = Below-mono r.id n older (omega arith) b.1
Below-remove n (q ∷ newer) older r b = (b.0, Below-remove q.id newer older r b.1)

pub Below-All : (n : ℕ) (rs : List Reservation) → Below n rs → All (λ q. q.id < n) rs
Below-All n [] b = tt
Below-All n (r ∷ rs) b = (b.0, Below-All n rs (Below-mono r.id n rs (omega arith) b.1))

pub All-remove {κ} :
    (P : Reservation → Type κ) (newer older : List Reservation) (r : Reservation)
    → All P (newer ++ r ∷ older)
    → P r × All P (newer ++ older)
All-remove P [] older r h = h
All-remove P (q ∷ newer) older r h =
    let (here_r, rest) = All-remove P newer older r h.1 in (here_r, (h.0, rest))

-- Settling one reservation leaves the others open.
pub still-open :
    (done : ℕ → Bool) (newer older : List Reservation) (r : Reservation) (n : ℕ)
    → Below n (newer ++ r ∷ older)
    → All (λ q. done q.id ≡ false) (newer ++ r ∷ older)
    → All (λ q. mark done r.id q.id ≡ false) (newer ++ older)
still-open done [] older r n b h = below-open older (Below-All r.id older b.1) h.1
  where
    below-open :
        (rs : List Reservation)
        → All (λ q. q.id < r.id) rs
        → All (λ q. done q.id ≡ false) rs
        → All (λ q. mark done r.id q.id ≡ false) rs
    below-open [] k l = tt
    below-open (q ∷ rs) k l = (ground (arith, k.0, l.0), below-open rs k.1 l.1)
still-open done (q ∷ newer) older r n b h = (
  above (Below-All q.id (newer ++ r ∷ older) b.1) h.0,
  still-open done newer older r q.id b.1 h.1,
)
  where
    above :
        All (λ x. x.id < q.id) (newer ++ r ∷ older)
        → done q.id ≡ false
        → mark done r.id q.id ≡ false
    above k l =
        let less = (All-remove (λ x. x.id < q.id) newer older r k).0 in ground (arith, less, l)

pub claims_of-remove :
    (t : String) (newer older : List Reservation) (r : Reservation)
    → claims_of t (newer ++ r ∷ older)
      ≡ (if same r.tenant t then r.estimate.usd else 0) + claims_of t (newer ++ older)
claims_of-remove t [] older r = ground arith
claims_of-remove t (q ∷ newer) older r = ground (arith, claims_of-remove t newer older r)
