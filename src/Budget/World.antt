-- ===== src/Budget/World.antt =====
-- Histories of one enforcer (internal/budget/enforcer.go): requests are admitted, and each admitted
-- one is settled or released once, in any order and interleaved in any way.
use pen_stock.Base.{
  ℕ, ◌+◌, ◌-◌, ◌^◌, ◌<◌, ◌≡◌, Bool, Option, String, List, [], ◌∷◌, ◌++◌, same, if◌then◌else◌,
}
use pen_stock.Budget.Types.{Limits, Estimate, Reservation, Denial, SpendRow}
use pen_stock.Budget.Enforcer.{
  Enforcer, admitted, denied, reserve, settle, release, spent, new_enforcer, bump,
  set_store_healthy, Snapshot, persist,
}

-- Beside the enforcer: the reservations that are neither settled nor released, newest first, and by
-- how much the settlements of each tenant since its last admission have outrun their estimates.
pub record World : Type 0 where
  pub enforcer : Enforcer
  pub outstanding : List Reservation
  pub excess : String → ℕ

-- The claims of one tenant.
abbrev pub claims_of : String → List Reservation → ℕ
claims_of t [] = 0
claims_of t (r ∷ rs) =
    let rest = claims_of t rs in if same r.tenant t then r.estimate.usd + rest else rest

pub data Step (w : World) : World → Type 0 where
  admits :
      (tenant : String) (est : Estimate) (now : ℕ) (e' : Enforcer) (r : Reservation)
      → w.enforcer.next_id + 1 < 2 ^ 64
      → reserve w.enforcer tenant est now ≡ (e', admitted r)
      → Step w (record {
        enforcer = e';
        outstanding = r ∷ w.outstanding;
        excess = bump w.excess tenant 0;
      })
  refuses :
      (tenant : String) (est : Estimate) (now : ℕ) (e' : Enforcer) (d : Denial)
      → reserve w.enforcer tenant est now ≡ (e', denied d)
      → Step w (record w { enforcer = e' })
  settles :
      (older newer : List Reservation) (r : Reservation) (total usd now : ℕ)
      → w.outstanding ≡ newer ++ r ∷ older
      → Step w (record {
        enforcer = (settle w.enforcer r total usd now).0;
        outstanding = newer ++ older;
        excess = bump w.excess r.tenant (w.excess r.tenant + (usd - r.estimate.usd));
      })
  releases :
      (older newer : List Reservation) (r : Reservation) (now : ℕ)
      → w.outstanding ≡ newer ++ r ∷ older
      → Step w (record w { enforcer = release w.enforcer r now; outstanding = newer ++ older })
  reads :
      (tenant : String) (now : ℕ) → Step w (record w { enforcer = (spent w.enforcer tenant now).0 })
  writes :
      (disk : String → Option SpendRow) (s : Snapshot) (saved : Bool)
      → Step w (record w { enforcer = (persist w.enforcer disk s saved).0 })
  store_turns :
      (healthy : Bool) → Step w (record w { enforcer = set_store_healthy w.enforcer healthy })

pub data Reach (w : World) : World → Type 0 where
  here : Reach w w
  next : {u v : World} → Reach w u → Step u v → Reach w v

-- The beginning.
abbrev pub opening : (String → Option Limits) → World
opening limits = record { enforcer = new_enforcer limits; outstanding = []; excess = λ _. 0 }
