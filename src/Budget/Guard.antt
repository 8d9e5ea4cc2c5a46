-- ===== src/Budget/Guard.antt =====
-- internal/budget/guard.go: the single call that the request path makes into budgeting. The guard
-- carries its enforcer, the rows of that enforcer's store, and the ledger that it appends to; whether a
-- store's write succeeds is an argument.
use pen_stock.Base.{ℕ, Bool, Option, none, some, String, List, [], ◌∷◌, ◌++◌}
use pen_stock.Providers.Types.{Bytes, Usage}
use pen_stock.Providers.Wire.{Codec}
use pen_stock.Pricing.{Table, Cost, cost}
use pen_stock.Budget.Types.{Reservation, SpendRow}
use pen_stock.Budget.Enforcer.{Enforcer, Admission, Snapshot, reserve, settle, release, persist}
use pen_stock.Budget.Estimator.{Estimator, estimate}

-- A row of the ledger (`pricing.Entry`).
pub record LedgerEntry : Type 0 where
  pub tenant : String
  pub provider_kind : String
  pub model : String
  pub prompt_tokens : ℕ
  pub completion_tokens : ℕ
  pub usd : ℕ
  pub price_version : ℕ
  pub request_id : ℕ

pub record Guard : Type 0 where
  pub estimator : Estimator
  pub enforcer : Enforcer
  pub disk : String → Option SpendRow
  pub prices : Option Table
  pub kind_of : Option (String → String)
  pub ledger : List LedgerEntry

-- `Begin`
unfoldable pub begin_request : Codec → Guard → String → String → Bytes → ℕ → Guard × Admission
begin_request codec g tenant model raw now =
    let (e', answer) = reserve g.enforcer tenant (estimate codec g.estimator model raw) now in
    (record g { enforcer = e' }, answer)

pub usd_of : Option Cost → ℕ
usd_of none = 0
usd_of (some c) = c.usd

-- `Price`
unfoldable pub price : Option Table → Option (String → String) → String → String → Usage → ℕ
unfolding usd_of
price (some t) (some kind_of) provider model usage = usd_of (cost t (kind_of provider) model usage)
price none kind_of provider model usage = 0
price (some t) none provider model usage = 0

-- `PriceVersion`
unfoldable pub price_version : Option Table → ℕ
price_version none = 0
price_version (some t) = t.version

-- The durable write at the end of the enforcer's `Settle`.
unfoldable pub write_snapshot :
    Enforcer
    → (String → Option SpendRow)
    → Option Snapshot
    → Bool
    → Enforcer × (String → Option SpendRow)
write_snapshot e disk none saved = (e, disk)
write_snapshot e disk (some s) saved = let (e', disk', done) = persist e disk s saved in (e', disk')

-- `Settle`, with the new row of the ledger.
unfoldable pub settle_request : Guard → Reservation → Usage → String → String → ℕ → Bool → Guard × ℕ
unfolding price price_version write_snapshot
settle_request g r usage model provider now saved =
    let usd = price g.prices g.kind_of provider model usage in
    let (settled, snapshot) = settle g.enforcer r usage.total_tokens usd now in
    let (e', disk') = write_snapshot settled g.disk snapshot saved in
    (
      record g {
        enforcer = e';
        disk = disk';
        ledger =
            g.ledger
            ++ record {
              tenant = r.tenant;
              provider_kind = provider;
              model = model;
              prompt_tokens = usage.prompt_tokens;
              completion_tokens = usage.completion_tokens;
              usd = usd;
              price_version = price_version g.prices;
              request_id = r.id;
            }
              ∷ [];
      },
      usd,
    )

-- `Abort`
unfoldable pub abort_request : Guard → Reservation → ℕ → Guard
abort_request g r now = record g { enforcer = release g.enforcer r now }
