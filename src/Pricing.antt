-- ===== src/Pricing.antt =====
-- internal/pricing/pricing.go: what a completion costs. Amounts are counted in millionths of the unit
-- of the rates, so that the division by a million is exact; the rates are not negative, which
-- `Validate` sees to.
use Prim.Native.String
use pen_stock.Base.{ℕ, ◌+◌, ◌*◌, Bool, Option, none, some, String, if◌then◌else◌}
use pen_stock.Providers.Types.{Usage}

pub record Price : Type 0 where
  pub input_per_mtok : ℕ
  pub output_per_mtok : ℕ
  pub free : Bool

pub record Table : Type 0 where
  pub version : ℕ
  pub prices : String → Option Price

pub record Cost : Type 0 where
  pub usd : ℕ
  pub price_version : ℕ
  pub free : Bool

-- `key`
unfoldable pub price_key : String → String → String
price_key kind model = String.◌++◌ kind (String.◌++◌ "/" model)

-- `costUSD`
unfoldable pub cost_usd : Price → ℕ → ℕ → ℕ
cost_usd p prompt_tokens completion_tokens =
    if p.free then 0 else prompt_tokens * p.input_per_mtok + completion_tokens * p.output_per_mtok

unfoldable pub priced : Option Price → ℕ → Usage → Option Cost
unfolding cost_usd
priced none version u = none
priced (some p) version u = some (record {
  usd = cost_usd p u.prompt_tokens u.completion_tokens;
  price_version = version;
  free = p.free;
})

-- `Cost`: `none` is an unpriced model.
unfoldable pub cost : Table → String → String → Usage → Option Cost
unfolding priced price_key
cost t kind model u = priced (t.prices (price_key kind model)) t.version u
