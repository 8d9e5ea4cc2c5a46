-- ===== src/Cache/Types.antt =====
-- internal/cache/types.go: entries, keys and events. Bytes are numbers, money is in exact units, and a
-- time is a number of nanoseconds, 0 the zero time.
use pen_stock.Base.{ℕ, Bool, ◌&&◌, String, List, same, ◌≡◌, refl, true, arith, same→eq, same_refl}
use pen_stock.Providers.Types.{Bytes, Usage}

pub record Entry : Type 0 where
  pub body : Bytes
  pub frames : List Bytes
  pub usage : Usage
  pub usd : ℕ
  pub provider : String
  pub model : String
  pub stored_at : ℕ

pub record Key : Type 0 where
  pub tenant : String
  pub model : String
  pub hash : String

pub data Event : Type 0 where
  exact_hit : Event
  miss : Event
  stored : Event
  evicted : Event

-- Two keys are the same in every part.
unfoldable pub same_key : Key → Key → Bool
same_key a b = same a.tenant b.tenant && (same a.model b.model && same a.hash b.hash)

pub same_key→eq : (a b : Key) → same_key a b ≡ true → a ≡ b
unfolding same_key
same_key→eq a b h =
    let tenants = same→eq a.tenant b.tenant (ground (arith, h)) in
    let models = same→eq a.model b.model (ground (arith, h)) in
    let hashes = same→eq a.hash b.hash (ground (arith, h)) in
    λ i. record { tenant = tenants i; model = models i; hash = hashes i }

pub same_key_refl : (a : Key) → same_key a a ≡ true
unfolding same_key
same_key_refl a = rw (same_refl a.tenant, same_refl a.model, same_refl a.hash) refl
