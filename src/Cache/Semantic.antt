-- ===== src/Cache/Semantic.antt =====
-- internal/cache/semantic.go: the store of answers by the similarity of their questions. The cosine of
-- two vectors is float64 arithmetic and is given as `similarity`, a number that is not negative: a
-- negative cosine is below every threshold, as 0 is.
pub mod Nearest
use pen_stock.Base.{
  ℕ, zero, suc, ◌+◌, ◌-◌, Bool, true, false, not, ◌&&◌, ◌||◌, Option, none, some, String, List, [],
  ◌∷◌, ◌++◌, length, drop, ltb, leb, ◌==◌, same, if◌then◌else◌,
}
use pen_stock.Cache.Types.{Entry}

-- The components of an embedding, each a number by which it is told from the others.
abbrev pub Vector : Type 0
Vector = List ℕ

abbrev pub default_max_per_tenant : ℕ
default_max_per_tenant = 1024

pub record SemanticRecord : Type 0 where
  pub vector : Vector
  pub entry : Entry
  pub stored_at : ℕ

pub record SemanticStore : Type 0 where
  pub threshold : ℕ
  pub max_per_tenant : ℕ
  pub ttl : ℕ
  pub dims : ℕ
  pub tenants : String → List SemanticRecord

-- `NewSemantic`, given the default threshold in the units of `similarity`.
unfoldable pub new_semantic : ℕ → ℕ → ℕ → ℕ → SemanticStore
new_semantic default_threshold threshold max_per_tenant ttl = record {
  threshold = if leb threshold 0 then default_threshold else threshold;
  max_per_tenant = if leb max_per_tenant 0 then default_max_per_tenant else max_per_tenant;
  ttl = ttl;
  dims = 0;
  tenants = λ _. [];
}

-- `expired`
unfoldable pub is_expired : ℕ → ℕ → ℕ → Bool
is_expired stored_at ttl now = ltb 0 ttl && leb (stored_at + ttl) now

-- `if best == nil || score > bestScore { ... }`
abbrev pub better : Option (Entry × ℕ) → Entry → ℕ → Option (Entry × ℕ)
better none e score = some (e, score)
better (some (best, best_score)) e score =
    if ltb best_score score then some (e, score) else some (best, best_score)

module _ (similarity : Vector → Vector → ℕ) where
  -- One round of the loop of `scanTenant`.
  unfoldable pub consider :
      Vector → ℕ → ℕ → ℕ → Option (Entry × ℕ) → SemanticRecord → Option (Entry × ℕ)
  unfolding is_expired
  consider query threshold ttl now best r =
      if is_expired r.stored_at ttl now
      then best
      else if ltb (similarity query r.vector) threshold
      then best
      else better best r.entry (similarity query r.vector)

  -- `scanTenant`
  unfoldable pub scan_tenant :
      Vector → ℕ → ℕ → ℕ → Option (Entry × ℕ) → List SemanticRecord → Option (Entry × ℕ)
  scan_tenant query threshold ttl now best [] = best
  scan_tenant query threshold ttl now best (r ∷ rs) =
      scan_tenant query threshold ttl now (consider query threshold ttl now best r) rs

  -- `Nearest`; `none` is a miss.
  unfoldable pub nearest : SemanticStore → String → Vector → ℕ → Option (Entry × ℕ)
  unfolding scan_tenant
  nearest s tenant embedding now =
      if length embedding == 0
      then none
      else if length embedding == s.dims
      then scan_tenant embedding s.threshold s.ttl now none (s.tenants tenant)
      else none

-- `dropExpired`: the expired records at the front are dropped, and the first that has not expired is kept
-- with all that stand behind it, expired or not.
unfoldable pub drop_expired : ℕ → ℕ → List SemanticRecord → List SemanticRecord
unfolding is_expired
drop_expired ttl now [] = []
drop_expired ttl now (r ∷ rs) =
    let shorter = drop_expired ttl now rs in
    if not (is_expired r.stored_at ttl now) then r ∷ rs else shorter

-- The tenant's records after a new one is appended, within the bound.
unfoldable pub append_record :
    SemanticStore → List SemanticRecord → SemanticRecord → ℕ → List SemanticRecord
unfolding drop_expired
append_record s records r now =
    let kept = drop_expired s.ttl now records ++ r ∷ [] in
    drop (length kept - s.max_per_tenant) kept

-- `Add`
unfoldable pub add_record : SemanticStore → String → Vector → Entry → ℕ → SemanticStore
unfolding append_record
add_record s tenant embedding e now =
    let dims = if s.dims == 0 then length embedding else s.dims in
    let r : SemanticRecord = record { vector = embedding; entry = e; stored_at = now } in
    if length embedding == 0
    then s
    else if length embedding == dims
    then record s {
      dims = dims;
      tenants =
          λ t. if same tenant t then append_record s (s.tenants tenant) r now else s.tenants t;
    }
    else record s { dims = dims }
