-- ===== src/Cache/Exact.antt =====
-- internal/cache/exact.go: the cache of whole answers under the exact request that produced them. The
-- intrusive list, from its head, is the list of the nodes, most recently used first. The map of each
-- tenant holds the nodes of that list and no others, so that a lookup in it, which the code makes by
-- tenant and then by model and hash, finds the node with that key. `snapshot` copies an entry, which
-- is the entry itself where nothing is shared. A method takes the cache and returns the new one.
pub mod Recency
pub mod Bounds
pub mod Forgetting
pub mod Answers
pub mod Hits
use pen_stock.Base.{
  ℕ, zero, suc, ◌+◌, ◌-◌, Bool, true, false, not, ◌&&◌, Option, none, some, List, [], ◌∷◌, ◌++◌,
  length, ltb, leb, ◌==◌, if◌then◌else◌,
}
use pen_stock.Cache.Types.{Entry, Key, same_key, Event, exact_hit, miss, stored, evicted}

abbrev pub default_exact_max_entries : ℕ
default_exact_max_entries = 4096

abbrev pub default_exact_ttl : ℕ
default_exact_ttl = 300_000_000_000

pub record Node : Type 0 where
  pub key : Key
  pub entry : Entry
  pub expires_at : ℕ

pub record Exact : Type 0 where
  pub nodes : List Node
  pub size : ℕ
  pub max_entries : ℕ
  pub ttl : ℕ

-- `NewExact`; a negative limit is read by the code as zero is.
unfoldable pub new_exact : ℕ → ℕ → Exact
new_exact max_entries ttl = record {
  nodes = [];
  size = 0;
  max_entries = if leb max_entries 0 then default_exact_max_entries else max_entries;
  ttl = if leb ttl 0 then default_exact_ttl else ttl;
}

-- `byTenant[k.Tenant][exactKey{k.Model, k.Hash}]`
unfoldable pub find : Key → List Node → Option Node
find k [] = none
find k (n ∷ ns) = let rest = find k ns in if same_key n.key k then some n else rest

-- `unlink`, of the node with this key.
unfoldable pub unlink : Key → List Node → List Node
unlink k [] = []
unlink k (n ∷ ns) = let rest = unlink k ns in if same_key n.key k then ns else n ∷ rest

-- `drop`
unfoldable pub drop_node : Exact → Key → Exact
unfolding unlink
drop_node c k = record c { nodes = unlink k c.nodes; size = c.size - 1 }

-- `lookup`, on what the maps hold.
unfoldable pub look : Option Node → Exact → Key → ℕ → Exact × Option Entry
unfolding drop_node unlink
look none c k now = (c, none)
look (some n) c k now =
    if not (ltb now n.expires_at)
    then (drop_node c n.key, none)
    else (record c { nodes = n ∷ unlink n.key c.nodes }, some n.entry)

unfoldable pub lookup : Exact → Key → ℕ → Exact × Option Entry
unfolding look find
lookup c k now = look (find k c.nodes) c k now

unfoldable pub event_of : Option Entry → Event
event_of none = miss
event_of (some e) = exact_hit

-- `Get`
unfoldable pub get : Exact → Key → ℕ → Exact × Option Entry × Event
unfolding lookup event_of
get c k now = let (c', answer) = lookup c k now in (c', answer, event_of answer)

-- `if entry.StoredAt.IsZero() { entry.StoredAt = now }`
abbrev pub stamp : Entry → ℕ → Entry
stamp e now = record e { stored_at = if e.stored_at == 0 then now else e.stored_at }

-- The list without its tail.
unfoldable pub drop_tail : List Node → List Node
drop_tail [] = []
drop_tail (n ∷ []) = []
drop_tail (n ∷ m ∷ ns) = n ∷ drop_tail (m ∷ ns)

abbrev is_nil : List Node → Bool
is_nil [] = true
is_nil (n ∷ ns) = false

-- The loop of `insert` that drops the tail, with the number of rounds so far. Each round takes one
-- node, so that the number of the nodes is fuel enough.
unfoldable pub evict : ℕ → Exact → ℕ → Exact × ℕ
unfolding drop_tail
evict zero c n = (c, n)
evict (suc fuel) c n =
    let rest = evict fuel (record c { nodes = drop_tail c.nodes; size = c.size - 1 }) (n + 1) in
    if ltb c.max_entries c.size && not (is_nil c.nodes) then rest else (c, n)

-- `insert`, on what the maps hold.
unfoldable pub put_node : Option Node → Exact → Key → Entry → ℕ → Exact × ℕ
unfolding evict unlink
put_node (some n) c k e now =
    let node = record n { entry = stamp e now; expires_at = now + c.ttl } in
    (record c { nodes = node ∷ unlink n.key c.nodes }, 0)
put_node none c k e now =
    let node : Node = record { key = k; entry = stamp e now; expires_at = now + c.ttl } in
    let c' = record c { nodes = node ∷ c.nodes; size = c.size + 1 } in evict (length c'.nodes) c' 0

unfoldable pub insert_entry : Exact → Key → Entry → ℕ → Exact × ℕ
unfolding put_node find
insert_entry c k e now = put_node (find k c.nodes) c k e now

unfoldable pub evictions : ℕ → List Event
evictions zero = []
evictions (suc n) = evicted ∷ evictions n

-- `Put`; `none` is a nil entry.
unfoldable pub put : Exact → Key → Option Entry → ℕ → Exact × List Event
unfolding insert_entry evictions
put c k none now = (c, [])
put c k (some e) now = let (c', n) = insert_entry c k e now in (c', evictions n ++ stored ∷ [])
