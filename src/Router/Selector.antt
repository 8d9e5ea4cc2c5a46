-- ===== src/Router/Selector.antt =====
-- internal/router/selector.go: the order in which a chain is tried.
-- The clock is read by the tracker only where `now` is the zero time; `clock` is that reading.
pub mod Exclusion
pub mod Ranking
pub mod Rotation
pub mod Members
use Prim.Native.Nat.{compare, Ordering}
use pen_stock.Base.{
  ℕ, zero, suc, ◌+◌, ◌%◌, ◌^◌, Bool, true, false, not, ◌&&◌, Option, none, some, String, List, [],
  ◌∷◌, map, length, get_elem?, ◌==◌, if◌then◌else◌,
}
use pen_stock.Router.Options.{Strategy, priority, least_latency, round_robin}
use pen_stock.Router.Health.{Tracker, available, latency}

-- A value of the interface `Selector`. The round robin one keeps its call counter, a uint64.
pub data Selector : Type 0 where
  priority_selector : Selector
  least_latency_selector : Selector
  round_robin_selector : ℕ → Selector

-- `NewSelector`. Every other spelling of a strategy is refused by the type `Strategy`; `none` is
-- the empty one, which is an error.
unfoldable pub new_selector : Option Strategy → Option Selector
new_selector none = none
new_selector (some priority) = some priority_selector
new_selector (some least_latency) = some least_latency_selector
new_selector (some round_robin) = some (round_robin_selector 0)

-- The loop of `availableFrom` over a tracker: asking may claim a probe, so the tracker changes.
unfoldable pub available_names : Tracker → List String → ℕ → ℕ → Tracker × List String
available_names t [] clock now = (t, [])
available_names t (name ∷ chain) clock now =
    let (t', ok) = available t name clock now in
    let (t'', rest) = available_names t' chain clock now in (t'', if ok then name ∷ rest else rest)

-- `availableFrom`; `none` is a nil health.
unfoldable pub available_from : Option Tracker → List String → ℕ → ℕ → Option Tracker × List String
unfolding available_names
available_from none chain clock now = (none, chain)
available_from (some t) chain clock now =
    let (t', names) = available_names t chain clock now in (some t', names)

-- `latencyRank`: `none` is not sampled.
pub record LatencyRank : Type 0 where
  pub name : String
  pub ttft : Option ℕ

rank_of : Option Tracker → String → LatencyRank
rank_of none name = record { name = name; ttft = none }
rank_of (some t) name = record { name = name; ttft = latency t name }

-- The comparator.
abbrev pub compare_ttft : Option ℕ → Option ℕ → Ordering
compare_ttft none none = Ordering.eq
compare_ttft none (some b) = Ordering.lt
compare_ttft (some a) none = Ordering.gt
compare_ttft (some a) (some b) = compare a b

abbrev pub keeps_place : LatencyRank → LatencyRank → Bool
keeps_place a b = elim (compare_ttft a.ttft b.ttft) [ Ordering.gt ↦ false | _ ↦ true ]

-- `slices.SortStableFunc`: a stable sort by that comparator.
unfoldable pub insert : LatencyRank → List LatencyRank → List LatencyRank
insert r [] = r ∷ []
insert r (x ∷ xs) = if keeps_place r x then r ∷ x ∷ xs else x ∷ insert r xs

unfoldable pub stable_sort : List LatencyRank → List LatencyRank
unfolding insert
stable_sort [] = []
stable_sort (r ∷ rs) = insert r (stable_sort rs)

-- `leastLatencySelector.Order`, after `availableFrom`.
unfoldable pub by_latency : Option Tracker → List String → List String
unfolding stable_sort rank_of
by_latency h avail = map (λ r. r.name) (stable_sort (map (rank_of h) avail))

abbrev pub u64 : ℕ → ℕ
u64 n = n % 2 ^ 64

abbrev pub pick : Option String → List String → List String
pick none rest = rest
pick (some name) rest = name ∷ rest

-- The loop of `roundRobinSelector.Order`, with the rounds left and `i`. The index is always in range.
unfoldable pub rotate_loop : List String → ℕ → ℕ → ℕ → List String
rotate_loop avail start zero i = []
rotate_loop avail start (suc n) i =
    pick (get_elem? avail (u64 (start + i) % length avail)) (rotate_loop avail start n (suc i))

-- `roundRobinSelector.Order`, after `availableFrom`: the new counter and the result. `calls.Add(1) - 1`
-- is the counter before the call, at every value of the counter.
unfoldable pub round_robin_order : ℕ → List String → ℕ × List String
unfolding rotate_loop
round_robin_order calls avail =
    if length avail == 0
    then (calls, avail)
    else (u64 (calls + 1), rotate_loop avail calls (length avail) 0)

-- `Order`, of each selector.
unfoldable pub order :
    Selector → Option Tracker → List String → ℕ → ℕ → Selector × Option Tracker × List String
unfolding available_from by_latency round_robin_order
order priority_selector h chain clock now =
    let (h', avail) = available_from h chain clock now in (priority_selector, h', avail)
order least_latency_selector h chain clock now =
    let (h', avail) = available_from h chain clock now in
    (least_latency_selector, h', by_latency h' avail)
order (round_robin_selector calls) h chain clock now =
    let (h', avail) = available_from h chain clock now in
    let (calls', out) = round_robin_order calls avail in (round_robin_selector calls', h', out)
