-- ===== src/Router/Selector/Members.antt =====
-- Every selector returns providers of the chain only (internal/router/selector.go).
use pen_stock.Base.{
  ℕ, zero, suc, ◌+◌, ◌%◌, Option, none, some, String, List, [], ◌∷◌, All, length, get_elem?, ◌==◌,
  Bool-cases, inl, inr,
}
use pen_stock.Router.Health.{Tracker, available}
use pen_stock.Router.Selector.{
  Selector, priority_selector, least_latency_selector, round_robin_selector, available_names,
  available_from, rotate_loop, round_robin_order, order, pick, u64,
}
use pen_stock.Router.Selector.Ranking.{by_latency-sort, sort_names-All}

module _ (P : String → Type 0) where
  available_names-All :
      (t : Tracker) (chain : List String) (clock now : ℕ)
      → All P chain
      → All P (available_names t chain clock now).1
  unfolding available_names
  available_names-All t [] clock now h = tt
  available_names-All t (p ∷ chain) clock now h = elim (Bool-cases (available t p clock now).1) [
    | inl e ↦ rw e (h.0, available_names-All (available t p clock now).0 chain clock now h.1)
    | inr e ↦ rw e (available_names-All (available t p clock now).0 chain clock now h.1)
  ]

  available_from-All :
      (h : Option Tracker) (chain : List String) (clock now : ℕ)
      → All P chain
      → All P (available_from h chain clock now).1
  unfolding available_from
  available_from-All none chain clock now k = k
  available_from-All (some t) chain clock now k = available_names-All t chain clock now k

  pick-All :
      (xs : List String) (i : ℕ) (rest : List String)
      → All P xs
      → All P rest
      → All P (pick (get_elem? xs i) rest)
  pick-All [] i rest h k = k
  pick-All (x ∷ xs) zero rest h k = (h.0, k)
  pick-All (x ∷ xs) (suc i) rest h k = pick-All xs i rest h.1 k

  rotate_loop-All :
      (avail : List String) (start n i : ℕ) → All P avail → All P (rotate_loop avail start n i)
  unfolding rotate_loop
  rotate_loop-All avail start zero i h = tt
  rotate_loop-All avail start (suc n) i h =
      pick-All avail (u64 (start + i) % length avail) (rotate_loop avail start n (suc i)) h
        (rotate_loop-All avail start n (suc i) h)

  round_robin_order-All :
      (calls : ℕ) (avail : List String) → All P avail → All P (round_robin_order calls avail).1
  unfolding round_robin_order
  round_robin_order-All calls avail h = elim (Bool-cases (length avail == 0)) [
    | inl e ↦ rw e h
    | inr e ↦ rw e (rotate_loop-All avail calls (length avail) 0 h)
  ]

  pub order-All :
      (sel : Selector) (h : Option Tracker) (chain : List String) (clock now : ℕ)
      → All P chain
      → All P (order sel h chain clock now).2
  unfolding order
  order-All priority_selector h chain clock now k = available_from-All h chain clock now k
  order-All least_latency_selector h chain clock now k =
      rw (by_latency-sort (available_from h chain clock now).0 (available_from h chain clock now).1)
        (sort_names-All _ P _ (available_from-All h chain clock now k))
  order-All (round_robin_selector calls) h chain clock now k =
      round_robin_order-All calls _ (available_from-All h chain clock now k)
