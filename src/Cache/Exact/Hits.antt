-- ===== src/Cache/Exact/Hits.antt =====
-- An answer that was stored is found again (internal/cache/exact.go).
use pen_stock.Base.{
  ℕ, zero, suc, ◌+◌, ◌<◌, ◌≡◌, refl, sym, ap, subst, true, false, not, Option, none, some, List,
  ◌∷◌, take, arith, ltb,
}
use pen_stock.Cache.Types.{Key, Entry, exact_hit, same_key, same_key_refl}
use pen_stock.Cache.Exact.{
  Node, Exact, find, look, lookup, get, stamp, put_node, insert_entry, put, event_of,
}
use pen_stock.Cache.Exact.Recency.{find-key}
use pen_stock.Cache.Exact.Bounds.{Valid, put_node-take}

find-take_head :
    (k : Key) (i : ℕ) (n : Node) (ns : List Node)
    → 0 < i
    → same_key n.key k ≡ true
    → find k (take i (n ∷ ns)) ≡ some n
unfolding find
find-take_head k zero n ns h e = absurd (omega arith)
find-take_head k (suc i) n ns h e = rw e refl

-- What the cache holds under a key that an entry was just stored under.
Holds : Key → Entry → ℕ → List Node → Type 0
Holds k e expires_at ns =
    (n : Node) × (find k ns ≡ some n) × (n.entry ≡ e) × (n.expires_at ≡ expires_at)

put-Holds :
    (c : Exact) (k : Key) (e : Entry) (now : ℕ) (o : Option Node)
    → find k c.nodes ≡ o
    → Valid c
    → Holds k (stamp e now) (now + c.ttl) (put_node o c k e now).0.nodes
unfolding put_node Holds find
put-Holds c k e now none h v =
    let node : Node = record { key = k; entry = stamp e now; expires_at = now + c.ttl } in
    let found = find-take_head k c.max_entries node c.nodes v.roomy (same_key_refl k) in
    let kept : Holds k (stamp e now) (now + c.ttl) (take c.max_entries (node ∷ c.nodes)) =
      (node, found, refl, refl) in
    subst (λ z. Holds k (stamp e now) (now + c.ttl) z.0.nodes)
      (sym (put_node-take c k e now v.counted)) kept
put-Holds c k e now (some n) h v =
    let node : Node = record { key = n.key; entry = stamp e now; expires_at = now + c.ttl } in
    (
      node,
      rw (subst (λ i. same_key i k ≡ true) (sym (find-key k c.nodes n h)) (same_key_refl k)) refl,
      refl,
      refl,
    )

Answers : Key → ℕ → Entry → Exact → Option Node → Type 0
Answers k now e c o = ((look o c k now).1 ≡ some e)

look-Answers :
    (c : Exact) (k : Key) (now : ℕ) (n : Node)
    → now < n.expires_at
    → Answers k now n.entry c (some n)
unfolding look Answers
look-Answers c k now n h = rw (fresh_enough now n.expires_at h) refl
  where
    fresh_enough : (a b : ℕ) → a < b → not (ltb a b) ≡ false
    fresh_enough a b h = ground (arith, h)

-- What `Put` stores `Get` gives back, unchanged but for the time stamp that an entry without one gets,
-- and reports as a hit, until its lifetime is over. The cache is one that calls have led to, and the
-- key is the same in tenant, model and hash.
pub put-get :
    (c : Exact) (k : Key) (e : Entry) (now later : ℕ)
    → Valid c
    → later < now + c.ttl
    → ((get (put c k (some e) now).0 k later).1 ≡ some (stamp e now))
      × ((get (put c k (some e) now).0 k later).2 ≡ exact_hit)
unfolding get lookup put insert_entry Answers Holds event_of
put-get c k e now later v h =
    let (n, found, own, until) = put-Holds c k e now (find k c.nodes) refl v in
    let c' = (put_node (find k c.nodes) c k e now).0 in
    let hit : (look (find k c'.nodes) c' k later).1 ≡ some (stamp e now) =
      subst (λ o. (look o c' k later).1 ≡ some (stamp e now)) (sym found)
        (subst (λ x. (look (some n) c' k later).1 ≡ some x) own
          (look-Answers c' k later n (rw until h))) in
    (hit, ap event_of hit)
