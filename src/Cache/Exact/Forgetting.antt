-- ===== src/Cache/Exact/Forgetting.antt =====
-- Which entries internal/cache/exact.go forgets first.
use pen_stock.Base.{
  ℕ, suc, ◌+◌, ◌-◌, ◌<◌, ◌≡◌, inl, inr, refl, sym, ap, subst, ◌∙◌, true, false, none, some, List,
  [], ◌∷◌, ◌++◌, length, take, arith, Bool-cases, ltb,
}
use pen_stock.Cache.Types.{Key, Entry, stored, same_key, same_key→eq}
use pen_stock.Cache.Exact.{
  Node, Exact, find, unlink, look, lookup, get, stamp, put_node, insert_entry, put, evictions,
}
use pen_stock.Cache.Exact.Recency.{find-key, find-absent, absent-find, All-unlink}
use pen_stock.Cache.Exact.Bounds.{Valid, gets, puts, step-Valid, put-take}

-- The node of an entry that is stored.
abbrev pub node_of : Exact → Key → Entry → ℕ → Node
node_of c k e now = record { key = k; entry = stamp e now; expires_at = now + c.ttl }

-- `Get` of an entry that is there and has not expired.
get-front :
    (c : Exact) (k : Key) (now : ℕ) (n : Node)
    → find k c.nodes ≡ some n
    → now < n.expires_at
    → (get c k now).0 ≡ record c { nodes = n ∷ unlink k c.nodes }
unfolding get lookup look
get-front c k now n h fresh =
    let live : ltb now n.expires_at ≡ true = ground (arith, fresh) in
    rw (h, live) (ap (λ j. record c { nodes = n ∷ unlink j c.nodes }) (find-key k c.nodes n h))

-- `Put` over an entry that is there.
put-front :
    (c : Exact) (k : Key) (e : Entry) (now : ℕ) (n : Node)
    → find k c.nodes ≡ some n
    → (put c k (some e) now).0 ≡ record c { nodes = node_of c k e now ∷ unlink k c.nodes }
unfolding put insert_entry put_node
put-front c k e now n h = rw h (
    ap
      (λ j. record c {
        nodes =
            record { key = j; entry = stamp e now; expires_at = now + c.ttl } ∷ unlink j c.nodes;
      })
      (find-key k c.nodes n h))

-- A key that is not there is none of those that are.
other_key :
    (k j : Key) (ns : List Node) (n : Node)
    → find k ns ≡ some n
    → find j ns ≡ none
    → same_key k j ≡ false
other_key k j ns n h a = elim (Bool-cases (same_key k j)) [
  | inl e ↦ absurd (cc (sym h ∙ (ap (λ i. find i ns) (same_key→eq k j e) ∙ a)))
  | inr e ↦ e
]

-- The next entry after one under `k` was used.
forgets-after :
    (c : Exact) (k j : Key) (n m : Node) (e : Entry) (later : ℕ)
    → Valid (record c { nodes = m ∷ unlink k c.nodes })
    → find k c.nodes ≡ some n
    → m.key ≡ k
    → find j c.nodes ≡ none
    → let c' : Exact = record c { nodes = m ∷ unlink k c.nodes } in
      (put c' j (some e) later).0.nodes
      ≡ take c.max_entries (node_of c j e later ∷ m ∷ unlink k c.nodes)
forgets-after c k j n m e later v h same_keys a =
    let c' : Exact = record c { nodes = m ∷ unlink k c.nodes } in
    let apart = subst (λ i. same_key i j ≡ false) (sym same_keys) (other_key k j c.nodes n h a) in
    let others = All-unlink (λ q. same_key q.key j ≡ false) k c.nodes (absent-find j c.nodes a) in
    (put-take c' j e later v (find-absent j c'.nodes (apart, others))).0

-- The cache forgets the least recently used entry first. When an entry is stored under a key `j` that is
-- not held, it comes first, the others keep their order, and those that there is no more room for are
-- the last ones, with one `evicted` event for each. And an entry under `k` that `Get` found unexpired, or
-- that `Put` replaced, has come before all that were there: the next entry that is stored finds it in
-- front, so that it is forgotten after each of them.
pub put-forgets :
    (c : Exact) (k j : Key) (n : Node) (e x : Entry) (now later : ℕ)
    → Valid c
    → find k c.nodes ≡ some n
    → now < n.expires_at
    → find j c.nodes ≡ none
    → ((put c j (some e) later).0.nodes ≡ take c.max_entries (node_of c j e later ∷ c.nodes))
      × ((put c j (some e) later).1
          ≡ evictions (suc (length c.nodes) - c.max_entries) ++ stored ∷ [])
      × ((put (get c k now).0 j (some e) later).0.nodes
          ≡ take c.max_entries (node_of c j e later ∷ n ∷ unlink k c.nodes))
      × ((put (put c k (some x) now).0 j (some e) later).0.nodes
          ≡ take c.max_entries (node_of c j e later ∷ node_of c k x now ∷ unlink k c.nodes))
put-forgets c k j n e x now later v h fresh a =
    let plain = put-take c j e later v a in
    let hit = get-front c k now n h fresh in
    let replaced = put-front c k x now n h in
    (
      plain.0,
      plain.1,
      ap (λ c'. (put c' j (some e) later).0.nodes) hit
          ∙ forgets-after c k j n n e later (subst Valid hit (step-Valid c (gets k now) v)) h
              (find-key k c.nodes n h) a,
      ap (λ c'. (put c' j (some e) later).0.nodes) replaced
          ∙ forgets-after c k j n (node_of c k x now) e later
              (subst Valid replaced (step-Valid c (puts k (some x) now) v)) h refl a,
    )
