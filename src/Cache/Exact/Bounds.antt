-- ===== src/Cache/Exact/Bounds.antt =====
-- The size of the cache and the order in which it forgets (internal/cache/exact.go).
use pen_stock.Base.{
  ℕ, zero, suc, ◌+◌, ◌-◌, ◌<◌, ◌≤◌, ◌≡◌, inl, inr, refl, sym, ap, subst, ◌∙◌, false, not, Option,
  none, some, List, [], ◌∷◌, ◌++◌, length, take, All, arith, Bool-cases, ltb,
}
use pen_stock.Cache.Types.{Key, Entry, stored, same_key}
use pen_stock.Cache.Exact.{
  Node, Exact, new_exact, find, unlink, drop_tail, drop_node, look, lookup, get, stamp, evict,
  put_node, insert_entry, put, evictions,
}
use pen_stock.Cache.Exact.Recency.{
  Distinct, Distinct-unlink, length-drop_tail, find-key, length-unlink, absent-find, unlink-absent,
  Distinct-take, length-take, take_all, take-drop_tail,
}

abbrev pub cache : List Node → ℕ → ℕ → ℕ → Exact
cache ns size max_entries ttl = record {
  nodes = ns;
  size = size;
  max_entries = max_entries;
  ttl = ttl;
}

stops :
    (max_entries ttl n : ℕ) (ns : List Node)
    → length ns ≤ max_entries
    → ◌≡◌ {A = Exact × ℕ}
        (cache ns (length ns) max_entries ttl, n)
        (
          cache (take max_entries ns) (length (take max_entries ns)) max_entries ttl,
          n + (length ns - max_entries),
        )
stops max_entries ttl n ns h =
    rw (take_all max_entries ns h)
      (ap (λ i. (cache ns (length ns) max_entries ttl, i)) (omega arith))

same_result :
    (max_entries ttl : ℕ) (ms ns : List Node) (a b : ℕ)
    → ms ≡ ns
    → a ≡ b
    → ◌≡◌ {A = Exact × ℕ}
        (cache ms (length ms) max_entries ttl, a)
        (cache ns (length ns) max_entries ttl, b)
same_result max_entries ttl ms ns a b p q = λ i. (cache (p i) (length (p i)) max_entries ttl, q i)

-- The loop keeps the nodes that were used last, as many as there is room for, and counts the others.
pub evict-take :
    (fuel max_entries ttl n : ℕ) (ns : List Node)
    → length ns ≤ fuel
    → evict fuel (cache ns (length ns) max_entries ttl) n ≡ (
      cache (take max_entries ns) (length (take max_entries ns)) max_entries ttl,
      n + (length ns - max_entries),
    )
unfolding evict
evict-take zero max_entries ttl n ns h = stops max_entries ttl n ns (omega arith)
evict-take (suc fuel) max_entries ttl n [] h =
    rw (is_full max_entries) (stops max_entries ttl n [] (omega arith))
  where
    is_full : (m : ℕ) → ltb m 0 ≡ false
    is_full m = ground arith
evict-take (suc fuel) max_entries ttl n (x ∷ ns) h =
    elim (Bool-cases (ltb max_entries (suc (length ns)))) [
      | inl e ↦
          let less = length-drop_tail (x ∷ ns) in
          rw e (
            ap (λ z. evict fuel (cache (drop_tail (x ∷ ns)) z max_entries ttl) (n + 1)) (sym less)
            ∙ (evict-take fuel max_entries ttl (n + 1) (drop_tail (x ∷ ns)) (omega (arith, less))
                ∙ same_result max_entries ttl _ _ _ _
                    (take-drop_tail max_entries (x ∷ ns) (ground (arith, e)))
                    (ground (arith, less, e))))
      | inr e ↦ rw e (stops max_entries ttl n (x ∷ ns) (ground (arith, e)))
    ]

-- The cache is in order: its count is that of its nodes, which is within the bound, and no key occurs
-- twice.
pub record Valid (c : Exact) : Type 0 where
  pub counted : c.size ≡ length c.nodes
  pub bounded : c.size ≤ c.max_entries
  pub distinct : Distinct c.nodes
  pub roomy : 0 < c.max_entries

pub new_exact-Valid : (max_entries ttl : ℕ) → Valid (new_exact max_entries ttl)
unfolding new_exact
new_exact-Valid max_entries ttl = record {
  counted = refl;
  bounded = omega arith;
  distinct = tt;
  roomy = ground arith;
}

pub find-own :
    (c : Exact) (k : Key) (n : Node) → find k c.nodes ≡ some n → find n.key c.nodes ≡ some n
find-own c k n h = subst (λ j. find j c.nodes ≡ some n) (sym (find-key k c.nodes n h)) h

-- The node goes to the front, its entry replaced or not.
front-Valid :
    (c : Exact) (k : Key) (n m : Node)
    → find k c.nodes ≡ some n
    → m.key ≡ n.key
    → Valid c
    → Valid (record c { nodes = m ∷ unlink n.key c.nodes })
front-Valid c k n m h same_keys v = record {
  counted = v.counted ∙ sym (length-unlink n.key c.nodes n (find-own c k n h));
  bounded = v.bounded;
  distinct = (
    subst (λ j. All (λ q. same_key q.key j ≡ false) (unlink n.key c.nodes)) (sym same_keys)
        (unlink-absent n.key c.nodes v.distinct),
    Distinct-unlink n.key c.nodes v.distinct,
  );
  roomy = v.roomy;
}

-- What `Get` on a key that is there leaves: the node at the front, or nothing if it has expired.
look-Valid :
    (c : Exact) (k : Key) (now : ℕ) (o : Option Node)
    → find k c.nodes ≡ o
    → Valid c
    → Valid (look o c k now).0
unfolding look drop_node
look-Valid c k now none h v = v
look-Valid c k now (some n) h v = elim (Bool-cases (not (ltb now n.expires_at))) [
  | inl e ↦ rw e gone
  | inr e ↦ rw e touched
]
  where
    less : suc (length (unlink n.key c.nodes)) ≡ length c.nodes
    less = length-unlink n.key c.nodes n (find-own c k n h)

    gone : Valid (drop_node c n.key)
    gone = record {
      counted = omega (arith, less, v.counted);
      bounded = omega (arith, v.bounded);
      distinct = Distinct-unlink n.key c.nodes v.distinct;
      roomy = v.roomy;
    }

    touched : Valid (record c { nodes = n ∷ unlink n.key c.nodes })
    touched = front-Valid c k n n h refl v

-- A new entry at the front pushes out what there is no room for, the least recently used first.
pub put_node-take :
    (c : Exact) (k : Key) (e : Entry) (now : ℕ)
    → c.size ≡ length c.nodes
    → let node : Node = record { key = k; entry = stamp e now; expires_at = now + c.ttl } in
      put_node none c k e now ≡ (
        cache
            (take c.max_entries (node ∷ c.nodes))
            (length (take c.max_entries (node ∷ c.nodes)))
            c.max_entries
            c.ttl,
        suc (length c.nodes) - c.max_entries,
      )
unfolding put_node
put_node-take c k e now h =
    let node : Node = record { key = k; entry = stamp e now; expires_at = now + c.ttl } in
    ap (λ z. evict (suc (length c.nodes)) (cache (node ∷ c.nodes) z c.max_entries c.ttl) 0)
      (omega (arith, h))
    ∙ (evict-take (suc (length c.nodes)) c.max_entries c.ttl 0 (node ∷ c.nodes) (omega arith)
        ∙ same_result c.max_entries c.ttl _ _ _ _ refl (omega arith))

put_node-Valid :
    (c : Exact) (k : Key) (e : Entry) (now : ℕ) (o : Option Node)
    → find k c.nodes ≡ o
    → Valid c
    → Valid (put_node o c k e now).0
unfolding put_node
put_node-Valid c k e now none h v =
    let node : Node = record { key = k; entry = stamp e now; expires_at = now + c.ttl } in
    let made : Valid (
        cache (take c.max_entries (node ∷ c.nodes)) (length (take c.max_entries (node ∷ c.nodes)))
          c.max_entries c.ttl) =
      record {
        counted = refl;
        bounded = length-take c.max_entries (node ∷ c.nodes);
        distinct =
            Distinct-take c.max_entries (node ∷ c.nodes) (absent-find k c.nodes h, v.distinct);
        roomy = v.roomy;
      } in
    subst (λ z. Valid z.0) (sym (put_node-take c k e now v.counted)) made
put_node-Valid c k e now (some n) h v = front-Valid c k n _ h refl v

pub data Op : Type 0 where
  gets : Key → ℕ → Op
  puts : Key → Option Entry → ℕ → Op

abbrev pub step : Exact → Op → Exact
step c (gets k now) = (get c k now).0
step c (puts k e now) = (put c k e now).0

-- One call after another: each holds the one mutex.
abbrev pub run : Exact → List Op → Exact
run c [] = c
run c (op ∷ ops) = run (step c op) ops

pub step-Valid : (c : Exact) (op : Op) → Valid c → Valid (step c op)
unfolding get lookup put insert_entry
step-Valid c (gets k now) v = look-Valid c k now (find k c.nodes) refl v
step-Valid c (puts k none now) v = v
step-Valid c (puts k (some e) now) v = put_node-Valid c k e now (find k c.nodes) refl v

pub run-Valid : (c : Exact) (ops : List Op) → Valid c → Valid (run c ops)
run-Valid c [] v = v
run-Valid c (op ∷ ops) v = run-Valid (step c op) ops (step-Valid c op v)

pub run-new_exact-Valid :
    (max_entries ttl : ℕ) (ops : List Op) → Valid (run (new_exact max_entries ttl) ops)
run-new_exact-Valid max_entries ttl ops = run-Valid _ ops (new_exact-Valid max_entries ttl)

-- `Put` of a key that is not there: what there is no room for is taken from the end.
pub put-take :
    (c : Exact) (k : Key) (e : Entry) (now : ℕ)
    → Valid c
    → find k c.nodes ≡ none
    → ((put c k (some e) now).0.nodes
        ≡ take c.max_entries
            (record { key = k; entry = stamp e now; expires_at = now + c.ttl } ∷ c.nodes))
      × ((put c k (some e) now).1 ≡ evictions (suc (length c.nodes) - c.max_entries) ++ stored ∷ [])
unfolding put insert_entry
put-take c k e now v h = rw h (rw (put_node-take c k e now v.counted) (refl, refl))
