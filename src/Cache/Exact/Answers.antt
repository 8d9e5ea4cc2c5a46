-- ===== src/Cache/Exact/Answers.antt =====
-- Which answer the cache gives (internal/cache/exact.go).
use pen_stock.Base.{
  ℕ, ◌+◌, ◌<◌, ◌≡◌, inl, inr, refl, sym, ap, subst, ◌∙◌, true, false, not, Option, none, some, List,
  [], ◌∷◌, take, arith, Bool-cases, if◌then◌else◌, ltb,
}
use pen_stock.Cache.Types.{Key, Entry, same_key, same_key→eq}
use pen_stock.Cache.Exact.{
  Node, Exact, new_exact, find, unlink, drop_node, look, lookup, get, stamp, put_node, insert_entry,
  put,
}
use pen_stock.Cache.Exact.Recency.{
  Distinct, find-key, find-absent, unlink-absent, find-unlink_other, find-take,
}
use pen_stock.Cache.Exact.Bounds.{
  Valid, Op, gets, puts, step, run, put_node-take, new_exact-Valid, step-Valid, find-own,
}

-- The last entry that was stored under a key, as it was stamped, and when it expires.
abbrev pub latest : ℕ → Key → Option (Entry × ℕ) → List Op → Option (Entry × ℕ)
latest ttl k last [] = last
latest ttl k last (gets j now ∷ ops) = latest ttl k last ops
latest ttl k last (puts j none now ∷ ops) = latest ttl k last ops
latest ttl k last (puts j (some e) now ∷ ops) =
    latest ttl k (if same_key j k then some (stamp e now, now + ttl) else last) ops

-- What is found is what was stored last.
abbrev Backed : Option (Entry × ℕ) → Option Node → Type 0
Backed last none = Unit {0}
Backed last (some n) = last ≡ some (n.entry, n.expires_at)

-- A node in front.
find-front :
    (k : Key) (m : Node) (ns : List Node)
    → find k (m ∷ unlink m.key ns) ≡ (if same_key m.key k then some m else find k ns)
unfolding find
find-front k m ns = elim (Bool-cases (same_key m.key k)) [
  | inl e ↦ rw e refl
  | inr e ↦ rw e (find-unlink_other m.key k ns e)
]

gone-Backed :
    (last : Option (Entry × ℕ)) (k j : Key) (ns : List Node)
    → Distinct ns
    → Backed last (find k ns)
    → Backed last (find k (unlink j ns))
gone-Backed last k j ns d b = elim (Bool-cases (same_key j k)) [
  | inl e ↦
      subst (Backed last)
        (sym (
          subst (λ i. find i (unlink j ns) ≡ none) (same_key→eq j k e)
            (find-absent j (unlink j ns) (unlink-absent j ns d))))
        tt
  | inr e ↦ subst (Backed last) (sym (find-unlink_other j k ns e)) b
]

-- Whatever stands in front is backed, if it is the last entry of its own key.
front-Backed :
    (last : Option (Entry × ℕ)) (k : Key) (m : Node) (ns : List Node)
    → (same_key m.key k ≡ true → last ≡ some (m.entry, m.expires_at))
    → Backed last (find k ns)
    → Backed last (if same_key m.key k then some m else find k ns)
front-Backed last k m ns own b = elim (Bool-cases (same_key m.key k)) [
  | inl e ↦ rw e (own e)
  | inr e ↦ rw e b
]

look-Backed :
    (last : Option (Entry × ℕ)) (k j : Key) (now : ℕ) (c : Exact) (o : Option Node)
    → find j c.nodes ≡ o
    → Valid c
    → Backed last (find k c.nodes)
    → Backed last (find k (look o c j now).0.nodes)
unfolding look drop_node
look-Backed last k j now c none h v b = b
look-Backed last k j now c (some n) h v b = elim (Bool-cases (not (ltb now n.expires_at))) [
  | inl e ↦ rw e (gone-Backed last k n.key c.nodes v.distinct b)
  | inr e ↦
      rw e
        (subst (Backed last) (sym (find-front k n c.nodes)) (front-Backed last k n c.nodes own b))
]
  where
    own : same_key n.key k ≡ true → last ≡ some (n.entry, n.expires_at)
    own s =
        subst (Backed last)
          (subst (λ i. find i c.nodes ≡ some n) (same_key→eq n.key k s) (find-own c j n h)) b

-- A new node in front.
new-Backed :
    (last : Option (Entry × ℕ)) (k : Key) (m : Node) (ms : List Node)
    → (same_key m.key k ≡ false → Backed last (find k ms))
    → Backed (if same_key m.key k then some (m.entry, m.expires_at) else last) (find k (m ∷ ms))
unfolding find
new-Backed last k m ms b = elim (Bool-cases (same_key m.key k)) [
  | inl e ↦ rw e refl
  | inr e ↦ rw e (b e)
]

put-Backed :
    (last : Option (Entry × ℕ)) (k j : Key) (e : Entry) (now : ℕ) (c : Exact) (o : Option Node)
    → find j c.nodes ≡ o
    → Valid c
    → Backed last (find k c.nodes)
    → Backed
        (if same_key j k then some (stamp e now, now + c.ttl) else last)
        (find k (put_node o c j e now).0.nodes)
unfolding put_node
put-Backed last k j e now c none h v b =
    let node : Node = record { key = j; entry = stamp e now; expires_at = now + c.ttl } in
    let last' = if same_key j k then some (stamp e now, now + c.ttl) else last in
    let all = new-Backed last k node c.nodes (λ _. b) in
    let kept : Backed last' (find k (take c.max_entries (node ∷ c.nodes))) =
      elim (find-take k c.max_entries (node ∷ c.nodes)) [
        | inl q ↦ subst (Backed last') (sym q) all
        | inr q ↦ subst (Backed last') (sym q) tt
      ] in
    subst (λ z. Backed last' (find k z.0.nodes)) (sym (put_node-take c j e now v.counted)) kept
put-Backed last k j e now c (some n) h v b =
    let node : Node = record { key = n.key; entry = stamp e now; expires_at = now + c.ttl } in
    subst
      (λ i.
        Backed (if same_key i k then some (stamp e now, now + c.ttl) else last)
          (find k (node ∷ unlink n.key c.nodes)))
      (find-key j c.nodes n h)
      (new-Backed last k node (unlink n.key c.nodes)
        (λ f. subst (Backed last) (sym (find-unlink_other n.key k c.nodes f)) b))

-- The lifetime does not change.
pub look-ttl : (c : Exact) (j : Key) (now : ℕ) (o : Option Node) → (look o c j now).0.ttl ≡ c.ttl
unfolding look drop_node
look-ttl c j now none = refl
look-ttl c j now (some n) = elim (Bool-cases (not (ltb now n.expires_at))) [
  | inl e ↦ rw e refl
  | inr e ↦ rw e refl
]

put-ttl :
    (c : Exact) (j : Key) (e : Entry) (now : ℕ) (o : Option Node)
    → Valid c
    → (put_node o c j e now).0.ttl ≡ c.ttl
unfolding put_node
put-ttl c j e now none v = ap (λ z. z.0.ttl) (put_node-take c j e now v.counted)
put-ttl c j e now (some n) v = refl

-- A cache whose answers for one key are backed.
record Faithful (ttl : ℕ) (k : Key) (last : Option (Entry × ℕ)) (c : Exact) : Type 0 where
  lifetime : c.ttl ≡ ttl
  valid : Valid c
  backed : Backed last (find k c.nodes)

run-Faithful :
    (ttl : ℕ) (k : Key) (last : Option (Entry × ℕ)) (c : Exact) (ops : List Op)
    → Faithful ttl k last c
    → Faithful ttl k (latest ttl k last ops) (run c ops)
unfolding get lookup put insert_entry
run-Faithful ttl k last c [] f = f
run-Faithful ttl k last c (gets j now ∷ ops) f =
    run-Faithful ttl k last (step c (gets j now)) ops (record {
      lifetime = look-ttl c j now (find j c.nodes) ∙ f.lifetime;
      valid = step-Valid c (gets j now) f.valid;
      backed = look-Backed last k j now c (find j c.nodes) refl f.valid f.backed;
    })
run-Faithful ttl k last c (puts j none now ∷ ops) f = run-Faithful ttl k last c ops f
run-Faithful ttl k last c (puts j (some e) now ∷ ops) f =
    run-Faithful ttl k (if same_key j k then some (stamp e now, now + ttl) else last)
      (step c (puts j (some e) now)) ops
      (record {
        lifetime = put-ttl c j e now (find j c.nodes) f.valid ∙ f.lifetime;
        valid = step-Valid c (puts j (some e) now) f.valid;
        backed =
            subst
              (λ z.
                Backed (if same_key j k then some (stamp e now, now + z) else last)
                  (find k (step c (puts j (some e) now)).nodes))
              f.lifetime (put-Backed last k j e now c (find j c.nodes) refl f.valid f.backed);
      })

-- An answer that is given.
abbrev GivenBy : Option (Entry × ℕ) → ℕ → Option Entry → Type 0
GivenBy last now none = Unit {0}
GivenBy last now (some e) = (expires_at : ℕ) × (last ≡ some (e, expires_at)) × (now < expires_at)

look-GivenBy :
    (last : Option (Entry × ℕ)) (k : Key) (now : ℕ) (c : Exact) (o : Option Node)
    → Backed last o
    → GivenBy last now (look o c k now).1
unfolding look
look-GivenBy last k now c none b = tt
look-GivenBy last k now c (some n) b = elim (Bool-cases (not (ltb now n.expires_at))) [
  | inl e ↦ rw e tt
  | inr e ↦ rw e (n.expires_at, b, ground (arith, e))
]

nothing : (max_entries ttl : ℕ) (k : Key) → Backed none (find k (new_exact max_entries ttl).nodes)
unfolding new_exact find
nothing max_entries ttl k = tt

-- After any calls on a new cache, an answer that `Get` gives is the entry that was stored last under
-- exactly that key (tenant, model and hash), and its lifetime, counted from when it was stored, is not
-- over: no answer is stale, was replaced, or belongs to another tenant.
pub get-latest :
    (max_entries ttl : ℕ) (ops : List Op) (k : Key) (now : ℕ) (e : Entry)
    → (get (run (new_exact max_entries ttl) ops) k now).1 ≡ some e
    → (expires_at : ℕ) × (latest (new_exact max_entries ttl).ttl k none ops ≡ some (e, expires_at))
      × (now < expires_at)
unfolding get lookup
get-latest max_entries ttl ops k now e h =
    let c = new_exact max_entries ttl in
    let start : Faithful c.ttl k none c = record {
      lifetime = refl;
      valid = new_exact-Valid max_entries ttl;
      backed = nothing max_entries ttl k;
    } in
    subst (GivenBy (latest c.ttl k none ops) now) h (
      look-GivenBy (latest c.ttl k none ops) k now (run c ops) (find k (run c ops).nodes)
        (run-Faithful c.ttl k none c ops start).backed)
