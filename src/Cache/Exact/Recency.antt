-- ===== src/Cache/Exact/Recency.antt =====
-- The list of the nodes (internal/cache/exact.go): what a lookup finds after a node has left.
use pen_stock.Base.{
  ℕ, zero, suc, ◌-◌, ◌≡◌, ◌⊎◌, inl, inr, refl, sym, ap, subst, true, false, Option, none, some,
  List, [], ◌∷◌, length, All, take, ◌<◌, ◌≤◌, ◌≢◌, arith, Bool-cases, if◌then◌else◌,
}
use pen_stock.Cache.Types.{Key, same_key, same_key→eq}
use pen_stock.Cache.Exact.{Node, find, unlink, drop_tail}

some≢none : {A : Type 0} {a : A} → some a ≢ none
some≢none h = cc

-- No two nodes have one key.
abbrev pub Distinct : List Node → Type 0
Distinct [] = Unit {0}
Distinct (n ∷ ns) = All (λ m. same_key m.key n.key ≡ false) ns × Distinct ns

pub All-unlink : (P : Node → Type 0) (k : Key) (ns : List Node) → All P ns → All P (unlink k ns)
unfolding unlink
All-unlink P k [] h = tt
All-unlink P k (n ∷ ns) h = elim (Bool-cases (same_key n.key k)) [
  | inl e ↦ rw e h.1
  | inr e ↦ rw e (h.0, All-unlink P k ns h.1)
]

pub Distinct-unlink : (k : Key) (ns : List Node) → Distinct ns → Distinct (unlink k ns)
unfolding unlink
Distinct-unlink k [] h = tt
Distinct-unlink k (n ∷ ns) h = elim (Bool-cases (same_key n.key k)) [
  | inl e ↦ rw e h.1
  | inr e ↦ rw e (All-unlink _ k ns h.0, Distinct-unlink k ns h.1)
]

pub length-drop_tail : (ns : List Node) → length (drop_tail ns) ≡ length ns - 1
unfolding drop_tail
length-drop_tail [] = refl
length-drop_tail (n ∷ []) = refl
length-drop_tail (n ∷ m ∷ ns) = omega (arith, length-drop_tail (m ∷ ns))

abbrev Fits : Key → Option Node → Type 0
Fits k none = Unit {0}
Fits k (some n) = same_key n.key k ≡ true

find-Fits : (k : Key) (ns : List Node) → Fits k (find k ns)
unfolding find
find-Fits k [] = tt
find-Fits k (m ∷ ns) = elim (Bool-cases (same_key m.key k)) [
  | inl e ↦ rw e e
  | inr e ↦ rw e (find-Fits k ns)
]

pub find-key : (k : Key) (ns : List Node) (n : Node) → find k ns ≡ some n → n.key ≡ k
find-key k ns n h = same_key→eq n.key k (subst (Fits k) h (find-Fits k ns))

pub length-unlink :
    (k : Key) (ns : List Node) (n : Node)
    → find k ns ≡ some n
    → suc (length (unlink k ns)) ≡ length ns
unfolding unlink find
length-unlink k [] n h = cc
length-unlink k (m ∷ ns) n h = elim (Bool-cases (same_key m.key k)) [
  | inl e ↦ rw e refl
  | inr e ↦ rw e (ap suc (length-unlink k ns n (rw e at h)))
]

pub find-absent :
    (k : Key) (ns : List Node) → All (λ m. same_key m.key k ≡ false) ns → find k ns ≡ none
unfolding find
find-absent k [] h = refl
find-absent k (n ∷ ns) h = rw h.0 (find-absent k ns h.1)

pub absent-find :
    (k : Key) (ns : List Node) → find k ns ≡ none → All (λ m. same_key m.key k ≡ false) ns
unfolding find
absent-find k [] h = tt
absent-find k (n ∷ ns) h = elim (Bool-cases (same_key n.key k)) [
  | inl e ↦ absurd (some≢none (rw e at h))
  | inr e ↦ (e, absent-find k ns (rw e at h))
]

-- The node that was unlinked is gone.
pub unlink-absent :
    (k : Key) (ns : List Node) → Distinct ns → All (λ m. same_key m.key k ≡ false) (unlink k ns)
unfolding unlink
unlink-absent k [] d = tt
unlink-absent k (n ∷ ns) d = elim (Bool-cases (same_key n.key k)) [
  | inl e ↦ rw e (subst (λ j. All (λ m. same_key m.key j ≡ false) ns) (same_key→eq n.key k e) d.0)
  | inr e ↦ rw e (e, unlink-absent k ns d.1)
]

-- And the others are found as before.
pub find-unlink_other :
    (j k : Key) (ns : List Node) → same_key j k ≡ false → find k (unlink j ns) ≡ find k ns
unfolding unlink find
find-unlink_other j k [] h = refl
find-unlink_other j k (n ∷ ns) h = elim (Bool-cases (same_key n.key j)) [
  | inl e ↦ rw (e, subst (λ i. same_key i k ≡ false) (sym (same_key→eq n.key j e)) h) refl
  | inr e ↦
      rw e (ap (λ rest. if same_key n.key k then some n else rest) (find-unlink_other j k ns h))
]

-- The first nodes of the list.
pub All-take : (P : Node → Type 0) (i : ℕ) (ns : List Node) → All P ns → All P (take i ns)
All-take P zero ns h = tt
All-take P (suc i) [] h = tt
All-take P (suc i) (n ∷ ns) h = (h.0, All-take P i ns h.1)

pub Distinct-take : (i : ℕ) (ns : List Node) → Distinct ns → Distinct (take i ns)
Distinct-take zero ns h = tt
Distinct-take (suc i) [] h = tt
Distinct-take (suc i) (n ∷ ns) h = (All-take _ i ns h.0, Distinct-take i ns h.1)

pub find-take :
    (k : Key) (i : ℕ) (ns : List Node)
    → (find k (take i ns) ≡ find k ns) ⊎ (find k (take i ns) ≡ none)
unfolding find
find-take k zero ns = inr refl
find-take k (suc i) [] = inl refl
find-take k (suc i) (n ∷ ns) = elim (Bool-cases (same_key n.key k)) [
  | inl e ↦ rw e (inl refl)
  | inr e ↦ rw e (find-take k i ns)
]

pub length-take : (i : ℕ) (ns : List Node) → length (take i ns) ≤ i
length-take zero ns = omega arith
length-take (suc i) [] = omega arith
length-take (suc i) (n ∷ ns) = omega (arith, length-take i ns)

pub take_all : (i : ℕ) (ns : List Node) → length ns ≤ i → take i ns ≡ ns
take_all zero [] h = refl
take_all zero (n ∷ ns) h = absurd (omega arith)
take_all (suc i) [] h = refl
take_all (suc i) (n ∷ ns) h = ap (λ xs. n ∷ xs) (take_all i ns (omega arith))

pub take-drop_tail : (i : ℕ) (ns : List Node) → i < length ns → take i (drop_tail ns) ≡ take i ns
unfolding drop_tail
take-drop_tail zero ns h = refl
take-drop_tail (suc i) [] h = absurd (omega arith)
take-drop_tail (suc i) (n ∷ []) h = absurd (omega arith)
take-drop_tail (suc i) (n ∷ m ∷ ns) h = ap (λ xs. n ∷ xs) (take-drop_tail i (m ∷ ns) (omega arith))
