-- ===== src/Router/Selector/Ranking.antt =====
-- Least latency (internal/router/selector.go): the order is a stable sort by the latency that the
-- tracker reports, the providers without one first.
use mathlib.Core.List.Perm
use mathlib.Core.List.{Perm}
use pen_stock.Base.{
  ℕ, ◌≡◌, ◌≤◌, refl, ap, ◌∙◌, Bool, true, false, Option, none, some, String, List, [], ◌∷◌, map,
  arith, All, Bool-cases, inl, inr, if◌then◌else◌, ◌==◌,
}
use pen_stock.Router.Health.{Tracker, latency}
use pen_stock.Router.Selector.{rank_of, keeps_place, insert, stable_sort, by_latency}
use pen_stock.Router.Selector.Exclusion.{keep}

-- The latency that a name is ranked by.
unfoldable pub ttft_of : Option Tracker → String → Option ℕ
ttft_of none name = none
ttft_of (some t) name = latency t name

-- `a` may stand before `b`: unsampled first, then by latency.
abbrev pub Precedes : Option ℕ → Option ℕ → Type 0
Precedes none b = Unit {0}
Precedes (some a) none = ⊥
Precedes (some a) (some b) = a ≤ b

abbrev pub same_ttft : Option ℕ → Option ℕ → Bool
same_ttft none none = true
same_ttft none (some b) = false
same_ttft (some a) none = false
same_ttft (some a) (some b) = a == b

abbrev keeps : Option ℕ → Option ℕ → Bool
keeps a b = keeps_place (record { name = ""; ttft = a }) (record { name = ""; ttft = b })

module _ (key : String → Option ℕ) where
  pub insert_name : String → List String → List String
  insert_name n [] = n ∷ []
  insert_name n (x ∷ xs) = if keeps (key n) (key x) then n ∷ x ∷ xs else x ∷ insert_name n xs

  pub sort_names : List String → List String
  unfolding insert_name
  sort_names [] = []
  sort_names (n ∷ ns) = insert_name n (sort_names ns)

  insert_name-perm : (n : String) (xs : List String) → Perm (insert_name n xs) (n ∷ xs)
  unfolding insert_name
  insert_name-perm n [] = Perm.refl _
  insert_name-perm n (x ∷ xs) = elim (Bool-cases (keeps (key n) (key x))) [
    | inl e ↦ rw e (Perm.refl _)
    | inr e ↦ rw e (Perm.trans (Perm.cons x (insert_name-perm n xs)) (Perm.swap n x xs))
  ]

  sort_names-perm : (ns : List String) → Perm (sort_names ns) ns
  unfolding sort_names
  sort_names-perm [] = Perm.refl _
  sort_names-perm (n ∷ ns) =
      Perm.trans (insert_name-perm n (sort_names ns)) (Perm.cons n (sort_names-perm ns))

  -- Every name may stand before all that follow it.
  abbrev pub IsRanked : List String → Type 0
  IsRanked [] = Unit {0}
  IsRanked (x ∷ xs) = All (λ y. Precedes (key x) (key y)) xs × IsRanked xs

  pub insert_name-All :
      (P : String → Type 0) (n : String) (xs : List String)
      → P n
      → All P xs
      → All P (insert_name n xs)
  unfolding insert_name
  insert_name-All P n [] h k = (h, tt)
  insert_name-All P n (x ∷ xs) h k = elim (Bool-cases (keeps (key n) (key x))) [
    | inl e ↦ rw e (h, k)
    | inr e ↦ rw e (k.0, insert_name-All P n xs h k.1)
  ]

Precedes-keeps : (a b : Option ℕ) → keeps a b ≡ true → Precedes a b
Precedes-keeps a b h = ground arith

Precedes-flip : (a b : Option ℕ) → keeps a b ≡ false → Precedes b a
Precedes-flip a b h = ground arith

Precedes-trans : (a b c : Option ℕ) → Precedes a b → Precedes b c → Precedes a c
Precedes-trans a b c h k = ground arith

same_ttft-keeps :
    (v a b : Option ℕ) → keeps a b ≡ false → same_ttft a v ≡ true → same_ttft b v ≡ false
same_ttft-keeps v a b h k = ground arith

module _ (key : String → Option ℕ) where
  All-Precedes :
      (a b : Option ℕ) (xs : List String)
      → Precedes a b
      → All (λ y. Precedes b (key y)) xs
      → All (λ y. Precedes a (key y)) xs
  All-Precedes a b [] h k = tt
  All-Precedes a b (x ∷ xs) h k = (Precedes-trans a b (key x) h k.0, All-Precedes a b xs h k.1)

  insert_name-IsRanked :
      (n : String) (xs : List String) → IsRanked key xs → IsRanked key (insert_name key n xs)
  unfolding insert_name
  insert_name-IsRanked n [] h = (tt, tt)
  insert_name-IsRanked n (x ∷ xs) h = elim (Bool-cases (keeps (key n) (key x))) [
    | inl e ↦
        let first = Precedes-keeps (key n) (key x) e in
        rw e ((first, All-Precedes (key n) (key x) xs first h.0), h)
    | inr e ↦ rw e (
      insert_name-All key (λ y. Precedes (key x) (key y)) n xs (Precedes-flip (key n) (key x) e)
          h.0,
      insert_name-IsRanked n xs h.1,
    )
  ]

  sort_names-IsRanked : (ns : List String) → IsRanked key (sort_names key ns)
  unfolding sort_names
  sort_names-IsRanked [] = tt
  sort_names-IsRanked (n ∷ ns) = insert_name-IsRanked n (sort_names key ns) (sort_names-IsRanked ns)

  insert_name-keep :
      (v : Option ℕ) (n : String) (xs : List String)
      → keep (λ y. same_ttft (key y) v) (insert_name key n xs)
        ≡ keep (λ y. same_ttft (key y) v) (n ∷ xs)
  unfolding insert_name
  insert_name-keep v n [] = refl
  insert_name-keep v n (x ∷ xs) = elim (Bool-cases (keeps (key n) (key x))) [
    | inl e ↦ rw e refl
    | inr e ↦ elim (Bool-cases (same_ttft (key n) v)) [
      | inl s ↦ rw (e, insert_name-keep v n xs, same_ttft-keeps v (key n) (key x) e s) (rw s refl)
      | inr s ↦ rw (e, insert_name-keep v n xs) (rw s refl)
    ]
  ]

  sort_names-keep :
      (v : Option ℕ) (ns : List String)
      → keep (λ y. same_ttft (key y) v) (sort_names key ns) ≡ keep (λ y. same_ttft (key y) v) ns
  unfolding sort_names
  sort_names-keep v [] = refl
  sort_names-keep v (n ∷ ns) =
      insert_name-keep v n (sort_names key ns)
      ∙ ap (λ rest. if same_ttft (key n) v then n ∷ rest else rest) (sort_names-keep v ns)

module _ (key : String → Option ℕ) (P : String → Type 0) where
  pub sort_names-All : (ns : List String) → All P ns → All P (sort_names key ns)
  unfolding sort_names
  sort_names-All [] h = tt
  sort_names-All (n ∷ ns) h =
      insert_name-All key P n (sort_names key ns) h.0 (sort_names-All ns h.1)

-- The ranks are snapshots of the names' latencies.
rank_of-keeps :
    (h : Option Tracker) (n x : String)
    → (keeps_place (rank_of h n) (rank_of h x) ≡ keeps (ttft_of h n) (ttft_of h x))
      × ((rank_of h n).name ≡ n)
unfolding rank_of ttft_of
rank_of-keeps none n x = (refl, refl)
rank_of-keeps (some t) n x = (refl, refl)

insert-map :
    (h : Option Tracker) (n : String) (xs : List String)
    → insert (rank_of h n) (map (rank_of h) xs) ≡ map (rank_of h) (insert_name (ttft_of h) n xs)
unfolding insert insert_name
insert-map h n [] = refl
insert-map h n (x ∷ xs) = elim (Bool-cases (keeps (ttft_of h n) (ttft_of h x))) [
  | inl e ↦ rw ((rank_of-keeps h n x).0, e) refl
  | inr e ↦ rw ((rank_of-keeps h n x).0, e) (ap (◌∷◌ (rank_of h x)) (insert-map h n xs))
]

stable_sort-map :
    (h : Option Tracker) (ns : List String)
    → stable_sort (map (rank_of h) ns) ≡ map (rank_of h) (sort_names (ttft_of h) ns)
unfolding stable_sort sort_names
stable_sort-map h [] = refl
stable_sort-map h (n ∷ ns) =
    ap (insert (rank_of h n)) (stable_sort-map h ns) ∙ insert-map h n (sort_names (ttft_of h) ns)

names-map : (h : Option Tracker) (ns : List String) → map (λ r. r.name) (map (rank_of h) ns) ≡ ns
names-map h [] = refl
names-map h (n ∷ ns) = rw ((rank_of-keeps h n n).1, names-map h ns)

pub by_latency-sort :
    (h : Option Tracker) (avail : List String) → by_latency h avail ≡ sort_names (ttft_of h) avail
unfolding by_latency
by_latency-sort h avail =
    ap (map (λ r. r.name)) (stable_sort-map h avail) ∙ names-map h (sort_names (ttft_of h) avail)

-- The least latency order is the stable sort of the candidates: it is a permutation of them; every
-- provider without enough samples comes before every one that has them, and those come by ascending
-- latency; and candidates that rank alike (both unsampled, or of equal latency) keep the configured
-- order among themselves.
pub by_latency-ranks :
    (h : Option Tracker) (avail : List String) (v : Option ℕ)
    → Perm (by_latency h avail) avail
      × IsRanked (ttft_of h) (by_latency h avail)
      × (keep (λ n. same_ttft (ttft_of h n) v) (by_latency h avail)
          ≡ keep (λ n. same_ttft (ttft_of h n) v) avail)
by_latency-ranks h avail v = rw (by_latency-sort h avail) (
  sort_names-perm (ttft_of h) avail,
  sort_names-IsRanked (ttft_of h) avail,
  sort_names-keep (ttft_of h) v avail,
)
