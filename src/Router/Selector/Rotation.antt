-- ===== src/Router/Selector/Rotation.antt =====
-- Round robin (internal/router/selector.go): what one call returns, and who leads over many.
use mathlib.Core.List.{Perm, perm_append_comm}
use native.Mathlib.Nat.{mod-lt, mod-eq_of_lt, mod-add-mod, mod-eq-sub-mod}
use native.Mathlib.Decide.{dec_lt}
use pen_stock.Base.{
  ℕ, zero, suc, ◌+◌, ◌-◌, ◌%◌, ◌^◌, ◌<◌, ◌≤◌, ◌≡◌, refl, ◌∙◌, ap, sym, subst, false, some, String,
  List, [], ◌∷◌, ◌++◌, arith, length, get_elem?, take, drop, ◌==◌,
}
use pen_stock.Router.Selector.{u64, pick, rotate_loop, round_robin_order}

module _ {ℓ} {A : Type ℓ} where
  drop-step :
      (xs : List A) (i : ℕ)
      → i < length xs
      → (x : A) × (get_elem? xs i ≡ some x) × (drop i xs ≡ x ∷ drop (suc i) xs)
  drop-step [] i h = absurd (omega arith)
  drop-step (x ∷ xs) zero h = (x, refl, refl)
  drop-step (x ∷ xs) (suc i) h = drop-step xs i (omega arith)

  take-drop-step :
      (xs : List A) (n i : ℕ)
      → i < length xs
      → (x : A) × (get_elem? xs i ≡ some x)
        × (take (suc n) (drop i xs) ≡ x ∷ take n (drop (suc i) xs))
  take-drop-step xs n i h = let (x, e, d) = drop-step xs i h in (x, e, rw d refl)

  drop-length : (xs : List A) → drop (length xs) xs ≡ []
  drop-length [] = refl
  drop-length (x ∷ xs) = drop-length xs

  take-append-drop : (n : ℕ) (xs : List A) → take n xs ++ drop n xs ≡ xs
  take-append-drop zero xs = refl
  take-append-drop (suc n) [] = refl
  take-append-drop (suc n) (x ∷ xs) = ap (◌∷◌ x) (take-append-drop n xs)

-- The index of a round, when the counter does not wrap within the call.
index-front :
    (start total i : ℕ)
    → start + i < 2 ^ 64
    → start % total + i < total
    → u64 (start + i) % total ≡ start % total + i
index-front start total i h k =
    ap (λ (x : ℕ). x % total) (mod-eq_of_lt h) ∙ (sym (mod-add-mod start total i) ∙ mod-eq_of_lt k)

index-back :
    (start total i : ℕ)
    → start + i < 2 ^ 64
    → 0 < total
    → i < total
    → total ≤ start % total + i
    → u64 (start + i) % total ≡ start % total + i - total
index-back start total i h z k b =
    ap (λ (x : ℕ). x % total) (mod-eq_of_lt h)
    ∙ (sym (mod-add-mod start total i)
        ∙ (mod-eq-sub-mod b ∙ mod-eq_of_lt (omega (arith, mod-lt start z))))

module _ (avail : List String) (start : ℕ) (fits : start + length avail ≤ 2 ^ 64) where
  -- The rounds after the wrap: `j` is the index.
  rotate-back :
      (n i j : ℕ)
      → n + i ≡ length avail
      → start % length avail + i ≡ j + length avail
      → start % length avail ≡ n + j
      → rotate_loop avail start n i ≡ take n (drop j avail)
  unfolding rotate_loop
  rotate-back zero i j e k l = refl
  rotate-back (suc n) i j e k l =
      let (x, g, d) =
        take-drop-step avail n j (omega (arith, mod-lt start {m = length avail} (omega arith))) in
      let at_j : u64 (start + i) % length avail ≡ j =
        index-back start (length avail) i (omega arith) (omega arith) (omega arith) (omega arith)
        ∙ omega arith in
      rw (at_j, g, d)
        (ap (◌∷◌ x) (rotate-back n (suc i) (suc j) (omega arith) (omega arith) (omega arith)))

  -- The rounds before it.
  rotate-front :
      (n i : ℕ)
      → n + i ≡ length avail
      → start % length avail + i ≤ length avail
      → rotate_loop avail start n i
        ≡ drop (start % length avail + i) avail ++ take (start % length avail) avail
  unfolding rotate_loop
  rotate-front zero i e k =
      let z : start % length avail ≡ 0 = omega arith in
      let whole : start % length avail + i ≡ length avail = omega arith in
      rw (whole, z, drop-length avail)
  rotate-front (suc n) i e k = elim (dec_lt (start % length avail + i) (length avail)) [
    | yes inside ↦
        let (x, g, d) = drop-step avail (start % length avail + i) inside in
        let next : start % length avail + suc i ≡ suc (start % length avail + i) = omega arith in
        rw (index-front start (length avail) i (omega arith) inside, g, d)
          (ap (◌∷◌ x) (
            rotate-front n (suc i) (omega arith) (omega arith)
            ∙ ap (λ (m : ℕ). drop m avail ++ take (start % length avail) avail) next))
    | no outside ↦
        let whole : start % length avail + i ≡ length avail = omega arith in
        let front : start % length avail ≡ suc n = omega arith in
        rotate-back (suc n) i 0 e (omega arith) (omega arith)
        ∙ sym (rw (whole, drop-length avail, front) refl)
  ]

not-empty : (avail : List String) → 0 < length avail → (length avail == 0) ≡ false
not-empty avail z = ground arith

-- One call of the round robin selector returns the available providers rotated: it starts at the
-- one that the call counter points at and keeps the configured order around the circle; the next
-- call starts one further. The counter must not wrap around 2^64 within the call, and somebody must
-- be available.
pub round_robin-rotates :
    (calls : ℕ) (avail : List String)
    → 0 < length avail
    → calls + length avail ≤ 2 ^ 64
    → (round_robin_order calls avail).1
      ≡ drop (calls % length avail) avail ++ take (calls % length avail) avail
unfolding round_robin_order
round_robin-rotates calls avail z fits =
    let start : calls % length avail + 0 ≡ calls % length avail = omega arith in
    rw (not-empty avail z) (
      rotate-front avail calls fits (length avail) 0 (omega arith) (omega (arith, mod-lt calls z))
      ∙ ap (λ (m : ℕ). drop m avail ++ take (calls % length avail) avail) start)

-- The providers that lead in `n` calls in a row, while the same ones are available.
pub leaders : ℕ → ℕ → List String → List String
leaders zero calls avail = []
leaders (suc n) calls avail =
    pick (get_elem? (round_robin_order calls avail).1 0)
      (leaders n (round_robin_order calls avail).0 avail)

in_range :
    (avail : List String) (j : ℕ)
    → 0 < length avail
    → (x : String) × (get_elem? avail (j % length avail) ≡ some x)
in_range avail j z = let (x, g, _) = drop-step avail (j % length avail) (mod-lt j z) in (x, g)

rotate_loop-head :
    (avail : List String) (calls n : ℕ)
    → 0 < length avail
    → get_elem? (rotate_loop avail calls (suc n) 0) 0
      ≡ get_elem? avail (u64 (calls + 0) % length avail)
unfolding rotate_loop
rotate_loop-head avail calls n z = let (x, g) = in_range avail (u64 (calls + 0)) z in rw g refl

-- The leader of one call, and the counter after it.
round_robin-lead :
    (avail : List String) (calls : ℕ)
    → 0 < length avail
    → calls < 2 ^ 64
    → (get_elem? (round_robin_order calls avail).1 0 ≡ get_elem? avail (calls % length avail))
      × ((round_robin_order calls avail).0 ≡ u64 (calls + 1))
unfolding round_robin_order
round_robin-lead (a ∷ rest) calls z fits =
    let same_index : u64 (calls + 0) ≡ calls = omega arith in
    rw (not-empty (a ∷ rest) z) (
      rotate_loop-head (a ∷ rest) calls (length rest) z
          ∙ ap (λ (m : ℕ). get_elem? (a ∷ rest) (m % length (a ∷ rest))) same_index,
      refl,
    )
round_robin-lead [] calls z fits = absurd (omega arith)

leaders-rotate_loop :
    (avail : List String) (calls n i : ℕ)
    → 0 < length avail
    → calls + i + n < 2 ^ 64
    → leaders n (calls + i) avail ≡ rotate_loop avail calls n i
unfolding leaders rotate_loop
leaders-rotate_loop avail calls zero i z fits = refl
leaders-rotate_loop avail calls (suc n) i z fits =
    let (head, next) = round_robin-lead avail (calls + i) z (omega arith) in
    let counter : u64 (calls + i + 1) ≡ calls + suc i = omega arith in
    let index : u64 (calls + i) ≡ calls + i = omega arith in
    rw (head, next, counter, index)
      (ap (pick (get_elem? avail ((calls + i) % length avail)))
        (leaders-rotate_loop avail calls n (suc i) z (omega arith)))

-- Round robin is fair: while the same providers are available, as many calls in a row as there are
-- of them let every one lead exactly once (the leaders are a permutation of the available
-- providers), if the counter does not wrap around 2^64 meanwhile.
pub round_robin-fair :
    (avail : List String) (calls : ℕ)
    → 0 < length avail
    → calls + length avail < 2 ^ 64
    → Perm (leaders (length avail) calls avail) avail
round_robin-fair avail calls z fits =
    let k = calls % length avail in
    let same_calls : calls + 0 ≡ calls = omega arith in
    let start : calls % length avail + 0 ≡ calls % length avail = omega arith in
    let circle : leaders (length avail) calls avail ≡ drop k avail ++ take k avail =
      ap (λ (c : ℕ). leaders (length avail) c avail) (sym same_calls)
      ∙ (leaders-rotate_loop avail calls (length avail) 0 z (omega arith)
          ∙ (rotate-front avail calls (omega arith) (length avail) 0 (omega arith)
                (omega (arith, mod-lt calls z))
              ∙ ap (λ (m : ℕ). drop m avail ++ take k avail) start)) in
    subst (λ xs. Perm (leaders (length avail) calls avail) xs) (take-append-drop k avail)
      (subst (λ xs. Perm xs (take k avail ++ drop k avail)) (sym circle)
        (perm_append_comm (drop k avail) (take k avail)))

-- The wraparound of the counter is not harmless: at its last value the call over three available
-- providers tries the first one twice and never the third.
pub round_robin-wraps :
    (a b c : String) → (round_robin_order (2 ^ 64 - 1) (a ∷ b ∷ c ∷ [])).1 ≡ a ∷ a ∷ b ∷ []
unfolding round_robin_order
round_robin-wraps a b c = refl
