-- ===== src/Router/Selector/Exclusion.antt =====
-- Exclusion outranks ordering (internal/router/selector.go, `availableFrom`).
use pen_stock.Base.{
  ℕ, ◌≡◌, ◌≢◌, refl, ap, ◌∙◌, Bool, false, String, List, [], ◌∷◌, All, same, same→eq, Bool-cases,
  inl, inr, if◌then◌else◌,
}
use pen_stock.Router.Health.{Tracker, available}
use pen_stock.Router.Health.History.{step, asks, state-step, step-opts, available-answer}
use pen_stock.Router.Selector.{available_names}

-- No element stands twice in the list.
abbrev pub Distinct : List String → Type 0
Distinct [] = Unit {0}
Distinct (x ∷ xs) = All (λ y. x ≢ y) xs × Distinct xs

abbrev pub keep {ℓ} : {A : Type ℓ} → (A → Bool) → List A → List A
keep p [] = []
keep p (x ∷ xs) = let rest = keep p xs in if p x then x ∷ rest else rest

step-asks :
    (t : Tracker) (p : String) (clock now : ℕ)
    → step t p (asks clock now) ≡ (available t p clock now).0
unfolding step
step-asks t p clock now = refl

-- Asking about one provider changes no answer about another.
pub available-other :
    (t : Tracker) (p q : String) (clock now clock' now' : ℕ)
    → p ≢ q
    → (available (available t p clock now).0 q clock' now').1 ≡ (available t q clock' now').1
available-other t p q clock now clock' now' ne =
    rw (available-answer t q, available-answer (available t p clock now).0 q, opts-same, entry-same)
  where
    other : same p q ≡ false
    other = elim (Bool-cases (same p q)) [ inl e ↦ absurd (ne (same→eq p q e)) | inr e ↦ e ]

    opts-same : (available t p clock now).0.opts ≡ t.opts
    opts-same = rw (step-asks t p clock now) at (step-opts t p (asks clock now)).0

    entry-same : (available t p clock now).0.state q ≡ t.state q
    entry-same = rw (← step-asks t p clock now, state-step t p q (asks clock now), other) refl

keep-cong :
    (f g : String → Bool) (xs : List String) → All (λ x. f x ≡ g x) xs → keep f xs ≡ keep g xs
keep-cong f g [] h = refl
keep-cong f g (x ∷ xs) h = rw (h.0, keep-cong f g xs h.1)

All-other :
    (t : Tracker) (p : String) (clock now : ℕ) (xs : List String)
    → All (λ q. p ≢ q) xs
    → All
        (λ q. (available (available t p clock now).0 q clock now).1 ≡ (available t q clock now).1)
        xs
All-other t p clock now [] h = tt
All-other t p clock now (q ∷ xs) h =
    (available-other t p q clock now clock now h.0, All-other t p clock now xs h.1)

-- The candidates of a call are the providers of the chain that the tracker answers yes for, in the
-- configured order: asking about one provider (which may claim its probe) changes no answer about
-- the next. The chain names no provider twice, which `New` enforces.
pub available_names-keep :
    (t : Tracker) (chain : List String) (clock now : ℕ)
    → Distinct chain
    → (available_names t chain clock now).1 ≡ keep (λ p. (available t p clock now).1) chain
unfolding available_names
available_names-keep t [] clock now d = refl
available_names-keep t (p ∷ chain) clock now d =
    ap (λ rest. if (available t p clock now).1 then p ∷ rest else rest)
      (available_names-keep (available t p clock now).0 chain clock now d.1
        ∙ keep-cong _ _ chain (All-other t p clock now chain d.0))
