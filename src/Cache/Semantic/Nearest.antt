-- ===== src/Cache/Semantic/Nearest.antt =====
-- What `Nearest` of internal/cache/semantic.go finds.
use pen_stock.Base.{
  ℕ, ◌<◌, ◌≤◌, ◌≡◌, refl, ap, subst, ◌∙◌, ◌⊎◌, inl, inr, true, false, Option, none, some, String,
  List, [], ◌∷◌, ◌++◌, length, ltb, ◌==◌, arith, All, All-append, Bool-cases, ltb→lt,
}
use mathlib.Core.List.{append_assoc, append-nil}
use pen_stock.Cache.Types.{Entry}
use pen_stock.Cache.Semantic.{
  Vector, SemanticRecord, SemanticStore, is_expired, better, consider, scan_tenant, nearest,
}

-- One of the records has this property.
abbrev pub Some : (SemanticRecord → Type 0) → List SemanticRecord → Type 0
Some P rs =
    (before after : List SemanticRecord) × (r : SemanticRecord) × (rs ≡ before ++ r ∷ after) × P r

module _ (similarity : Vector → Vector → ℕ) (query : Vector) (threshold ttl now : ℕ) where
  -- The record may answer, with this entry and at this score.
  pub record Scores (e : Entry) (score : ℕ) (r : SemanticRecord) : Type 0 where
    pub own_entry : r.entry ≡ e
    pub own_score : similarity query r.vector ≡ score
    pub fresh : is_expired r.stored_at ttl now ≡ false
    pub near : threshold ≤ score

  -- The record is too old or too far.
  pub Unfit : SemanticRecord → Type 0
  Unfit r = (is_expired r.stored_at ttl now ≡ true) ⊎ (similarity query r.vector < threshold)

  pub Beaten : ℕ → SemanticRecord → Type 0
  unfolding Unfit
  Beaten score r = Unfit r ⊎ (similarity query r.vector ≤ score)

  -- The best of the records: none where all are unfit, and else one that is nearest.
  pub Best : List SemanticRecord → Option (Entry × ℕ) → Type 0
  unfolding Beaten Unfit
  Best rs none = All Unfit rs
  Best rs (some (e, score)) = Some (Scores e score) rs × All (Beaten score) rs

  All-mono :
      (P Q : SemanticRecord → Type 0) (rs : List SemanticRecord)
      → ((r : SemanticRecord) → P r → Q r)
      → All P rs
      → All Q rs
  All-mono P Q [] f h = tt
  All-mono P Q (r ∷ rs) f h = (f r h.0, All-mono P Q rs f h.1)

  Some-snoc :
      (P : SemanticRecord → Type 0) (rs : List SemanticRecord) (r : SemanticRecord)
      → Some P rs
      → Some P (rs ++ r ∷ [])
  Some-snoc P rs r (before, after, x, at_x, h) = (
    before,
    after ++ r ∷ [],
    x,
    ap (λ z. z ++ r ∷ []) at_x ∙ append_assoc before (x ∷ after) (r ∷ []),
    h,
  )

  Unfit-Best :
      (rs : List SemanticRecord) (best : Option (Entry × ℕ)) (r : SemanticRecord)
      → Unfit r
      → Best rs best
      → Best (rs ++ r ∷ []) best
  unfolding Best Beaten
  Unfit-Best rs none r u h = All-append Unfit rs (r ∷ []) h (u, tt)
  Unfit-Best rs (some (e, score)) r u h =
      (Some-snoc (Scores e score) rs r h.0, All-append (Beaten score) rs (r ∷ []) h.1 (inl u, tt))

  Beaten-mono : (m n : ℕ) (r : SemanticRecord) → m ≤ n → Beaten m r → Beaten n r
  unfolding Beaten
  Beaten-mono m n r h (inl u) = inl u
  Beaten-mono m n r h (inr b) = inr (omega arith)

  better-Best :
      (rs : List SemanticRecord) (best : Option (Entry × ℕ)) (r : SemanticRecord)
      → is_expired r.stored_at ttl now ≡ false
      → threshold ≤ similarity query r.vector
      → Best rs best
      → Best (rs ++ r ∷ []) (better best r.entry (similarity query r.vector))
  unfolding Best Beaten
  better-Best rs none r x near h =
      let score = similarity query r.vector in
      (
        (rs, [], r, refl, record { own_entry = refl; own_score = refl; fresh = x; near = near }),
        All-append (Beaten score) rs (r ∷ []) (All-mono Unfit (Beaten score) rs (λ r u. inl u) h)
            (inr (omega arith), tt),
      )
  better-Best rs (some (e, score)) r x near h =
      elim (Bool-cases (ltb score (similarity query r.vector))) [
        | inl y ↦
            let score' = similarity query r.vector in
            rw y (
              (
                rs,
                [],
                r,
                refl,
                record { own_entry = refl; own_score = refl; fresh = x; near = near },
              ),
              All-append (Beaten score') rs (r ∷ [])
                  (All-mono (Beaten score) (Beaten score') rs
                    (λ r. Beaten-mono score score' r (ground (arith, y))) h.1)
                  (inr (omega arith), tt),
            )
        | inr y ↦ rw y (
          Some-snoc (Scores e score) rs r h.0,
          All-append (Beaten score) rs (r ∷ []) h.1 (inr (ground (arith, y)), tt),
        )
      ]

  consider-Best :
      (rs : List SemanticRecord) (best : Option (Entry × ℕ)) (r : SemanticRecord)
      → Best rs best
      → Best (rs ++ r ∷ []) (consider similarity query threshold ttl now best r)
  unfolding consider Unfit
  consider-Best rs best r h = elim (Bool-cases (is_expired r.stored_at ttl now)) [
    | inl x ↦ rw x (Unfit-Best rs best r (inl x) h)
    | inr x ↦ elim (Bool-cases (ltb (similarity query r.vector) threshold)) [
      | inl y ↦ rw x (rw y (Unfit-Best rs best r (inr (ltb→lt _ _ y)) h))
      | inr y ↦ rw x (rw y (better-Best rs best r x (ground (arith, y)) h))
    ]
  ]

  scan_tenant-Best :
      (done todo : List SemanticRecord) (best : Option (Entry × ℕ))
      → Best done best
      → Best (done ++ todo) (scan_tenant similarity query threshold ttl now best todo)
  unfolding scan_tenant
  scan_tenant-Best done [] best h = rw (append-nil done) h
  scan_tenant-Best done (r ∷ todo) best h =
      subst (λ rs. Best rs (scan_tenant similarity query threshold ttl now best (r ∷ todo)))
        (append_assoc done (r ∷ []) todo)
        (scan_tenant-Best (done ++ r ∷ []) todo _ (consider-Best done best r h))

-- The semantic tier answers with the best of what the asking tenant has stored, and of nothing else:
-- for a query of the store's width, an answer is the entry of one of the tenant's own records that has
-- not expired, its score is that record's similarity to the query and no less than the threshold, and
-- no other record of the tenant that has not expired and reaches the threshold is nearer; and without
-- an answer, every record of the tenant has expired or is below the threshold.
pub nearest-Best :
    (similarity : Vector → Vector → ℕ) (s : SemanticStore) (tenant : String) (query : Vector)
    (now : ℕ)
    → 0 < length query
    → length query ≡ s.dims
    → Best similarity query s.threshold s.ttl now
        (s.tenants tenant)
        (nearest similarity s tenant query now)
unfolding nearest Best
nearest-Best similarity s tenant query now some_width same_width =
    let scanned =
      scan_tenant-Best similarity query s.threshold s.ttl now [] (s.tenants tenant) none tt in
    let wide : (length query == 0) ≡ false = ground arith in
    let fits : (length query == s.dims) ≡ true = ground arith in rw wide (rw fits scanned)
