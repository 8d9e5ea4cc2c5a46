-- ===== src/Ingress/Auth/Identity.antt =====
-- The keys of a configuration that internal/config/config.go accepts, as internal/ingress/auth.go looks
-- them up.
use pen_stock.Base.{
  ◌≡◌, refl, sym, ap, subst, ◌∙◌, inl, inr, false, Option, none, some, String, List, [], ◌∷◌, ◌++◌,
  All, same, same→eq, same_refl, Bool-cases, if◌then◌else◌, either_way,
}
use pen_stock.Config.Auth.{TenantConfig, AuthConfig, Strings, validate_auth}
use pen_stock.Config.Auth.Owners.{OwnedBy, validate_auth-Sound}
use pen_stock.Ingress.Auth.{
  KeySet, last_match, add_key, add_keys, new_key_set, with_tenant_keys, lookup_key,
}

-- The entries of the map that `tenantKeys` makes, in any order: each is a tenant's.
unfoldable pub Draws : List (String × List String) → List TenantConfig → Type 0
Draws [] ts = Unit
Draws ((name, keys) ∷ entries) ts =
    ((before after : List TenantConfig) × (t : TenantConfig) × (ts ≡ before ++ t ∷ after)
      × (name ≡ t.name)
      × (keys ≡ t.keys))
    × Draws entries ts

last_match-snoc :
    (got d t : String) (entries : List (String × String)) (m : Option String)
    → last_match got (entries ++ (d, t) ∷ []) m
      ≡ (if same got d then some t else last_match got entries m)
unfolding last_match
last_match-snoc got d t [] m = refl
last_match-snoc got d t (e ∷ entries) m = last_match-snoc got d t entries _

All-at :
    {A : Type 0} (P : A → Type 0) (xs ys : List A) (x : A) → All P (xs ++ x ∷ ys) → P x × All P ys
All-at P [] ys x h = h
All-at P (z ∷ xs) ys x h = All-at P xs ys x h.1

module _ (sha256 : String → String) (key name : String) where
  -- An entry for this key of its tenant's, or for another.
  Agrees : String → String → Type 0
  Agrees tenant other = sha256 other ≡ sha256 key → tenant ≡ name

  add_key-found :
      (k : KeySet) (tenant other : String)
      → Agrees tenant other
      → lookup_key sha256 k key ≡ some name
      → lookup_key sha256 (add_key sha256 k other tenant) key ≡ some name
  unfolding add_key lookup_key Agrees
  add_key-found k tenant other agrees found =
      either_way (λ (x : KeySet). last_match (sha256 key) x.entries none ≡ some name)
        (same other "") found
        (last_match-snoc (sha256 key) (sha256 other) tenant k.entries none ∙ entry)
    where
      entry :
          (if same (sha256 key) (sha256 other)
            then some tenant
            else last_match (sha256 key) k.entries none)
          ≡ some name
      entry = elim (Bool-cases (same (sha256 key) (sha256 other))) [
        | inl e ↦ rw e (ap some (agrees (sym (same→eq (sha256 key) (sha256 other) e))))
        | inr e ↦ rw e found
      ]

  add_keys-found :
      (k : KeySet) (tenant : String) (keys : List String)
      → All (Agrees tenant) keys
      → lookup_key sha256 k key ≡ some name
      → lookup_key sha256 (add_keys sha256 k keys tenant) key ≡ some name
  unfolding add_keys
  add_keys-found k tenant [] agree found = found
  add_keys-found k tenant (other ∷ keys) agree found =
      add_keys-found (add_key sha256 k other tenant) tenant keys agree.1
        (add_key-found k tenant other agree.0 found)

  with_tenant_keys-found :
      (k : KeySet) (entries : List (String × List String))
      → All (λ (p : String × List String). All (Agrees p.0) p.1) entries
      → lookup_key sha256 k key ≡ some name
      → lookup_key sha256 (with_tenant_keys sha256 k entries) key ≡ some name
  unfolding with_tenant_keys
  with_tenant_keys-found k [] agree found = found
  with_tenant_keys-found k ((tenant, keys) ∷ entries) agree found =
      with_tenant_keys-found (add_keys sha256 k keys tenant) entries agree.1
        (add_keys-found k tenant keys agree.0 found)

  -- Once the key itself was added.
  add_keys-own :
      (k : KeySet) (before after : List String)
      → same key "" ≡ false
      → All (Agrees name) after
      → lookup_key sha256 (add_keys sha256 k (before ++ key ∷ after) name) key ≡ some name
  unfolding add_keys add_key lookup_key
  add_keys-own k [] after some_key agree =
      add_keys-found (add_key sha256 k key name) name after agree (
        rw some_key (
          last_match-snoc (sha256 key) (sha256 key) name k.entries none
          ∙ rw (same_refl (sha256 key)) refl))
  add_keys-own k (other ∷ before) after some_key agree =
      add_keys-own (add_key sha256 k other name) before after some_key agree

  with_tenant_keys-own :
      (k : KeySet) (before after : List (String × List String)) (ks ks' : List String)
      → same key "" ≡ false
      → All
          (λ (p : String × List String). All (Agrees p.0) p.1)
          (before ++ (name, ks ++ key ∷ ks') ∷ after)
      → lookup_key sha256
          (with_tenant_keys sha256 k (before ++ (name, ks ++ key ∷ ks') ∷ after))
          key
        ≡ some name
  unfolding with_tenant_keys
  with_tenant_keys-own k [] after ks ks' some_key agree =
      with_tenant_keys-found (add_keys sha256 k (ks ++ key ∷ ks') name) after agree.1
        (add_keys-own k ks ks' some_key (All-at (Agrees name) ks ks' key agree.0).1)
  with_tenant_keys-own k ((tenant, keys) ∷ before) after ks ks' some_key agree =
      with_tenant_keys-own (add_keys sha256 k keys tenant) before after ks ks' some_key agree.1

-- The digest of another key is another.
unfoldable pub Apart : (String → String) → String → List String → Type 0
Apart sha256 key keys = All (λ other. sha256 other ≡ sha256 key → other ≡ key) keys

Draws-OwnedBy :
    (owners : String → Option String) (ts : List TenantConfig)
    (entries : List (String × List String))
    → All (λ (t : TenantConfig). OwnedBy owners t.name t.keys) ts
    → Draws entries ts
    → All (λ (p : String × List String). OwnedBy owners p.0 p.1) entries
unfolding Draws
Draws-OwnedBy owners ts [] owned drawn = tt
Draws-OwnedBy owners ts ((n, keys) ∷ entries) owned
      ((before, after, t, at_t, same_name, same_keys), drawn) =
    let own =
      (All-at (λ (t : TenantConfig). OwnedBy owners t.name t.keys) before after t
        (subst (λ z. All (λ (t : TenantConfig). OwnedBy owners t.name t.keys) z) at_t owned)).0 in
    (rw same_name (rw same_keys own), Draws-OwnedBy owners ts entries owned drawn)

some-injective : {x y : String} → some x ≡ some y → x ≡ y
some-injective {x} h = ap (λ o. elim o [ none ↦ x | some z ↦ z ]) h

Apart-Agrees :
    (sha256 : String → String) (owners : String → Option String) (key name tenant : String)
    (keys : List String)
    → owners key ≡ some name
    → OwnedBy owners tenant keys
    → Apart sha256 key keys
    → All (Agrees sha256 key name tenant) keys
unfolding Apart Agrees
Apart-Agrees sha256 owners key name tenant [] mine own apart = tt
Apart-Agrees sha256 owners key name tenant (other ∷ keys) mine own apart = (
  λ e. some-injective (sym own.0 ∙ ap owners (apart.0 e) ∙ mine),
  Apart-Agrees sha256 owners key name tenant keys mine own.1 apart.1,
)

entries-Agree :
    (sha256 : String → String) (owners : String → Option String) (key name : String)
    (entries : List (String × List String))
    → owners key ≡ some name
    → All (λ (p : String × List String). OwnedBy owners p.0 p.1) entries
    → All (λ (p : String × List String). Apart sha256 key p.1) entries
    → All (λ (p : String × List String). All (Agrees sha256 key name p.0) p.1) entries
entries-Agree sha256 owners key name [] mine own apart = tt
entries-Agree sha256 owners key name ((tenant, keys) ∷ entries) mine own apart = (
  Apart-Agrees sha256 owners key name tenant keys mine own.0 apart.0,
  entries-Agree sha256 owners key name entries mine own.1 apart.1,
)

-- With a configuration that is accepted at startup, every key of a tenant identifies that tenant and no
-- other, in whatever order the gateway takes the tenants from its map: the request that presents the key
-- is billed to the tenant that the key was given to. The key is not empty, and its digest is not that
-- of another tenant key.
pub lookup_key-owner :
    (sha256 : String → String) (s : Strings) (cfg : AuthConfig) (listen : String)
    (before after : List (String × List String)) (name key : String) (ks ks' : List String)
    → validate_auth s cfg listen ≡ []
    → Draws (before ++ (name, ks ++ key ∷ ks') ∷ after) cfg.tenants
    → same key "" ≡ false
    → All
        (λ (p : String × List String). Apart sha256 key p.1)
        (before ++ (name, ks ++ key ∷ ks') ∷ after)
    → lookup_key sha256
        (with_tenant_keys sha256
          (new_key_set sha256 cfg.client_keys)
          (before ++ (name, ks ++ key ∷ ks') ∷ after))
        key
      ≡ some name
lookup_key-owner sha256 s cfg listen before after name key ks ks' valid drawn some_key apart =
    let entries = before ++ (name, ks ++ key ∷ ks') ∷ after in
    let sound = validate_auth-Sound s cfg listen valid in
    let own = Draws-OwnedBy sound.owners cfg.tenants entries sound.owned drawn in
    let OwnedEntry = λ (p : String × List String). OwnedBy sound.owners p.0 p.1 in
    let of_name = (All-at OwnedEntry before after (name, ks ++ key ∷ ks') own).0 in
    let mine = (All-at (λ k. sound.owners k ≡ some name) ks ks' key of_name).0 in
    with_tenant_keys-own sha256 key name (new_key_set sha256 cfg.client_keys) before after ks ks'
      some_key (entries-Agree sha256 sound.owners key name entries mine own apart)
