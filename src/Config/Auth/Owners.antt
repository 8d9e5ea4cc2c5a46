-- ===== src/Config/Auth/Owners.antt =====
-- A configuration without problems (internal/config/config.go) gives each tenant key one owner.
use pen_stock.Base.{
  nil-append, ℕ, ◌+◌, ◌≡◌, refl, sym, ap, ◌∙◌, ◌⊎◌, inl, inr, Bool, true, false, not, ◌&&◌, Option,
  none, some, String, List, [], ◌∷◌, ◌++◌, All, length, ltb, ◌==◌, same, same→eq, update,
  update_self, update_ne, same→ne, Bool-cases, arith,
}
use pen_stock.Router.Chain.{contains}
use pen_stock.Config.Auth.{
  TenantConfig, AuthConfig, Strings, is_loopback_listen, report, claim_key, check_keys,
  check_limits, check_name, check_tenants, validate_auth, weak_tenant_key, min_client_key_length,
  keyless_tenant, check_client_keys, open_to_all, keys_of_both_kinds, has_keys,
}

-- Each key has this owner.
abbrev pub OwnedBy : (String → Option String) → String → List String → Type 0
OwnedBy owners name keys = All (λ key. owners key ≡ some name) keys

-- What has an owner keeps it.
Extends : (String → Option String) → (String → Option String) → Type 0
Extends m m' = (key name : String) → m key ≡ some name → m' key ≡ some name

claim_key-Extends :
    (i j : ℕ) (name : String) (owners : String → Option String) (key : String) (client : Bool)
    (o : Option String)
    → owners key ≡ o
    → (claim_key i j name owners key client o).1 ≡ []
    → Extends owners (claim_key i j name owners key client o).0
      × ((claim_key i j name owners key client o).0 key ≡ some name)
unfolding claim_key Extends
claim_key-Extends i j name owners key true o h x = cc x
claim_key-Extends i j name owners key false (some owner) h x = cc x
claim_key-Extends i j name owners key false none h x = (keeps, update_self owners key name)
  where
    keeps : (k n : String) → owners k ≡ some n → update owners key name k ≡ some n
    keeps k n e = elim (Bool-cases (same key k)) [
      | inl y ↦ absurd (cc (sym h ∙ ap owners (same→eq key k y) ∙ e))
      | inr y ↦ update_ne owners key k name (same→ne key k y) ∙ e
    ]

-- What the checks without a problem leave.
check_keys-OwnedBy :
    (s : Strings) (client_keys : List String) (i j : ℕ) (name : String)
    (owners : String → Option String) (keys : List String)
    → (check_keys s client_keys i j name owners keys).1 ≡ []
    → Extends owners (check_keys s client_keys i j name owners keys).0
      × OwnedBy (check_keys s client_keys i j name owners keys).0 name keys
unfolding check_keys Extends
check_keys-OwnedBy s client_keys i j name owners [] h = (λ k n e. e, tt)
check_keys-OwnedBy s client_keys i j name owners (key ∷ keys) h =
    let claimed = claim_key i j name owners key (contains key client_keys) (owners key) in
    let rest = check_keys s client_keys i (j + 1) name claimed.0 keys in
    let weak = report (ltb (s.byte_length key) min_client_key_length) (weak_tenant_key i j) in
    let later = nil-append claimed.1 rest.1 (nil-append weak (claimed.1 ++ rest.1) h).1 in
    let first =
      claim_key-Extends i j name owners key (contains key client_keys) (owners key) refl later.0 in
    let others = check_keys-OwnedBy s client_keys i (j + 1) name claimed.0 keys later.1 in
    (λ k n e. others.0 k n (first.0 k n e), (others.0 key name first.1, others.1))

-- One owner for every key of every tenant.
check_tenants-OwnedBy :
    (s : Strings) (client_keys : List String) (i : ℕ) (names : List String)
    (owners : String → Option String) (ts : List TenantConfig)
    → check_tenants s client_keys i names owners ts ≡ []
    → (owners' : String → Option String) × Extends owners owners'
      × All (λ (t : TenantConfig). OwnedBy owners' t.name t.keys) ts
unfolding check_tenants Extends
check_tenants-OwnedBy s client_keys i names owners [] h = (owners, λ k n e. e, tt)
check_tenants-OwnedBy s client_keys i names owners (t ∷ ts) h =
    let checked = check_keys s client_keys i 0 t.name owners t.keys in
    let rest = check_tenants s client_keys (i + 1) (t.name ∷ names) checked.0 ts in
    let a = (nil-append (check_name s i names t.name) _ h).1 in
    let b = (nil-append (report (length t.keys == 0) (keyless_tenant i)) _ a).1 in
    let (c, d) = nil-append checked.1 (check_limits i t ++ rest) b in
    let (grown, own) = check_keys-OwnedBy s client_keys i 0 t.name owners t.keys c in
    let (owners', keeps, others) =
      check_tenants-OwnedBy s client_keys (i + 1) (t.name ∷ names) checked.0 ts
        (nil-append (check_limits i t) rest d).1 in
    (
      owners',
      λ k n e. keeps k n (grown k n e),
      (OwnedBy-Extends checked.0 owners' t.name t.keys keeps own, others),
    )
  where
    OwnedBy-Extends :
        (m m' : String → Option String) (name : String) (keys : List String)
        → Extends m m'
        → OwnedBy m name keys
        → OwnedBy m' name keys
    OwnedBy-Extends m m' name [] f own = tt
    OwnedBy-Extends m m' name (key ∷ keys) f own =
        (f key name own.0, OwnedBy-Extends m m' name keys f own.1)

-- What a configuration without problems says of its keys.
pub record Sound (cfg : AuthConfig) : Type 0 where
  pub owners : String → Option String
  pub owned : All (λ (t : TenantConfig). OwnedBy owners t.name t.keys) cfg.tenants
  pub one_kind : (cfg.client_keys ≡ []) ⊎ (cfg.tenants ≡ [])

pub validate_auth-Sound :
    (s : Strings) (cfg : AuthConfig) (listen : String) → validate_auth s cfg listen ≡ [] → Sound cfg
unfolding validate_auth
validate_auth-Sound s cfg listen h =
    let a =
      (nil-append (report (not (has_keys cfg) && not (is_loopback_listen s listen)) open_to_all) _
        h).1 in
    let b = (nil-append (check_client_keys s 0 cfg.client_keys) _ a).1 in
    let (c, d) = nil-append (check_tenants s cfg.client_keys 0 [] (λ _. none) cfg.tenants) _ b in
    let (owners, keeps, owned) =
      check_tenants-OwnedBy s cfg.client_keys 0 [] (λ _. none) cfg.tenants c in
    record { owners = owners; owned = owned; one_kind = kinds cfg.client_keys cfg.tenants d }
  where
    kinds :
        (ks : List String) (ts : List TenantConfig)
        → report (not (length ks == 0) && not (length ts == 0)) keys_of_both_kinds ≡ []
        → (ks ≡ []) ⊎ (ts ≡ [])
    kinds [] ts x = inl refl
    kinds (k ∷ ks) [] x = inr refl
    kinds (k ∷ ks) (t ∷ ts) x = ground (arith, x)
