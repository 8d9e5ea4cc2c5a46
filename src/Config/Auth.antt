-- ===== src/Config/Auth.antt =====
-- internal/config/config.go and types.go: the keys and the tenants, and `validateAuth`. A problem names
-- its place by the indices of the tenant and of the key. The length of a string in bytes, the pattern
-- of tenant names, the host of an address and which addresses are loopbacks are the standard library's.
pub mod Owners
use pen_stock.Base.{
  ℕ, ◌+◌, Bool, true, false, not, ◌&&◌, ◌||◌, Option, none, some, String, List, [], ◌∷◌, ◌++◌, ltb,
  length, ◌==◌, same, update, if◌then◌else◌,
}
use pen_stock.Router.Chain.{contains}

abbrev pub min_client_key_length : ℕ
min_client_key_length = 16

-- A limit, which a file may give as a negative number.
pub data Limit : Type 0 where
  at_least_zero : ℕ → Limit
  below_zero : Limit

pub record TenantConfig : Type 0 where
  pub name : String
  pub keys : List String
  pub requests_per_minute : Limit
  pub tokens_per_minute : Limit
  pub daily_usd : Limit
  pub monthly_usd : Limit

pub record AuthConfig : Type 0 where
  pub client_keys : List String
  pub tenants : List TenantConfig

pub data AuthProblem : Type 0 where
  open_to_all : AuthProblem
  weak_client_key : ℕ → AuthProblem
  unnamed_tenant : ℕ → AuthProblem
  duplicate_tenant : ℕ → AuthProblem
  unsafe_tenant_name : ℕ → AuthProblem
  keyless_tenant : ℕ → AuthProblem
  weak_tenant_key : ℕ → ℕ → AuthProblem
  also_client_key : ℕ → ℕ → AuthProblem
  taken_key : ℕ → ℕ → String → AuthProblem
  negative_limit : ℕ → AuthProblem
  keys_of_both_kinds : AuthProblem

pub record Strings : Type 0 where
  pub byte_length : String → ℕ
  pub is_tenant_name : String → Bool
  pub split_host : String → Option String
  pub ip_is_loopback : String → Bool

loopback_host : Strings → Option String → Bool
loopback_host s none = false
loopback_host s (some host) = same host "localhost" || s.ip_is_loopback host

-- `isLoopbackListen`
unfoldable pub is_loopback_listen : Strings → String → Bool
unfolding loopback_host
is_loopback_listen s addr = loopback_host s (s.split_host addr)

unfoldable pub some_tenant_keys : List TenantConfig → Bool
some_tenant_keys [] = false
some_tenant_keys (t ∷ ts) = not (length t.keys == 0) || some_tenant_keys ts

-- `hasKeys`
unfoldable pub has_keys : AuthConfig → Bool
unfolding some_tenant_keys
has_keys cfg = not (length cfg.client_keys == 0) || some_tenant_keys cfg.tenants

abbrev pub report : Bool → AuthProblem → List AuthProblem
report test problem = if test then problem ∷ [] else []

unfoldable pub check_client_keys : Strings → ℕ → List String → List AuthProblem
check_client_keys s i [] = []
check_client_keys s i (key ∷ keys) =
    report (ltb (s.byte_length key) min_client_key_length) (weak_client_key i)
    ++ check_client_keys s (i + 1) keys

-- The `switch` on the owner of a key, with `tenantOfKey` before and after.
unfoldable pub claim_key :
    ℕ
    → ℕ
    → String
    → (String → Option String)
    → String
    → Bool
    → Option String
    → (String → Option String) × List AuthProblem
claim_key i j name owners key true owner = (owners, also_client_key i j ∷ [])
claim_key i j name owners key false (some owner) = (owners, taken_key i j owner ∷ [])
claim_key i j name owners key false none = (update owners key name, [])

-- The loop over the keys of a tenant.
unfoldable pub check_keys :
    Strings
    → List String
    → ℕ
    → ℕ
    → String
    → (String → Option String)
    → List String
    → (String → Option String) × List AuthProblem
unfolding claim_key contains
check_keys s client_keys i j name owners [] = (owners, [])
check_keys s client_keys i j name owners (key ∷ keys) =
    let (owners', problems) =
      claim_key i j name owners key (contains key client_keys) (owners key) in
    let (owners'', rest) = check_keys s client_keys i (j + 1) name owners' keys in
    (
      owners'',
      report (ltb (s.byte_length key) min_client_key_length) (weak_tenant_key i j)
          ++ (problems ++ rest),
    )

abbrev pub is_negative : Limit → Bool
is_negative (at_least_zero n) = false
is_negative below_zero = true

unfoldable pub check_limits : ℕ → TenantConfig → List AuthProblem
check_limits i t =
    report (is_negative t.requests_per_minute) (negative_limit i)
    ++ (report (is_negative t.tokens_per_minute) (negative_limit i)
        ++ (report (is_negative t.daily_usd) (negative_limit i)
            ++ report (is_negative t.monthly_usd) (negative_limit i)))

-- The `switch` on a tenant's name.
unfoldable pub check_name : Strings → ℕ → List String → String → List AuthProblem
unfolding contains
check_name s i names name =
    if same name ""
    then unnamed_tenant i ∷ []
    else if contains name names
    then duplicate_tenant i ∷ []
    else if not (s.is_tenant_name name)
    then unsafe_tenant_name i ∷ []
    else []

-- The loop over the tenants, with the names and the owners so far.
unfoldable pub check_tenants :
    Strings
    → List String
    → ℕ
    → List String
    → (String → Option String)
    → List TenantConfig
    → List AuthProblem
unfolding check_name check_keys check_limits
check_tenants s client_keys i names owners [] = []
check_tenants s client_keys i names owners (t ∷ ts) =
    let (owners', key_problems) = check_keys s client_keys i 0 t.name owners t.keys in
    check_name s i names t.name
    ++ (report (length t.keys == 0) (keyless_tenant i)
        ++ (key_problems
            ++ (check_limits i t
                ++ check_tenants s client_keys (i + 1) (t.name ∷ names) owners' ts)))

-- `validateAuth`
unfoldable pub validate_auth : Strings → AuthConfig → String → List AuthProblem
unfolding has_keys check_client_keys check_tenants is_loopback_listen
validate_auth s cfg listen =
    report (not (has_keys cfg) && not (is_loopback_listen s listen)) open_to_all
    ++ (check_client_keys s 0 cfg.client_keys
        ++ (check_tenants s cfg.client_keys 0 [] (λ _. none) cfg.tenants
            ++ report (not (length cfg.client_keys == 0) && not (length cfg.tenants == 0))
                keys_of_both_kinds))
