-- ===== src/Ingress/Auth.antt =====
-- internal/ingress/auth.go: the client keys. The digests and the tenants, two slices in step, are one
-- list of pairs; the digest is crypto/sha256's and is a parameter.
pub mod Identity
use pen_stock.Base.{
  ℕ, Bool, true, false, ◌||◌, Option, none, some, String, List, [], ◌∷◌, ◌++◌, length, ◌==◌, same,
  if◌then◌else◌,
}

abbrev pub anonymous_tenant : String
anonymous_tenant = ""

pub record KeySet : Type 0 where
  pub entries : List (String × String)

-- The loop of `lookup`: every digest is compared, and the last match counts.
unfoldable pub last_match : String → List (String × String) → Option String → Option String
last_match got [] matched = matched
last_match got ((digest, tenant) ∷ entries) matched =
    last_match got entries (if same got digest then some tenant else matched)

-- What a request may do: pass without an identity, as a tenant, or not at all.
pub data Access : Type 0 where
  passes : Access
  passes_as : String → Access
  unauthorized : Access

module _ (sha256 : String → String) where
  -- `add`
  unfoldable pub add_key : KeySet → String → String → KeySet
  add_key k key tenant =
      if same key "" then k else record { entries = k.entries ++ (sha256 key, tenant) ∷ [] }

  unfoldable pub add_keys : KeySet → List String → String → KeySet
  unfolding add_key
  add_keys k [] tenant = k
  add_keys k (key ∷ keys) tenant = add_keys (add_key k key tenant) keys tenant

  -- `newKeySet`
  unfoldable pub new_key_set : List String → KeySet
  unfolding add_keys
  new_key_set keys = add_keys (record { entries = [] }) keys anonymous_tenant

  -- `WithTenantKeys`; the order of the tenants is that of a Go map, any one.
  unfoldable pub with_tenant_keys : KeySet → List (String × List String) → KeySet
  unfolding add_keys
  with_tenant_keys k [] = k
  with_tenant_keys k ((tenant, keys) ∷ by_tenant) =
      with_tenant_keys (add_keys k keys tenant) by_tenant

  -- `lookup`
  unfoldable pub lookup_key : KeySet → String → Option String
  unfolding last_match
  lookup_key k presented = last_match (sha256 presented) k.entries none

  access_of : Option String → Access
  access_of none = unauthorized
  access_of (some tenant) = if same tenant anonymous_tenant then passes else passes_as tenant

  presented_access : KeySet → Option String → Access
  unfolding access_of lookup_key
  presented_access k none = unauthorized
  presented_access k (some key) = access_of (lookup_key k key)

  -- `withAuth`, given the path and the key that `bearerToken` reads from the header.
  unfoldable pub with_auth : KeySet → String → Option String → Access
  unfolding presented_access
  with_auth k path token =
      if (length k.entries == 0) || same path "/healthz" then passes else presented_access k token
