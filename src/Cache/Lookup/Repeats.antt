-- ===== src/Cache/Lookup/Repeats.antt =====
-- A request that internal/cache/lookup.go has an answer for is answered again from the exact tier.
use pen_stock.Base.{ℕ, ◌+◌, ◌<◌, ◌≡◌, refl, sym, ap, subst, true, false, Option, none, some, String}
use pen_stock.Providers.Types.{Bytes}
use pen_stock.Cache.Types.{Entry, Key}
use pen_stock.Cache.Exact as Tier
use pen_stock.Cache.Exact.{Exact, stamp}
use pen_stock.Cache.Exact.Bounds.{Valid}
use pen_stock.Cache.Exact.Hits.{put-get}
use pen_stock.Cache.Policy.{eligible}
use pen_stock.Cache.Keys.{build_key}
use pen_stock.Cache.Lookup.{
  Lookup, Result, Outside, lookup_nearest, result_of, get_keyed, get_enabled, lookup_get, put_keyed,
  lookup_put,
}

-- The request may be cached, and has this key.
pub record Asks (out : Outside) (max_temp : ℕ) (tenant model : String) (raw : Bytes) (k : Key)
    : Type 0 where
  pub cacheable : (eligible out.codec raw max_temp).cacheable ≡ true
  pub keyed : build_key out.codec tenant model raw ≡ some k

pub lookup_get_lem :
    (out : Outside) (l : Lookup) (c : Exact) (tenant model : String) (raw : Bytes) (k : Key)
    (now : ℕ)
    → l.exact ≡ some c
    → Asks out l.max_temp tenant model raw k
    → lookup_get out l tenant model raw now ≡ (
      record l { exact = some (Tier.get c k now).0 },
      result_of k (Tier.get c k now).1 (lookup_nearest out l l.semantic tenant raw now),
    )
unfolding lookup_get get_enabled get_keyed
lookup_get_lem out l c tenant model raw k now h a = rw h (rw a.cacheable (rw a.keyed refl))

pub result_of-key :
    (k : Key) (o : Option Entry) (similar : Option (Entry × ℕ))
    → ((result_of k o similar).eligible ≡ true) × ((result_of k o similar).key ≡ some k)
unfolding result_of
result_of-key k (some e) similar = (refl, refl)
result_of-key k none (some s) = (refl, refl)
result_of-key k none none = (refl, refl)

pub lookup_put-exact :
    (out : Outside) (l : Lookup) (c : Exact) (res : Result) (e : Entry) (raw : Bytes) (k : Key)
    (now : ℕ)
    → l.exact ≡ some c
    → res.eligible ≡ true
    → res.key ≡ some k
    → ((lookup_put out l res (some e) raw now).exact ≡ some (Tier.put c k (some e) now).0)
      × ((lookup_put out l res (some e) raw now).max_temp ≡ l.max_temp)
unfolding lookup_put put_keyed
lookup_put-exact out l c res e raw k now h able key = rw able (rw h (rw key (refl, refl)))

-- What a lookup stores for a request that may be cached it gives back to the next request with the
-- same key that may be cached, whatever else its body says, as an answer of the exact tier, until the
-- lifetime of the exact tier is over.
pub lookup_put-lookup_get :
    (out : Outside) (l : Lookup) (c : Exact) (res : Result) (e : Entry) (raw raw' : Bytes) (k : Key)
    (tenant model : String) (now later : ℕ)
    → l.exact ≡ some c
    → Valid c
    → res.eligible ≡ true
    → res.key ≡ some k
    → Asks out l.max_temp tenant model raw' k
    → later < now + c.ttl
    → (lookup_get out (lookup_put out l res (some e) raw now) tenant model raw' later).1
      ≡ record { entry = some (stamp e now); semantic = false; key = some k; eligible = true }
unfolding result_of
lookup_put-lookup_get out l c res e raw raw' k tenant model now later h v able key a fresh =
    let l' = lookup_put out l res (some e) raw now in
    let (same_exact, same_temp) = lookup_put-exact out l c res e raw k now h able key in
    let asks = subst (λ t. Asks out t tenant model raw' k) (sym same_temp) a in
    let answers = (put-get c k e now later v fresh).0 in
    rw
      (lookup_get_lem out l' (Tier.put c k (some e) now).0 tenant model raw' k later same_exact
        asks)
      (ap (λ o. result_of k o (lookup_nearest out l' l'.semantic tenant raw' later)) answers)
