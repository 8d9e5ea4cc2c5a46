-- ===== src/Config/Routes/Building.antt =====
-- Routes that internal/config/config.go accepts are built (cmd/penstock/main.go).
use pen_stock.Base.{
  nil-append, ℕ, ◌+◌, ◌≡◌, refl, inl, inr, Bool, true, false, not, ◌&&◌, Option, none, some, String,
  List, [], ◌∷◌, ◌++◌, All, length, ◌==◌, same, Bool-cases, if◌then◌else◌, arith,
}
use pen_stock.Router.Options.{Strategy, priority, least_latency, round_robin, Options}
use pen_stock.Router.Health.{Tracker}
use pen_stock.Router.Selector.{Selector, new_selector}
use pen_stock.Router.Chain.{Router, contains}
use pen_stock.Router.Route.{first_duplicate, new_router, new_checked}
use pen_stock.Config.Routes.{
  ProviderConfig, RouteConfig, raise, route_chain, check_providers, check_link, check_links,
  strategy_of, is_none, check_route, check_routes, validate_chains, strategy_or_default, Build,
  routed, first_missing, build_new, build_chain, build_route, empty_chain, unnamed_route,
  duplicate_model, unknown_strategy, no_providers, no_routes, ambiguous_order,
}

-- A link without a problem is new to its chain, and a provider of this name was declared.
check_link-clear :
    (i : ℕ) (r : RouteConfig) (names : List String) (models : String → Option (List String))
    (seen : List String) (name : String)
    → check_link i r names models seen name ≡ []
    → (contains name seen ≡ false) × (contains name names ≡ true)
unfolding check_link
check_link-clear i r names models seen name h = (ground (arith, h), ground (arith, h))

-- A chain whose links have no problem has no duplicate and no undeclared provider.
check_links-clear :
    (i : ℕ) (r : RouteConfig) (names : List String) (models : String → Option (List String))
    (seen chain : List String)
    → check_links i r names models seen chain ≡ []
    → (first_duplicate seen chain ≡ none)
      × (first_missing (λ name. contains name names) chain ≡ none)
unfolding check_links first_duplicate first_missing
check_links-clear i r names models seen [] h = (refl, refl)
check_links-clear i r names models seen (name ∷ chain) h =
    let (a, b) = nil-append (check_link i r names models seen name) _ h in
    let (fresh, declared) = check_link-clear i r names models seen name a in
    let (rest, rest') = check_links-clear i r names models (seen ++ name ∷ []) chain b in
    (rw fresh rest, rw declared rest')

-- A strategy without a problem has a selector.
Selects : Option Selector → Type 0
Selects o = (sel : Selector) × (o ≡ some sel)

new_selector-Selects :
    (i : ℕ) (s : String)
    → raise (not (same s "") && is_none (strategy_of s)) (unknown_strategy i) ≡ []
    → Selects (new_selector (strategy_of (strategy_or_default s)))
unfolding Selects strategy_or_default strategy_of new_selector
new_selector-Selects i s h = elim (Bool-cases (same s "")) [
  | inl e ↦ rw e (default_selector)
  | inr e ↦ rw e (go (strategy_of s) (rw e at h))
]
  where
    default_selector : (sel : Selector) × (new_selector (strategy_of "priority") ≡ some sel)
    default_selector = (_, refl)

    go :
        (o : Option Strategy)
        → raise (is_none o) (unknown_strategy i) ≡ []
        → (sel : Selector) × (new_selector o ≡ some sel)
    go none x = cc x
    go (some priority) x = (_, refl)
    go (some least_latency) x = (_, refl)
    go (some round_robin) x = (_, refl)

-- A router over the whole chain.
pub Routes : RouteConfig → Build → Type 0
Routes r b = (router : Router) × (b ≡ routed router) × (router.names ≡ route_chain r)

new_router-Routes :
    (i : ℕ) (r : RouteConfig) (health : Tracker) (sel : Selector) (opts : Options)
    (chain : List String)
    → raise (length chain == 0) (empty_chain i) ≡ []
    → first_duplicate [] chain ≡ none
    → (router : Router) × (build_new (new_router r.model chain (some health) (some sel) opts)
        ≡ routed router)
      × (router.names ≡ chain)
unfolding new_router new_checked build_new
new_router-Routes i r health sel opts [] some_chain fresh = cc some_chain
new_router-Routes i r health sel opts (p ∷ chain) some_chain fresh = rw fresh (_, refl, refl)

check_route-Routes :
    (i : ℕ) (names : List String) (models : String → Option (List String)) (before : List String)
    (r : RouteConfig) (health : Tracker) (opts : Options)
    → check_route i names models before r ≡ []
    → Routes r (build_route (λ name. contains name names) health opts r)
unfolding check_route build_route build_chain Routes Selects
check_route-Routes i names models before r health opts h =
    let chain = route_chain r in
    let naming =
      (if same r.model ""
        then unnamed_route i ∷ []
        else raise (contains r.model before) (duplicate_model i)) in
    let a = (nil-append naming _ h).1 in
    let b =
      (nil-append
        (raise (not (same r.provider "") && not (length r.providers == 0)) (ambiguous_order i)) _
        a).1 in
    let (some_chain, c) = nil-append (raise (length chain == 0) (empty_chain i)) _ b in
    let (links, d) = nil-append (check_links i r names models [] chain) _ c in
    let (strategy, e) =
      nil-append
        (raise (not (same r.strategy "") && is_none (strategy_of r.strategy)) (unknown_strategy i))
        _ d in
    let (fresh, declared) = check_links-clear i r names models [] chain links in
    let (sel, selects) = new_selector-Selects i r.strategy strategy in
    rw declared (rw selects (new_router-Routes i r health sel opts chain some_chain fresh))

check_routes-Routes :
    (i : ℕ) (names : List String) (models : String → Option (List String)) (before : List String)
    (rs : List RouteConfig) (health : Tracker) (opts : Options)
    → check_routes i names models before rs ≡ []
    → All
        (λ (r : RouteConfig). Routes r (build_route (λ name. contains name names) health opts r))
        rs
unfolding check_routes
check_routes-Routes i names models before [] health opts h = tt
check_routes-Routes i names models before (r ∷ rs) health opts h =
    let (a, b) = nil-append (check_route i names models before r) _ h in
    (
      check_route-Routes i names models before r health opts a,
      check_routes-Routes (i + 1) names models (r.model ∷ before) rs health opts b,
    )

-- Every route of a configuration whose providers and routes pass validation is built into a router over
-- the route's whole chain, in its order, once a provider was built for every name that is declared: no
-- chain has an undeclared provider, a duplicate or no provider, and every strategy has a selector. The
-- tracker of health and the options are any.
pub validate_chains-build_route :
    (is_http_url : String → Bool) (kinds : List String) (providers : List ProviderConfig)
    (routes : List RouteConfig) (health : Tracker) (opts : Options)
    → validate_chains is_http_url kinds providers routes ≡ []
    → All
        (λ (r : RouteConfig). Routes r (
          build_route
            (λ name. contains name (check_providers is_http_url kinds 0 [] providers).0)
            health
            opts
            r))
        routes
unfolding validate_chains
validate_chains-build_route is_http_url kinds providers routes health opts h =
    let a = (nil-append (raise (length providers == 0) no_providers) _ h).1 in
    let b = (nil-append (check_providers is_http_url kinds 0 [] providers).1 _ a).1 in
    let c = (nil-append (raise (length routes == 0) no_routes) _ b).1 in
    check_routes-Routes 0 (check_providers is_http_url kinds 0 [] providers).0 _ [] routes health
      opts c
