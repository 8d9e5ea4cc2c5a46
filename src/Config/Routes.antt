-- ===== src/Config/Routes.antt =====
-- internal/config/config.go and types.go: the providers and the routes, `validateProviders` and
-- `validateRoutes`; and `buildRoutes` of cmd/penstock/main.go, which turns the routes into routers. A
-- problem names its place by an index. Whether a text is an http(s) URL is net/url's opinion. A map is
-- a list of its entries, in the order in which it happens to be read.
pub mod Building
use pen_stock.Base.{
  ℕ, ◌+◌, Bool, true, false, not, ◌&&◌, ◌||◌, Option, none, some, String, List, [], ◌∷◌, ◌++◌,
  length, ◌==◌, same, if◌then◌else◌,
}
use pen_stock.Router.Options.{Strategy, priority, least_latency, round_robin, Options}
use pen_stock.Router.Health.{Tracker}
use pen_stock.Router.Selector.{Selector, new_selector}
use pen_stock.Router.Chain.{Router, contains}
use pen_stock.Router.Route.{NewResult, built, refused, NewError, new_router}

pub record ProviderConfig : Type 0 where
  pub name : String
  pub kind : String
  pub base_url : String
  pub api_key : String
  pub models : List String

pub record RouteConfig : Type 0 where
  pub model : String
  pub provider : String
  pub providers : List String
  pub strategy : String
  pub provider_models : List (String × String)

pub data RouteProblem : Type 0 where
  no_providers : RouteProblem
  unnamed_provider : ℕ → RouteProblem
  duplicate_name : ℕ → RouteProblem
  unknown_kind : ℕ → RouteProblem
  missing_base_url : ℕ → RouteProblem
  invalid_base_url : ℕ → RouteProblem
  missing_api_key : ℕ → RouteProblem
  no_routes : RouteProblem
  unnamed_route : ℕ → RouteProblem
  duplicate_model : ℕ → RouteProblem
  ambiguous_order : ℕ → RouteProblem
  empty_chain : ℕ → RouteProblem
  repeated_provider : ℕ → String → RouteProblem
  undeclared_provider : ℕ → String → RouteProblem
  unlisted_model : ℕ → String → String → RouteProblem
  unknown_strategy : ℕ → RouteProblem
  stray_rename : ℕ → String → RouteProblem

abbrev pub raise : Bool → RouteProblem → List RouteProblem
raise test problem = if test then problem ∷ [] else []

-- `Chain`
unfoldable pub route_chain : RouteConfig → List String
route_chain r =
    if not (length r.providers == 0)
    then r.providers
    else if not (same r.provider "")
    then r.provider ∷ []
    else []

abbrev pub entry_of : String → List (String × String) → Option String
entry_of k [] = none
entry_of k ((j, v) ∷ entries) = let rest = entry_of k entries in if same j k then some v else rest

unfoldable pub or_route_model : String → Option String → String
or_route_model model none = model
or_route_model model (some m) = if same m "" then model else m

-- `UpstreamModel`
unfoldable pub upstream_model : RouteConfig → String → String
unfolding or_route_model
upstream_model r provider = or_route_model r.model (entry_of provider r.provider_models)

-- The checks of one provider.
unfoldable pub check_provider :
    (String → Bool) → List String → ℕ → List String → ProviderConfig → List RouteProblem
unfolding contains
check_provider is_http_url kinds i names p =
    (if same p.name ""
      then unnamed_provider i ∷ []
      else raise (contains p.name names) (duplicate_name i))
    ++ (raise (not (contains p.kind kinds)) (unknown_kind i)
        ++ ((if same p.base_url ""
              then missing_base_url i ∷ []
              else raise (not (is_http_url p.base_url)) (invalid_base_url i))
            ++ raise (same p.api_key "") (missing_api_key i)))

-- The names that `validateProviders` collects, and its problems.
unfoldable pub check_providers :
    (String → Bool)
    → List String
    → ℕ
    → List String
    → List ProviderConfig
    → List String × List RouteProblem
unfolding check_provider
check_providers is_http_url kinds i names [] = (names, [])
check_providers is_http_url kinds i names (p ∷ ps) =
    let (names', problems) = check_providers is_http_url kinds (i + 1) (p.name ∷ names) ps in
    (names', check_provider is_http_url kinds i names p ++ problems)

-- The allowlists that `validateProviders` collects: the last one of a name that is not empty.
unfoldable pub models_of :
    List ProviderConfig → String → Option (List String) → Option (List String)
models_of [] name found = found
models_of (p ∷ ps) name found =
    models_of ps name
      (if same p.name name && not (length p.models == 0) then some p.models else found)

unfoldable pub is_listed : String → Option (List String) → Bool
unfolding contains
is_listed model none = true
is_listed model (some models) = contains model models

-- The `switch` on a link of a chain.
unfoldable pub check_link :
    ℕ
    → RouteConfig
    → List String
    → (String → Option (List String))
    → List String
    → String
    → List RouteProblem
unfolding contains upstream_model is_listed
check_link i r names models seen name =
    if contains name seen
    then repeated_provider i name ∷ []
    else if not (contains name names)
    then undeclared_provider i name ∷ []
    else raise (not (is_listed (upstream_model r name) (models name)))
        (unlisted_model i name (upstream_model r name))

-- The loop over a chain.
unfoldable pub check_links :
    ℕ
    → RouteConfig
    → List String
    → (String → Option (List String))
    → List String
    → List String
    → List RouteProblem
unfolding check_link
check_links i r names models seen [] = []
check_links i r names models seen (name ∷ chain) =
    check_link i r names models seen name ++ check_links i r names models (seen ++ name ∷ []) chain

-- The loop over the renames.
unfoldable pub check_renames : ℕ → List String → List (String × String) → List RouteProblem
unfolding contains
check_renames i chain [] = []
check_renames i chain ((name, model) ∷ renames) =
    raise (not (contains name chain)) (stray_rename i name) ++ check_renames i chain renames

-- `Strategy`, and `AllStrategies`.
unfoldable pub strategy_of : String → Option Strategy
strategy_of s =
    if same s "priority"
    then some priority
    else if same s "least_latency"
    then some least_latency
    else if same s "round_robin"
    then some round_robin
    else none

abbrev pub is_none {ℓ} : {A : Type ℓ} → Option A → Bool
is_none none = true
is_none (some a) = false

unfoldable pub check_route :
    ℕ
    → List String
    → (String → Option (List String))
    → List String
    → RouteConfig
    → List RouteProblem
unfolding check_links check_renames route_chain strategy_of contains
check_route i names models routed r =
    (if same r.model ""
      then unnamed_route i ∷ []
      else raise (contains r.model routed) (duplicate_model i))
    ++ (raise (not (same r.provider "") && not (length r.providers == 0)) (ambiguous_order i)
        ++ (raise (length (route_chain r) == 0) (empty_chain i)
            ++ (check_links i r names models [] (route_chain r)
                ++ (raise (not (same r.strategy "") && is_none (strategy_of r.strategy))
                      (unknown_strategy i)
                    ++ check_renames i (route_chain r) r.provider_models))))

-- The loop over the routes, with the models so far.
unfoldable pub check_routes :
    ℕ
    → List String
    → (String → Option (List String))
    → List String
    → List RouteConfig
    → List RouteProblem
unfolding check_route
check_routes i names models routed [] = []
check_routes i names models routed (r ∷ rs) =
    check_route i names models routed r ++ check_routes (i + 1) names models (r.model ∷ routed) rs

-- `validateProviders` and then `validateRoutes`, as `Validate` calls them.
unfoldable pub validate_chains :
    (String → Bool) → List String → List ProviderConfig → List RouteConfig → List RouteProblem
unfolding check_providers check_routes models_of
validate_chains is_http_url kinds providers routes =
    let (names, problems) = check_providers is_http_url kinds 0 [] providers in
    raise (length providers == 0) no_providers
    ++ (problems
        ++ (raise (length routes == 0) no_routes
            ++ check_routes 0 names (λ name. models_of providers name none) [] routes))

-- `strategyOrDefault`
unfoldable pub strategy_or_default : String → String
strategy_or_default s = if same s "" then "priority" else s

-- What `buildRoutes` comes to for a route.
pub data Build : Type 0 where
  routed : Router → Build
  not_built : String → Build
  no_selector : Build
  not_routed : NewError → Build

-- The loop over the chain, given the providers that were built: the first that was not.
unfoldable pub first_missing : (String → Bool) → List String → Option String
first_missing is_built [] = none
first_missing is_built (name ∷ chain) =
    let rest = first_missing is_built chain in if is_built name then rest else some name

unfoldable pub build_new : NewResult → Build
build_new (built r) = routed r
build_new (refused e) = not_routed e

unfoldable pub build_chain :
    RouteConfig → Tracker → Options → Option String → Option Selector → Build
unfolding build_new new_router
build_chain r health opts (some name) sel = not_built name
build_chain r health opts none none = no_selector
build_chain r health opts none (some sel) =
    build_new (new_router r.model (route_chain r) (some health) (some sel) opts)

-- A round of the loop of `buildRoutes`.
unfoldable pub build_route : (String → Bool) → Tracker → Options → RouteConfig → Build
unfolding build_chain first_missing new_selector strategy_of strategy_or_default route_chain
build_route is_built health opts r =
    build_chain r health opts (first_missing is_built (route_chain r))
      (new_selector (strategy_of (strategy_or_default r.strategy)))
