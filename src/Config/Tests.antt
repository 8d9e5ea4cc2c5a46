-- ===== src/Config/Tests.antt =====
-- Examples for internal/config: two providers, and a route that falls back from one to the other under
-- another model's name.
use pen_stock.Base.{◌≡◌, refl, true, none, [], ◌∷◌, All}
use pen_stock.Router.Options.{Options}
use pen_stock.Router.Health.{new_health}
use pen_stock.Router.Chain.{contains}
use pen_stock.Config.Routes.{
  ProviderConfig, RouteConfig, check_providers, check_provider, models_of, check_routes,
  check_route, check_links, check_link, check_renames, route_chain, upstream_model, or_route_model,
  is_listed, strategy_of, validate_chains, build_route,
}
use pen_stock.Config.Routes.Building.{Routes, validate_chains-build_route}

abbrev groq : ProviderConfig
groq = record {
  name = "groq";
  kind = "groq";
  base_url = "https://api.groq.com";
  api_key = "secret";
  models = "llama" ∷ [];
}

abbrev gemini : ProviderConfig
gemini = record groq { name = "gemini"; kind = "gemini"; models = [] }

abbrev auto_route : RouteConfig
auto_route = record {
  model = "auto";
  provider = "";
  providers = "groq" ∷ "gemini" ∷ [];
  strategy = "round_robin";
  provider_models = ("groq", "llama") ∷ [];
}

abbrev tuning : Options
tuning = record {
  max_attempts = 0;
  retry_base_delay = 0;
  max_retry_delay = 0;
  breaker_threshold = 0;
  breaker_cooldown = 0;
  strategy = none;
}

accepted :
    validate_chains (λ url. true) ("groq" ∷ "gemini" ∷ []) (groq ∷ gemini ∷ []) (auto_route ∷ [])
    ≡ []
unfolding validate_chains check_providers check_provider models_of check_routes check_route
    check_links check_link check_renames route_chain upstream_model or_route_model is_listed
    strategy_of contains
accepted = refl

validate_chains-build_route_example :
    All
      (λ (r : RouteConfig). Routes r (
        build_route
          (λ name.
            contains name
              (check_providers (λ url. true) ("groq" ∷ "gemini" ∷ []) 0 [] (groq ∷ gemini ∷ [])).0)
          (new_health (λ a b. a) tuning)
          tuning
          r))
      (auto_route ∷ [])
validate_chains-build_route_example =
    validate_chains-build_route (λ url. true) ("groq" ∷ "gemini" ∷ []) (groq ∷ gemini ∷ [])
      (auto_route ∷ []) (new_health (λ a b. a) tuning) tuning accepted
