-- ===== src/Transform/Build/References.antt =====
-- mod.rs, route.rs and backend.rs: what the HTTPRoutes of the whole translation refer to.
use pangolin_gateway_api.Prelude.{
  ◌≡◌, ◌≢◌, ◌⊎◌, List, [], ◌∷◌, ◌++◌, some, or_value, All, IsIn, Text,
}
use pangolin_gateway_api.BTreeMap.{text_ord, get}
use pangolin_gateway_api.External.{External}
use pangolin_gateway_api.Config.{Config}
use pangolin_gateway_api.Pangolin.Types.{HttpConfig, Router}
use pangolin_gateway_api.Kube.HttpRoute.{
  FilterType, HttpRouteRulesFilters, BackendRef, HttpRouteRules, HttpRoute,
}
use pangolin_gateway_api.Transform.Desired.{Desired}
use pangolin_gateway_api.Transform.Backend.Emit.{ResolvedBackend}
use pangolin_gateway_api.Transform.Backend.Emit.References.{IsBacked}
use pangolin_gateway_api.Transform.Backend.{BackendIndex}

-- The backendRefs and the filters of some rules.
abbrev refs_in : List HttpRouteRules → List BackendRef
refs_in [] = []
refs_in (r ∷ rules) = or_value r.backend_refs [] ++ refs_in rules

abbrev filters_in : List HttpRouteRules → List HttpRouteRulesFilters
filters_in [] = []
filters_in (r ∷ rules) = or_value r.filters [] ++ filters_in rules

abbrev pub backend_refs_of : HttpRoute → List BackendRef
backend_refs_of route = refs_in (or_value route.spec.rules [])

abbrev pub filters_of : HttpRoute → List HttpRouteRulesFilters
filters_of route = filters_in (or_value route.spec.rules [])

-- The reference is to the backend.
abbrev pub NamesBackend : ResolvedBackend → BackendRef → Type 0
NamesBackend backend r =
    (r.group ≡ some backend.group)
    × (r.kind ≡ some backend.kind)
    × (r.name ≡ backend.name)
    × (r.namespace ≡ backend.namespace)
    × (r.port ≡ some backend.port)

-- A filter of the route redirects.
pub record IsRedirected (route : HttpRoute) : Type 0 where
  pub filter : HttpRouteRulesFilters
  pub is_there : IsIn filter (filters_of route)
  pub redirects : filter.type ≡ FilterType.request_redirect

module _ (x : External) (cfg : Config) where
  open x use {Value}

  -- A route of a listed router, whose backendRefs name the backend of the router's service, an object
  -- of the translation or of the cluster. Where the route has none, one of its filters redirects.
  pub record IsServed (http : HttpConfig Value) (backends : BackendIndex) (desired : Desired)
      (binding : Text × HttpRoute) : Type 0 where
    pub name : Text
    pub router : Router
    pub listed : IsIn (name, router) http.routers
    pub backend : ResolvedBackend
    pub resolved : get router.service backends ≡ some backend
    pub backed : IsBacked desired backend
    pub sent : All (NamesBackend backend) (backend_refs_of binding.1)
    pub answered : (backend_refs_of binding.1 ≢ []) ⊎ IsRedirected binding.1

  -- What a route sends to.
  abbrev Sends : ResolvedBackend → HttpRoute → Type 0
  Sends backend route =
      All (NamesBackend backend) (backend_refs_of route)
      × ((backend_refs_of route ≢ []) ⊎ IsRedirected route)
