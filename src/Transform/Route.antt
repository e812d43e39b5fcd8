-- ===== src/Transform/Route.antt =====
-- src/transform/route.rs: one HTTPRoute for each usable router. Warnings are not modelled.
pub mod Protection
pub mod References
pub mod Policies
pub mod Hosts
mod Tests
use pangolin_gateway_api.Prelude.{
  Bool, true, false, not, ◌&&◌, ◌||◌, List, [], ◌∷◌, Option, none, some, Text, codes, ◌≟◌, is_empty,
  is_some, is_none, any, map_some, if◌then◌else◌,
}
use pangolin_gateway_api.BTreeMap.{BTreeMap, BTreeSet, text_ord, get, insert}
use pangolin_gateway_api.External.{External}
use pangolin_gateway_api.Config.{Config, ExtAuthzConfig}
use pangolin_gateway_api.Pangolin.Types.{TraefikDynamicConfig, HttpConfig, Router}
use pangolin_gateway_api.Kube.Meta.{owner_labels, managed_metadata_with}
use pangolin_gateway_api.Kube.HttpRoute.{
  FilterType, PathMatchType, HttpRouteRulesFilters, HttpRouteRulesMatches, HttpRouteRules,
  HttpRoute, BackendRef,
}
use pangolin_gateway_api.Transform.Desired.{Desired}
use pangolin_gateway_api.Transform.Naming.{prefixed_label}
use pangolin_gateway_api.Transform.Rule.{PathMatchKind, PathMatch, ParsedRule, is_usable, parse}
use pangolin_gateway_api.Transform.Middleware.{requires_badger_auth, build_filters}
use pangolin_gateway_api.Transform.Backend.{BackendIndex}
use pangolin_gateway_api.Transform.Backend.Emit.{ResolvedBackend}
use pangolin_gateway_api.Transform.ExtAuthz.{build_security_policy}

pub record RouteIndex : Type 0 where
  pub hostnames : BTreeSet Text
  pub https_hosts : BTreeSet Text

abbrev pub match_type : PathMatchKind → PathMatchType
match_type PathMatchKind.exact = PathMatchType.exact
match_type PathMatchKind.prefix = PathMatchType.path_prefix
match_type PathMatchKind.regex = PathMatchType.regular_expression

abbrev route_match : PathMatch → List HttpRouteRulesMatches
route_match p = record { type = match_type p.kind; value = p.value } ∷ []

abbrev pub is_redirect : FilterType → Bool
is_redirect FilterType.request_redirect = true
is_redirect _ = false

abbrev pub is_terminating : List HttpRouteRulesFilters → Bool
is_terminating = any (λ f. is_redirect f.type)

abbrev pub some_filters : List HttpRouteRulesFilters → Option (List HttpRouteRulesFilters)
some_filters [] = none
some_filters (f ∷ fs) = some (f ∷ fs)

abbrev backend_ref : ResolvedBackend → BackendRef
backend_ref backend = record {
  name = backend.name;
  namespace = backend.namespace;
  port = some backend.port;
  kind = some backend.kind;
  group = some backend.group;
  weight = some 1;
}

-- The one rule of the route.
unfoldable pub route_rule :
    Option PathMatch → List HttpRouteRulesFilters → ResolvedBackend → HttpRouteRules
route_rule path filters backend = record {
  matches = map_some route_match path;
  filters = some_filters filters;
  backend_refs = if is_terminating filters then none else some (backend_ref backend ∷ []);
}

-- `entry_points.iter().any(|e| e == "https")`.
pub has_https : List Text → Bool
unfolding ◌≟◌
has_https = any (λ e. e ≟ codes "https")

abbrev pub wants_https : Config → Router → Bool
wants_https cfg router =
    cfg.enable_https_listeners && (is_some router.tls || has_https router.entry_points)

-- The loop over the hosts.
index_hosts : Bool → List Text → RouteIndex → RouteIndex
unfolding insert
index_hosts https [] index = index
index_hosts https (host ∷ hosts) index = index_hosts https hosts (record {
  hostnames = insert host tt index.hostnames;
  https_hosts = if https then insert host tt index.https_hosts else index.https_hosts;
})

module _ (x : External) (cfg : Config) where
  open x use {Value, hash}

  unfoldable pub route_name : Text → Text
  unfolding prefixed_label
  route_name router_name = prefixed_label hash (codes "hr") router_name

  unfoldable pub build_http_route :
      Text → ParsedRule → List HttpRouteRulesFilters → ResolvedBackend → HttpRoute
  unfolding route_rule managed_metadata_with owner_labels route_name
  build_http_route router_name parsed filters backend =
      let name = route_name router_name in
      record {
        metadata = managed_metadata_with cfg name (owner_labels cfg name) cfg.httproute_annotations;
        spec = record {
          parent_refs = some (
              record {
                group = some (codes "gateway.networking.k8s.io");
                kind = some (codes "ListenerSet");
                name = cfg.listener_set_name;
                namespace = some cfg.namespace;
                section_name = none;
              }
              ∷ []);
          hostnames = some parsed.hosts;
          rules = some (route_rule parsed.path filters backend ∷ []);
        };
      }

  -- `sp.metadata.name.expect("policy has a name")`.
  abbrev expect_name : Option Text → Text
  expect_name none = []
  expect_name (some n) = n

  -- `if protected && let Some(ea) = &cfg.ext_authz`.
  pub protect : Bool → Option ExtAuthzConfig → Text → Desired → Desired
  unfolding build_security_policy insert
  protect true (some ea) name desired =
      let sp = build_security_policy hash cfg ea name in
      record desired {
        security_policies = insert (expect_name sp.metadata.name) sp desired.security_policies;
      }
  protect _ _ name desired = desired

  -- A protected router is skipped where nothing authorizes its requests.
  abbrev pub is_refused : Bool → Bool
  is_refused protected = protected && is_none cfg.ext_authz && not cfg.allow_unauthenticated_routes

  -- The router's part behind the lookup of its backend.
  emit_route :
      HttpConfig Value
      → Text
      → Router
      → ParsedRule
      → Bool
      → Option ResolvedBackend
      → RouteIndex × Desired
      → RouteIndex × Desired
  unfolding build_filters build_http_route index_hosts has_https protect insert
  emit_route http router_name router parsed protected none acc = acc
  emit_route http router_name router parsed protected (some backend) (index, desired) =
      let name = route_name router_name in
      let filters = build_filters x router.middlewares http.middlewares in
      let route = build_http_route router_name parsed filters backend in
      let guarded = protect protected cfg.ext_authz name desired in
      (
        index_hosts (wants_https cfg router) parsed.hosts index,
        record guarded { http_routes = insert name route guarded.http_routes },
      )

  -- One round of the loop of `build_routes`.
  build_route :
      HttpConfig Value → BackendIndex → Text → Router → RouteIndex × Desired → RouteIndex × Desired
  unfolding parse is_usable requires_badger_auth emit_route get
  build_route http backends router_name router acc =
      let parsed = parse router.rule in
      let protected = requires_badger_auth x router.middlewares http.middlewares in
      let emitted =
        emit_route http router_name router parsed protected (get router.service backends) acc in
      if is_usable parsed && not (is_refused protected) then emitted else acc

  build_route_list :
      HttpConfig Value
      → BackendIndex
      → BTreeMap Text Router
      → RouteIndex × Desired
      → RouteIndex × Desired
  unfolding build_route
  build_route_list http backends [] acc = acc
  build_route_list http backends ((router_name, router) ∷ routers) acc =
      build_route_list http backends routers (build_route http backends router_name router acc)

  unfoldable pub build_routes :
      TraefikDynamicConfig Value → BackendIndex → Desired → RouteIndex × Desired
  unfolding build_route_list
  build_routes dyn_config backends desired =
      build_route_list dyn_config.http backends dyn_config.http.routers
        (record { hostnames = []; https_hosts = [] }, desired)
