-- ===== src/Transform/Route/References.antt =====
-- route.rs: the routes leave the backends alone.
use pangolin_gateway_api.Prelude.{
  ◌≡◌, refl, ◌∙◌, Bool, true, false, not, ◌&&◌, List, [], ◌∷◌, Option, none, some, Text, Bool-cases,
  inl, inr,
}
use pangolin_gateway_api.BTreeMap.{text_ord, get}
use pangolin_gateway_api.External.{External}
use pangolin_gateway_api.Config.{Config, ExtAuthzConfig}
use pangolin_gateway_api.Pangolin.Types.{TraefikDynamicConfig, HttpConfig, Router}
use pangolin_gateway_api.Transform.Desired.{Desired, stock}
use pangolin_gateway_api.Transform.Rule.{ParsedRule, is_usable, parse}
use pangolin_gateway_api.Transform.Middleware.{requires_badger_auth}
use pangolin_gateway_api.Transform.Backend.{BackendIndex}
use pangolin_gateway_api.Transform.Backend.Emit.{ResolvedBackend}
use pangolin_gateway_api.Transform.Route.{
  RouteIndex, route_name, protect, is_refused, emit_route, build_route, build_route_list,
  build_routes,
}

module _ (x : External) (cfg : Config) where
  open x use {Value}

  protect-stock :
      (protected : Bool) (ea : Option ExtAuthzConfig) (name : Text) (desired : Desired)
      → stock (protect x cfg protected ea name desired) ≡ stock desired
  unfolding protect
  protect-stock true (some ea) name desired = refl
  protect-stock true none name desired = refl
  protect-stock false ea name desired = refl

  emit_route-stock :
      (http : HttpConfig Value) (name : Text) (router : Router) (parsed : ParsedRule)
      (protected : Bool) (found : Option ResolvedBackend) (acc : RouteIndex × Desired)
      → stock (emit_route x cfg http name router parsed protected found acc).1 ≡ stock acc.1
  unfolding emit_route
  emit_route-stock http name router parsed protected none acc = refl
  emit_route-stock http name router parsed protected (some b) (index, desired) =
      protect-stock protected cfg.ext_authz (route_name x cfg name) desired

  build_route-stock :
      (http : HttpConfig Value) (backends : BackendIndex) (name : Text) (router : Router)
      (acc : RouteIndex × Desired)
      → stock (build_route x cfg http backends name router acc).1 ≡ stock acc.1
  unfolding build_route
  build_route-stock http backends name router acc =
      let parsed = parse router.rule in
      let protected = requires_badger_auth x router.middlewares http.middlewares in
      elim (Bool-cases (is_usable parsed && not (is_refused x cfg protected))) [
        | inl e ↦
            rw e
              (emit_route-stock http name router parsed protected (get router.service backends) acc)
        | inr e ↦ rw e refl
      ]

  build_route_list-stock :
      (http : HttpConfig Value) (backends : BackendIndex) (routers : List (Text × Router))
      (acc : RouteIndex × Desired)
      → stock (build_route_list x cfg http backends routers acc).1 ≡ stock acc.1
  unfolding build_route_list
  build_route_list-stock http backends [] acc = refl
  build_route_list-stock http backends ((name, router) ∷ routers) acc =
      build_route_list-stock http backends routers (build_route x cfg http backends name router acc)
      ∙ build_route-stock http backends name router acc

  pub build_routes-stock :
      (dyn_config : TraefikDynamicConfig Value) (backends : BackendIndex) (desired : Desired)
      → stock (build_routes x cfg dyn_config backends desired).1 ≡ stock desired
  unfolding build_routes
  build_routes-stock dyn_config backends desired =
      build_route_list-stock dyn_config.http backends dyn_config.http.routers
        (record { hostnames = []; https_hosts = [] }, desired)
