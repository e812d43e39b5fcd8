-- ===== src/Transform/Route/Protection.antt =====
-- route.rs: where an HTTPRoute comes from, and which SecurityPolicy covers it.
use pangolin_gateway_api.Prelude.{
  ◌≡◌, refl, sym, Bool, true, false, not, ◌&&◌, List, [], ◌∷◌, Option, none, some, arith, Text, inl,
  inr, Bool-cases, All, IsIn, All-IsIn_self, subst, ◌⊎◌, is_some, is_none,
}
use pangolin_gateway_api.BTreeMap.{text_ord, get}
use pangolin_gateway_api.BTreeMap.Laws.{All-insert}
use pangolin_gateway_api.External.{External}
use pangolin_gateway_api.Config.{Config, ExtAuthzConfig}
use pangolin_gateway_api.Pangolin.Types.{TraefikDynamicConfig, HttpConfig, Router}
use pangolin_gateway_api.Kube.HttpRoute.{HttpRoute}
use pangolin_gateway_api.Transform.Desired.{Desired}
use pangolin_gateway_api.Transform.Rule.{is_usable, parse}
use pangolin_gateway_api.Transform.Middleware.{requires_badger_auth, build_filters}
use pangolin_gateway_api.Transform.Backend.{BackendIndex}
use pangolin_gateway_api.Transform.Backend.Emit.{ResolvedBackend}
use pangolin_gateway_api.Transform.Route.{
  RouteIndex, route_name, build_http_route, protect, is_refused, emit_route, build_route,
  build_route_list, build_routes,
}

not_refused :
    (protected : Bool) (ea : Option ExtAuthzConfig) (allow : Bool)
    → (protected && is_none ea && not allow) ≡ false
    → (protected ≡ false) ⊎ (is_some ea ≡ true) ⊎ (allow ≡ true)
not_refused false ea allow h = inl refl
not_refused true none allow h = inr (inr (ground arith))
not_refused true (some ea) allow h = inr (inl refl)

module _ (x : External) (cfg : Config) where
  open x use {Value, hash}

  -- A binding of `http_routes` and the router that it was built from.
  pub record Origin (http : HttpConfig Value) (backends : BackendIndex)
      (routers : List (Text × Router)) (binding : Text × HttpRoute) : Type 0 where
    pub name : Text
    pub router : Router
    pub backend : ResolvedBackend
    pub listed : IsIn (name, router) routers
    pub usable : is_usable (parse router.rule) ≡ true
    pub allowed :
        (requires_badger_auth x router.middlewares http.middlewares ≡ false)
        ⊎ (is_some cfg.ext_authz ≡ true)
        ⊎ (cfg.allow_unauthenticated_routes ≡ true)
    pub resolved : get router.service backends ≡ some backend
    pub key : binding.0 ≡ route_name x cfg name
    pub built :
        binding.1
        ≡ build_http_route x cfg name
            (parse router.rule)
            (build_filters x router.middlewares http.middlewares)
            backend

  pub protect-http_routes :
      (protected : Bool) (ea : Option ExtAuthzConfig) (name : Text) (desired : Desired)
      → (protect x cfg protected ea name desired).http_routes ≡ desired.http_routes
  unfolding protect
  protect-http_routes true (some ea) name desired = refl
  protect-http_routes true none name desired = refl
  protect-http_routes false ea name desired = refl

  module _ (http : HttpConfig Value) (backends : BackendIndex) (all : List (Text × Router)) where
    -- Every route has its origin among `all`.
    abbrev HasOrigins : RouteIndex × Desired → Type 0
    HasOrigins acc = All (Origin http backends all) acc.1.http_routes

    emit_route-HasOrigins :
        (name : Text) (router : Router) (acc : RouteIndex × Desired)
        → IsIn (name, router) all
        → is_usable (parse router.rule) ≡ true
        → is_refused x cfg (requires_badger_auth x router.middlewares http.middlewares) ≡ false
        → (found : Option ResolvedBackend) → get router.service backends ≡ found
        → HasOrigins acc
        → HasOrigins (
            emit_route x cfg http name router
              (parse router.rule)
              (requires_badger_auth x router.middlewares http.middlewares)
              found
              acc)
    unfolding emit_route
    emit_route-HasOrigins name router acc listed usable allowed none e h = h
    emit_route-HasOrigins name router (index, desired) listed usable kept (some backend) e h =
        All-insert (Origin http backends all) (route_name x cfg name) _ _
          (record {
            name = name;
            router = router;
            backend = backend;
            listed = listed;
            usable = usable;
            allowed =
                not_refused (requires_badger_auth x router.middlewares http.middlewares)
                  cfg.ext_authz cfg.allow_unauthenticated_routes kept;
            resolved = e;
            key = refl;
            built = refl;
          })
          (subst (All (Origin http backends all))
            (sym (protect-http_routes _ cfg.ext_authz _ desired)) h)

    build_route-HasOrigins :
        (name : Text) (router : Router) (acc : RouteIndex × Desired)
        → IsIn (name, router) all
        → HasOrigins acc
        → HasOrigins (build_route x cfg http backends name router acc)
    build_route-HasOrigins name router acc listed h =
        let refused =
          is_refused x cfg (requires_badger_auth x router.middlewares http.middlewares) in
        elim (Bool-cases (is_usable (parse router.rule) && not refused)) [
          | inl e ↦
              unfold build_route in
              rw e (
                emit_route-HasOrigins name router acc listed (ground arith) (ground arith)
                  (get router.service backends) refl h)
          | inr e ↦ unfold build_route in rw e h
        ]

    build_route_list-HasOrigins :
        (routers : List (Text × Router)) (acc : RouteIndex × Desired)
        → All (λ r. IsIn r all) routers
        → HasOrigins acc
        → HasOrigins (build_route_list x cfg http backends routers acc)
    unfolding build_route_list
    build_route_list-HasOrigins [] acc m h = h
    build_route_list-HasOrigins ((name, router) ∷ routers) acc (i, m) h =
        build_route_list-HasOrigins routers (build_route x cfg http backends name router acc) m
          (build_route-HasOrigins name router acc i h)

  -- From no routes, every HTTPRoute that `build_routes` wants comes from a listed router whose rule is
  -- usable, whose service resolves, and which is not protected unless an authorization service is
  -- configured or unauthenticated routes are allowed; it has that router's name and content.
  pub build_routes-Origin :
      (dyn_config : TraefikDynamicConfig Value) (backends : BackendIndex) (desired : Desired)
      → desired.http_routes ≡ []
      → All
          (Origin dyn_config.http backends dyn_config.http.routers)
          (build_routes x cfg dyn_config backends desired).1.http_routes
  unfolding build_routes
  build_routes-Origin dyn_config backends desired e =
      build_route_list-HasOrigins dyn_config.http backends dyn_config.http.routers
        dyn_config.http.routers (record { hostnames = []; https_hosts = [] }, desired)
        (All-IsIn_self dyn_config.http.routers) (rw (e, All) tt)
