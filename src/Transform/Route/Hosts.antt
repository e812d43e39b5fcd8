-- ===== src/Transform/Route/Hosts.antt =====
-- route.rs: the index of a run holds the hostnames of its routes.
use pangolin_gateway_api.Prelude.{
  ◌≡◌, sym, subst, ◌∙◌, Bool, not, ◌&&◌, List, [], ◌∷◌, Option, none, some, All, All-map,
  Bool-cases, inl, inr, ◌≟◌, ≟_iff, Text,
}
use pangolin_gateway_api.BTreeMap.{BTreeSet, text_ord, get, insert}
use pangolin_gateway_api.BTreeMap.Laws.{All-insert, get-insert_self, get-insert_ne}
use pangolin_gateway_api.External.{External}
use pangolin_gateway_api.Config.{Config}
use pangolin_gateway_api.Pangolin.Types.{TraefikDynamicConfig, HttpConfig, Router}
use pangolin_gateway_api.Kube.HttpRoute.{HttpRoute}
use pangolin_gateway_api.Transform.Desired.{Desired}
use pangolin_gateway_api.Transform.Rule.{ParsedRule, is_usable, parse}
use pangolin_gateway_api.Transform.Middleware.{requires_badger_auth}
use pangolin_gateway_api.Transform.Backend.{BackendIndex}
use pangolin_gateway_api.Transform.Backend.Emit.{ResolvedBackend}
use pangolin_gateway_api.Transform.Route.{
  RouteIndex, wants_https, index_hosts, route_name, build_http_route, is_refused, emit_route,
  build_route, build_route_list, build_routes,
}
use pangolin_gateway_api.Transform.Route.Protection.{protect-http_routes}

abbrev pub IsMember : BTreeSet Text → Text → Type 0
IsMember m h = get h m ≡ some tt

insert-IsMember : (k h : Text) (m : BTreeSet Text) → IsMember m h → IsMember (insert k tt m) h
insert-IsMember k h m e = elim (Bool-cases (h ≟ k)) [
  | inl t ↦ subst (λ j. get h (insert j tt m) ≡ some tt) ((≟_iff h k).0 t) (get-insert_self h tt m)
  | inr t ↦ get-insert_ne k h tt m (λ q. cc (t, (≟_iff h k).1 q)) ∙ e
]

index_hosts-IsMember :
    (https : Bool) (hosts : List Text) (index : RouteIndex) (h : Text)
    → IsMember index.hostnames h
    → IsMember (index_hosts https hosts index).hostnames h
unfolding index_hosts
index_hosts-IsMember https [] index h e = e
index_hosts-IsMember https (k ∷ hosts) index h e =
    index_hosts-IsMember https hosts _ h (insert-IsMember k h index.hostnames e)

index_hosts_covers :
    (https : Bool) (hosts : List Text) (index : RouteIndex)
    → All (IsMember (index_hosts https hosts index).hostnames) hosts
unfolding index_hosts
index_hosts_covers https [] index = tt
index_hosts_covers https (k ∷ hosts) index = (
  index_hosts-IsMember https hosts _ k (get-insert_self k tt index.hostnames),
  index_hosts_covers https hosts _,
)

-- The hostnames of a route.
abbrev pub hosts_of : HttpRoute → List Text
hosts_of route = elim route.spec.hostnames [ none ↦ [] | some hosts ↦ hosts ]

-- The index holds the hostnames of the route.
abbrev pub IsIndexed : RouteIndex → Text × HttpRoute → Type 0
IsIndexed index b = All (IsMember index.hostnames) (hosts_of b.1)

abbrev pub AreIndexed : RouteIndex × Desired → Type 0
AreIndexed acc = All (IsIndexed acc.0) acc.1.http_routes

module _ (x : External) (cfg : Config) where
  open x use {Value, hash}

  module _ (http : HttpConfig Value) (backends : BackendIndex) where
    emit_route-AreIndexed :
        (name : Text) (router : Router) (parsed : ParsedRule) (protected : Bool)
        (found : Option ResolvedBackend) (acc : RouteIndex × Desired)
        → AreIndexed acc
        → AreIndexed (emit_route x cfg http name router parsed protected found acc)
    unfolding emit_route
    emit_route-AreIndexed name router parsed protected none acc h = h
    emit_route-AreIndexed name router parsed protected (some backend) (index, desired) h =
        let index' = index_hosts (wants_https cfg router) parsed.hosts index in
        All-insert (IsIndexed index') (route_name x cfg name) _ _
          (unfold build_http_route in
            index_hosts_covers (wants_https cfg router) parsed.hosts index)
          (subst (All (IsIndexed index'))
            (sym (protect-http_routes x cfg protected cfg.ext_authz _ desired))
            (All-map
              (λ b i.
                All-map (index_hosts-IsMember (wants_https cfg router) parsed.hosts index)
                  (hosts_of b.1) i)
              desired.http_routes h))

    build_route-AreIndexed :
        (name : Text) (router : Router) (acc : RouteIndex × Desired)
        → AreIndexed acc
        → AreIndexed (build_route x cfg http backends name router acc)
    build_route-AreIndexed name router acc h =
        let refused =
          is_refused x cfg (requires_badger_auth x router.middlewares http.middlewares) in
        elim (Bool-cases (is_usable (parse router.rule) && not refused)) [
          | inl e ↦
              unfold build_route in
              rw e (
                emit_route-AreIndexed name router (parse router.rule)
                  (requires_badger_auth x router.middlewares http.middlewares)
                  (get router.service backends) acc h)
          | inr e ↦ unfold build_route in rw e h
        ]

    build_route_list-AreIndexed :
        (routers : List (Text × Router)) (acc : RouteIndex × Desired)
        → AreIndexed acc
        → AreIndexed (build_route_list x cfg http backends routers acc)
    unfolding build_route_list
    build_route_list-AreIndexed [] acc h = h
    build_route_list-AreIndexed ((name, router) ∷ routers) acc h =
        build_route_list-AreIndexed routers (build_route x cfg http backends name router acc)
          (build_route-AreIndexed name router acc h)

  -- From no routes, the index holds the hostnames of every route.
  pub build_routes-AreIndexed :
      (dyn_config : TraefikDynamicConfig Value) (backends : BackendIndex) (desired : Desired)
      → desired.http_routes ≡ []
      → AreIndexed (build_routes x cfg dyn_config backends desired)
  unfolding build_routes
  build_routes-AreIndexed dyn_config backends desired e =
      build_route_list-AreIndexed dyn_config.http backends dyn_config.http.routers
        (record { hostnames = []; https_hosts = [] }, desired) (rw (e, All) tt)
