-- ===== src/Transform/Build/Whole.antt =====
-- mod.rs: what the properties of the parts say of the whole translation.
use pangolin_gateway_api.Prelude.{
  ◌≡◌, refl, sym, ap, subst, IsIn, Text, ◌∙◌, Bool, true, false, List, [], ◌++◌, Option, none, some,
  All,
}
use pangolin_gateway_api.External.{External}
use pangolin_gateway_api.Config.{Config}
use pangolin_gateway_api.Pangolin.Types.{TraefikDynamicConfig, L4Config}
use pangolin_gateway_api.Kube.Objects.{Listener}
use pangolin_gateway_api.Transform.Desired.{Desired, nothing_desired, routing}
use pangolin_gateway_api.Transform.Protocol.{L4Protocol}
use pangolin_gateway_api.Transform.Backend.{BackendIndex, build_backends}
use pangolin_gateway_api.Transform.Backend.Routes.{build_backends-routing}
use pangolin_gateway_api.Transform.L4.Routes.{build_l4-routing}
use pangolin_gateway_api.Transform.Route.{RouteIndex, build_routes}
use pangolin_gateway_api.Transform.Route.Protection.{Origin, build_routes-Origin}
use pangolin_gateway_api.BTreeMap.{BTreeMap, text_ord, get}
use pangolin_gateway_api.Kube.HttpRoute.{HttpRoute}
use pangolin_gateway_api.Kube.Objects.{SecurityPolicy}
use pangolin_gateway_api.Pangolin.Types.{Router}
use pangolin_gateway_api.Config.{ExtAuthzConfig}
use pangolin_gateway_api.Transform.ExtAuthz.{build_security_policy}
use pangolin_gateway_api.Transform.Route.{route_name}
use pangolin_gateway_api.Transform.Route.Policies.{
  policy_key, IsCovered, Agrees, IsEmitted, build_routes-IsCovered,
}
use pangolin_gateway_api.Transform.Route.Hosts.{hosts_of}
use pangolin_gateway_api.Transform.Listener.{build_listener_set}
use pangolin_gateway_api.Transform.Listener.Coverage.{HasHttpListener, build_routes-HasHttpListener}
use pangolin_gateway_api.Transform.Build.{build_l4_family, build_desired}

module _ (x : External) (cfg : Config) where
  open x use {Value, hash}

  build_l4_family-routing :
      (block : Option (L4Config Value)) (proto : L4Protocol) (enabled : Bool) (desired : Desired)
      → routing (build_l4_family x cfg block proto enabled desired).1 ≡ routing desired
  unfolding build_l4_family
  build_l4_family-routing none proto enabled desired = refl
  build_l4_family-routing (some block) proto false desired = refl
  build_l4_family-routing (some block) proto true desired =
      build_l4-routing x cfg proto block desired

  module _ (dyn_config : TraefikDynamicConfig Value) where
    -- The backends of the HTTP services, with the objects that stand for them.
    abbrev pub backends_of : BackendIndex × Desired
    backends_of =
        build_backends x cfg dyn_config.http.services dyn_config.http.servers_transports
          nothing_desired

    -- The index of hosts, with the objects so far.
    abbrev pub routes_of : RouteIndex × Desired
    routes_of = build_routes x cfg dyn_config backends_of.0 backends_of.1

    abbrev pub tcp_of : List Listener × Desired
    tcp_of = build_l4_family x cfg dyn_config.tcp L4Protocol.tcp cfg.enable_tcp_routes routes_of.1

    abbrev pub udp_of : List Listener × Desired
    udp_of = build_l4_family x cfg dyn_config.udp L4Protocol.udp cfg.enable_udp_routes tcp_of.1

    no_routes : backends_of.1.http_routes ≡ []
    no_routes =
        ap (λ (q : BTreeMap Text HttpRoute × BTreeMap Text SecurityPolicy). q.0)
          (build_backends-routing x cfg dyn_config.http.services dyn_config.http.servers_transports
            nothing_desired)

    build_desired-routing : routing (build_desired x cfg dyn_config) ≡ routing routes_of.1
    unfolding build_desired build_listener_set
    build_desired-routing =
        build_l4_family-routing dyn_config.udp L4Protocol.udp cfg.enable_udp_routes tcp_of.1
        ∙ build_l4_family-routing dyn_config.tcp L4Protocol.tcp cfg.enable_tcp_routes routes_of.1

    build_desired-http_routes :
        (build_desired x cfg dyn_config).http_routes ≡ routes_of.1.http_routes
    build_desired-http_routes =
        ap (λ (q : BTreeMap Text HttpRoute × BTreeMap Text SecurityPolicy). q.0)
          build_desired-routing

    -- Every HTTPRoute of the whole translation comes from a listed router whose rule is usable, whose
    -- service is among the backends that were built, and which is not protected unless an
    -- authorization service is configured or unauthenticated routes are allowed; it has that router's
    -- name and content.
    pub build_desired-Origin :
        All
          (Origin x cfg dyn_config.http backends_of.0 dyn_config.http.routers)
          (build_desired x cfg dyn_config).http_routes
    build_desired-Origin =
        subst (All (Origin x cfg dyn_config.http backends_of.0 dyn_config.http.routers))
          (sym build_desired-http_routes)
          (build_routes-Origin x cfg dyn_config backends_of.0 backends_of.1 no_routes)

    -- Every hostname of every HTTPRoute of the whole translation has its HTTP listener in the ListenerSet
    -- of the translation.
    pub build_desired-HasHttpListener :
        All
          (λ b. All (HasHttpListener x cfg (build_desired x cfg dyn_config)) (hosts_of b.1))
          (build_desired x cfg dyn_config).http_routes
    unfolding build_desired
    build_desired-HasHttpListener =
        subst
          (All (λ b. All (HasHttpListener x cfg (build_desired x cfg dyn_config)) (hosts_of b.1)))
          (sym build_desired-http_routes)
          (build_routes-HasHttpListener x cfg dyn_config backends_of.0 backends_of.1 udp_of.1
            (tcp_of.0 ++ udp_of.0) no_routes)

    -- With an authorization service configured, the whole translation holds, for every protected router
    -- whose rule is usable and whose service has a backend, the SecurityPolicy that targets its
    -- HTTPRoute, under its policy's name; no other router's policy may have the same name for another
    -- route (names that do not reach the 63 characters have no hash).
    pub build_desired-IsCovered :
        (ea : ExtAuthzConfig) (name : Text) (router : Router)
        → cfg.ext_authz ≡ some ea
        → IsIn (name, router) dyn_config.http.routers
        → All (Agrees x cfg ea name) dyn_config.http.routers
        → IsEmitted x cfg ea dyn_config.http backends_of.0 router
        → IsCovered x cfg ea name (build_desired x cfg dyn_config)
    build_desired-IsCovered ea name router e m agrees i =
        subst
          (λ policies.
            get (policy_key x cfg ea name) policies
            ≡ some (build_security_policy hash cfg ea (route_name x cfg name)))
          (sym (
            ap (λ (q : BTreeMap Text HttpRoute × BTreeMap Text SecurityPolicy). q.1)
              build_desired-routing))
          (build_routes-IsCovered x cfg ea dyn_config backends_of.0 backends_of.1 name router e m
            agrees i)
