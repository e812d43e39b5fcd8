-- ===== src/Transform/Build/Tests.antt =====
-- mod.rs: the theorems at a concrete input.
use pangolin_gateway_api.Prelude.{All, ◌≡◌, [], ◌∷◌, codes, some, Text, ◌≟◌, refl, length, some}
use pangolin_gateway_api.BTreeMap.{compare_text}
use pangolin_gateway_api.Config.{Config}
use pangolin_gateway_api.Config.Sample.{parsers, insecure, defaults, reads_defaults}
use pangolin_gateway_api.Config.FromEnv.Guards.{IsTruthy}
use pangolin_gateway_api.Pangolin.Types.{TraefikDynamicConfig}
use pangolin_gateway_api.Sample.{
  Json, router, library, settings, authz, dynamic_config, http_config,
}
use pangolin_gateway_api.Transform.Route.Protection.{Origin}
use pangolin_gateway_api.Transform.Route.Hosts.{hosts_of}
use pangolin_gateway_api.Transform.Listener.Coverage.{HasHttpListener}
use pangolin_gateway_api.Transform.Build.{build_desired}
use pangolin_gateway_api.BTreeMap.{get, text_ord}
use pangolin_gateway_api.Prelude.{true, inl, pos, none}
use pangolin_gateway_api.Transform.Rule.{is_usable, parse}
use pangolin_gateway_api.Transform.Middleware.{requires_badger_auth}
use pangolin_gateway_api.Transform.Backend.{build_backends}
use pangolin_gateway_api.Transform.Backend.Emit.{ResolvedBackend}
use pangolin_gateway_api.Transform.Route.Policies.{IsCovered, IsEmitted}
use pangolin_gateway_api.Transform.Build.Whole.{
  build_desired-IsCovered, backends_of, build_desired-Origin, build_desired-HasHttpListener,
}
use pangolin_gateway_api.Transform.Build.Secure.{IsOpen, from_env-IsOpen}

-- The settings with an authorization service.
abbrev guarded : Config
guarded = record settings { ext_authz = some authz }

one_route : length (build_desired library guarded dynamic_config).http_routes ≡ 1
unfolding build_desired compare_text
one_route = refl

build_desired-Origin_example :
    All
      (Origin library guarded http_config
        (backends_of library guarded dynamic_config).0
        http_config.routers)
      (build_desired library guarded dynamic_config).http_routes
build_desired-Origin_example = build_desired-Origin library guarded dynamic_config

build_desired-HasHttpListener_example :
    All
      (λ b.
        All
          (HasHttpListener library guarded (build_desired library guarded dynamic_config))
          (hosts_of b.1))
      (build_desired library guarded dynamic_config).http_routes
build_desired-HasHttpListener_example = build_desired-HasHttpListener library guarded dynamic_config

-- The router of the sample, and one that nothing protects.
abbrev with_open : TraefikDynamicConfig Json
with_open = record dynamic_config {
  http = record http_config {
    routers = (codes "web", router) ∷ (codes "site", record router { middlewares = [] }) ∷ [];
  };
}

publishes_open : length (build_desired library defaults with_open).http_routes ≡ 1
unfolding build_desired compare_text
publishes_open = refl

from_env-IsOpen_example :
    All
      (IsOpen library defaults with_open.http)
      (build_desired library defaults with_open).http_routes
unfolding ◌≟◌
from_env-IsOpen_example =
    from_env-IsOpen library defaults parsers insecure with_open reads_defaults refl not_asked
  where
    not_asked : IsTruthy insecure (codes "CONFIG_ALLOW_UNAUTHENTICATED_ROUTES") → ⊥
    not_asked t = impossible t.value t.set
      where
        impossible :
            (v : Text) → insecure (codes "CONFIG_ALLOW_UNAUTHENTICATED_ROUTES") ≡ some v → ⊥
        impossible v e = cc

router_is_usable : is_usable (parse router.rule) ≡ true
unfolding is_usable parse
router_is_usable = refl

router_is_protected : requires_badger_auth library router.middlewares http_config.middlewares ≡ true
unfolding requires_badger_auth get
router_is_protected = refl

-- The backend of the router's service.
abbrev app_backend : ResolvedBackend
app_backend = record {
  group = codes "gateway.envoyproxy.io";
  kind = codes "Backend";
  name = codes "be-app";
  namespace = none;
  port = pos 80;
}

service_is_resolved :
    get router.service (backends_of library guarded dynamic_config).0 ≡ some app_backend
unfolding get build_backends compare_text
service_is_resolved = refl

router-IsEmitted :
    IsEmitted library guarded authz http_config
      (backends_of library guarded dynamic_config).0
      router
router-IsEmitted = record {
  usable = router_is_usable;
  protected = router_is_protected;
  backend = app_backend;
  resolved = service_is_resolved;
}

build_desired-IsCovered_example :
    IsCovered library guarded authz (codes "web") (build_desired library guarded dynamic_config)
build_desired-IsCovered_example =
    build_desired-IsCovered library guarded dynamic_config authz (codes "web") router refl
      (inl refl) ((λ e. refl), tt) router-IsEmitted
