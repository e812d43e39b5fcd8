-- ===== src/Transform/Build/Secure.antt =====
-- config.rs and mod.rs together: what an environment that leaves authorization alone publishes.
use pangolin_gateway_api.Prelude.{
  ◌≡◌, refl, ◌∙◌, ◌⊎◌, inl, inr, Bool, true, false, none, All, All-map, IsIn, Text, codes, is_some,
}
use pangolin_gateway_api.External.{External}
use pangolin_gateway_api.Config.{Config}
use pangolin_gateway_api.Config.Env.{Env, Parsers, ok, optional_env}
use pangolin_gateway_api.Config.FromEnv.{from_env}
use pangolin_gateway_api.Config.FromEnv.Guards.{IsTruthy, from_env-IsPermitted}
use pangolin_gateway_api.Pangolin.Types.{TraefikDynamicConfig, HttpConfig, Router}
use pangolin_gateway_api.Kube.HttpRoute.{HttpRoute}
use pangolin_gateway_api.Transform.Middleware.{requires_badger_auth}
use pangolin_gateway_api.Transform.Route.{route_name}
use pangolin_gateway_api.Transform.Route.Protection.{Origin}
use pangolin_gateway_api.Transform.Build.{build_desired}
use pangolin_gateway_api.Transform.Build.Whole.{backends_of, build_desired-Origin}

module _ (x : External) (cfg : Config) where
  open x use {Value}

  -- A route of a router that nothing protects.
  pub record IsOpen (http : HttpConfig Value) (binding : Text × HttpRoute) : Type 0 where
    pub name : Text
    pub router : Router
    pub listed : IsIn (name, router) http.routers
    pub key : binding.0 ≡ route_name x cfg name
    pub not_protected : requires_badger_auth x router.middlewares http.middlewares ≡ false

  -- Where the environment names no authorization service and does not ask for unauthenticated routes,
  -- every route that the settings read from it publish comes from a router without badger's protection.
  pub from_env-IsOpen :
      (p : Parsers) (env : Env) (dyn_config : TraefikDynamicConfig Value)
      → from_env p env ≡ ok cfg
      → optional_env env (codes "CONFIG_EXT_AUTHZ_SERVICE") ≡ none
      → (IsTruthy env (codes "CONFIG_ALLOW_UNAUTHENTICATED_ROUTES") → ⊥)
      → All (IsOpen dyn_config.http) (build_desired x cfg dyn_config).http_routes
  from_env-IsOpen p env dyn_config h no_service not_asked =
      let permitted = from_env-IsPermitted p env cfg h in
      let no_authz : is_some cfg.ext_authz ≡ false = permitted.ext_authz ∙ rw no_service refl in
      All-map
        (λ b
            (o : Origin x cfg dyn_config.http (backends_of x cfg dyn_config).0
              dyn_config.http.routers b).
          record {
            name = o.name;
            router = o.router;
            listed = o.listed;
            key = o.key;
            not_protected = unprotected permitted.unauthenticated no_authz o.allowed;
          })
        (build_desired x cfg dyn_config).http_routes (build_desired-Origin x cfg dyn_config)
    where
      unprotected :
          {protected : Bool}
          → (cfg.allow_unauthenticated_routes ≡ false)
            ⊎ IsTruthy env (codes "CONFIG_ALLOW_UNAUTHENTICATED_ROUTES")
          → is_some cfg.ext_authz ≡ false
          → (protected ≡ false)
            ⊎ (is_some cfg.ext_authz ≡ true)
            ⊎ (cfg.allow_unauthenticated_routes ≡ true)
          → protected ≡ false
      unprotected a b (inl e) = e
      unprotected a b (inr (inl e)) = cc
      unprotected (inl a) b (inr (inr e)) = cc
      unprotected (inr a) b (inr (inr e)) = absurd (not_asked a)
