-- ===== src/Transform/Route/Policies.antt =====
-- route.rs and ext_authz.rs: a protected router that is emitted has its SecurityPolicy.
use pangolin_gateway_api.Prelude.{
  ◌≡◌, refl, sym, ap, subst, ◌∙◌, Bool, true, false, not, ◌&&◌, List, [], ◌∷◌, Option, none, some,
  Text, codes, inl, inr, Bool-cases, All, IsIn, ◌≟◌, ≟_iff,
}
use pangolin_gateway_api.BTreeMap.{text_ord, get, insert}
use pangolin_gateway_api.BTreeMap.Laws.{get-insert_self, get-insert_ne}
use pangolin_gateway_api.External.{External}
use pangolin_gateway_api.Config.{Config, ExtAuthzConfig}
use pangolin_gateway_api.Pangolin.Types.{TraefikDynamicConfig, HttpConfig, Router}
use pangolin_gateway_api.Transform.Desired.{Desired}
use pangolin_gateway_api.Transform.Naming.{prefixed_label}
use pangolin_gateway_api.Transform.Rule.{ParsedRule, is_usable, parse}
use pangolin_gateway_api.Transform.Middleware.{requires_badger_auth}
use pangolin_gateway_api.Transform.Backend.{BackendIndex}
use pangolin_gateway_api.Transform.Backend.Emit.{ResolvedBackend}
use pangolin_gateway_api.Transform.ExtAuthz.{build_security_policy}
use pangolin_gateway_api.Transform.Route.{
  RouteIndex, route_name, protect, is_refused, emit_route, build_route, build_route_list,
  build_routes,
}

module _ (x : External) (cfg : Config) (ea : ExtAuthzConfig) where
  open x use {Value, hash}

  -- The name of the policy of a router.
  abbrev pub policy_key : Text → Text
  policy_key name = prefixed_label hash (codes "sp") (route_name x cfg name)

  -- The map holds the policy of the router, which targets the router's HTTPRoute.
  abbrev pub IsCovered : Text → Desired → Type 0
  IsCovered name desired =
      get (policy_key name) desired.security_policies
      ≡ some (build_security_policy hash cfg ea (route_name x cfg name))

  -- Two routers with one policy name have one route name.
  abbrev pub Agrees : Text → Text × Router → Type 0
  Agrees name other =
      policy_key other.0 ≡ policy_key name → route_name x cfg other.0 ≡ route_name x cfg name

  insert-IsCovered :
      (name other : Text) (desired : Desired)
      → (policy_key other ≡ policy_key name → route_name x cfg other ≡ route_name x cfg name)
      → IsCovered name desired
      → IsCovered name (protect x cfg true (some ea) (route_name x cfg other) desired)
  unfolding protect
  insert-IsCovered name other desired agrees h =
      elim (Bool-cases (policy_key other ≟ policy_key name)) [
        | inl e ↦
            let key = (≟_iff (policy_key other) (policy_key name)).0 e in
            subst
              (λ k.
                get (policy_key name) (
                  insert k (build_security_policy hash cfg ea (route_name x cfg other))
                    desired.security_policies)
                ≡ some (build_security_policy hash cfg ea (route_name x cfg name)))
              (sym key)
              (get-insert_self (policy_key name) _ desired.security_policies
                ∙ ap (λ n. some (build_security_policy hash cfg ea n)) (agrees key))
        | inr e ↦
            get-insert_ne (policy_key other) (policy_key name) _ desired.security_policies
              (λ q. cc (e, (≟_iff (policy_key other) (policy_key name)).1 (sym q)))
            ∙ h
      ]

  protect-IsCovered :
      (protected : Bool) (found : Option ExtAuthzConfig) (name other : Text) (desired : Desired)
      → found ≡ some ea
      → (policy_key other ≡ policy_key name → route_name x cfg other ≡ route_name x cfg name)
      → IsCovered name desired
      → IsCovered name (protect x cfg protected found (route_name x cfg other) desired)
  protect-IsCovered true (some ea') name other desired e agrees h =
      let same : ea' ≡ ea = cc in rw same (insert-IsCovered name other desired agrees h)
  protect-IsCovered true none name other desired e agrees h = cc
  protect-IsCovered false found name other desired e agrees h = unfold protect in h

  protect_covers :
      (found : Option ExtAuthzConfig) (name : Text) (desired : Desired)
      → found ≡ some ea
      → IsCovered name (protect x cfg true found (route_name x cfg name) desired)
  unfolding protect
  protect_covers none name desired e = cc
  protect_covers (some ea') name desired e =
      let same : ea' ≡ ea = cc in
      rw same (get-insert_self (policy_key name) _ desired.security_policies)

  -- A protected router that the loop emits.
  pub record IsEmitted (http : HttpConfig Value) (backends : BackendIndex) (router : Router)
      : Type 0 where
    pub usable : is_usable (parse router.rule) ≡ true
    pub protected : requires_badger_auth x router.middlewares http.middlewares ≡ true
    pub backend : ResolvedBackend
    pub resolved : get router.service backends ≡ some backend

  module _ (http : HttpConfig Value) (backends : BackendIndex) (e : cfg.ext_authz ≡ some ea) where
    emit_route-IsCovered :
        (name other : Text) (router : Router) (parsed : ParsedRule) (protected : Bool)
        (found : Option ResolvedBackend) (acc : RouteIndex × Desired)
        → Agrees name (other, router)
        → IsCovered name acc.1
        → IsCovered name (emit_route x cfg http other router parsed protected found acc).1
    unfolding emit_route
    emit_route-IsCovered name other router parsed protected none acc agrees h = h
    emit_route-IsCovered name other router parsed protected (some b) (index, desired) agrees h =
        protect-IsCovered protected cfg.ext_authz name other desired e agrees h

    build_route-IsCovered :
        (name other : Text) (router : Router) (acc : RouteIndex × Desired)
        → Agrees name (other, router)
        → IsCovered name acc.1
        → IsCovered name (build_route x cfg http backends other router acc).1
    build_route-IsCovered name other router acc agrees h =
        let refused =
          is_refused x cfg (requires_badger_auth x router.middlewares http.middlewares) in
        elim (Bool-cases (is_usable (parse router.rule) && not refused)) [
          | inl t ↦
              unfold build_route in
              rw t (
                emit_route-IsCovered name other router (parse router.rule)
                  (requires_badger_auth x router.middlewares http.middlewares)
                  (get router.service backends) acc agrees h)
          | inr t ↦ unfold build_route in rw t h
        ]

    build_route_list-IsCovered :
        (name : Text) (routers : List (Text × Router)) (acc : RouteIndex × Desired)
        → All (Agrees name) routers
        → IsCovered name acc.1
        → IsCovered name (build_route_list x cfg http backends routers acc).1
    unfolding build_route_list
    build_route_list-IsCovered name [] acc agrees h = h
    build_route_list-IsCovered name ((other, router) ∷ routers) acc (a, agrees) h =
        build_route_list-IsCovered name routers (build_route x cfg http backends other router acc)
          agrees (build_route-IsCovered name other router acc a h)

    build_route_covers :
        (name : Text) (router : Router) (acc : RouteIndex × Desired)
        → IsEmitted http backends router
        → IsCovered name (build_route x cfg http backends name router acc).1
    unfolding build_route emit_route
    build_route_covers name router acc i =
        rw (i.usable, i.protected, i.resolved, e) (protect_covers (some ea) name acc.1 refl)

    build_route_list_covers :
        (name : Text) (router : Router) (routers : List (Text × Router))
        (acc : RouteIndex × Desired)
        → IsIn (name, router) routers
        → All (Agrees name) routers
        → IsEmitted http backends router
        → IsCovered name (build_route_list x cfg http backends routers acc).1
    unfolding build_route_list
    build_route_list_covers name router [] acc m agrees i = absurd m
    build_route_list_covers name router ((other, r) ∷ routers) acc (inl p) (a, agrees) i =
        build_route_list-IsCovered name routers (build_route x cfg http backends other r acc) agrees
          (subst
            (λ (q : Text × Router). IsCovered name (build_route x cfg http backends q.0 q.1 acc).1)
            p (build_route_covers name router acc i))
    build_route_list_covers name router ((other, r) ∷ routers) acc (inr m) (a, agrees) i =
        build_route_list_covers name router routers (build_route x cfg http backends other r acc) m
          agrees i

  -- With an authorization service configured, every protected router that is emitted has, under its
  -- policy's name, the SecurityPolicy that targets its HTTPRoute, whatever routers stand before and
  -- behind it; no other router's policy may have the same name for another route (names that do not
  -- reach the 63 characters have no hash).
  pub build_routes-IsCovered :
      (dyn_config : TraefikDynamicConfig Value) (backends : BackendIndex) (desired : Desired)
      (name : Text) (router : Router)
      → cfg.ext_authz ≡ some ea
      → IsIn (name, router) dyn_config.http.routers
      → All (Agrees name) dyn_config.http.routers
      → IsEmitted dyn_config.http backends router
      → IsCovered name (build_routes x cfg dyn_config backends desired).1
  unfolding build_routes
  build_routes-IsCovered dyn_config backends desired name router e m agrees i =
      build_route_list_covers dyn_config.http backends e name router dyn_config.http.routers
        (record { hostnames = []; https_hosts = [] }, desired) m agrees i
