-- ===== src/Transform/Listener/Coverage.antt =====
-- route.rs and listener.rs: the listeners made for the hostnames of the routes.
use pangolin_gateway_api.Prelude.{
  ◌≡◌, sym, ap, subst, List, [], ◌∷◌, Option, none, some, map, All, All-map, IsIn, IsIn-append_left,
  Bool-cases, inl, inr, ◌≟◌, ≟_iff, Text, arith,
}
use pangolin_gateway_api.BTreeMap.{BTreeSet, text_ord, get, keys}
use pangolin_gateway_api.BTreeMap.Laws.{get-insert_self}
use pangolin_gateway_api.External.{External}
use pangolin_gateway_api.Config.{Config}
use pangolin_gateway_api.Pangolin.Types.{TraefikDynamicConfig}
use pangolin_gateway_api.Kube.Objects.{Listener, ListenerSet}
use pangolin_gateway_api.Transform.Desired.{Desired}
use pangolin_gateway_api.Transform.Backend.{BackendIndex}
use pangolin_gateway_api.Transform.Route.{RouteIndex, build_routes}
use pangolin_gateway_api.Transform.Route.Hosts.{IsMember, hosts_of, build_routes-AreIndexed}
use pangolin_gateway_api.Transform.Listener.{
  http_listener, host_listeners, listener_set_key, build_listener_set,
}

IsMember-IsIn : (m : BTreeSet Text) (h : Text) → IsMember m h → IsIn h (keys m)
unfolding get
IsMember-IsIn [] h e = cc
IsMember-IsIn ((k, v) ∷ m) h e = elim (Bool-cases (h ≟ k)) [
  | inl t ↦ inl ((≟_iff h k).0 t)
  | inr t ↦ inr (IsMember-IsIn m h (ground (arith, text_ord.cmp-eq_iff h k, ≟_iff h k)))
]

IsIn-map : {A B : Type 0} (f : A → B) (a : A) (as' : List A) → IsIn a as' → IsIn (f a) (map f as')
IsIn-map f a [] m = absurd m
IsIn-map f a (b ∷ bs) (inl e) = inl (ap f e)
IsIn-map f a (b ∷ bs) (inr m) = inr (IsIn-map f a bs m)

-- A ListenerSet that is there holds the listener.
abbrev pub Holds : Listener → Option ListenerSet → Type 0
Holds l none = ⊥
Holds l (some ls) = IsIn l ls.listeners

module _ (x : External) (cfg : Config) where
  open x use {Value, hash}

  -- The ListenerSet of the run has the HTTP listener of the hostname.
  abbrev pub HasHttpListener : Desired → Text → Type 0
  HasHttpListener desired host =
      Holds (http_listener hash cfg host) (get (listener_set_key hash cfg) desired.listener_sets)

  build_listener_set-HasHttpListener :
      (routes : RouteIndex) (l4_listeners : List Listener) (desired : Desired) (host : Text)
      → IsMember routes.hostnames host
      → HasHttpListener (build_listener_set hash cfg routes l4_listeners desired) host
  unfolding build_listener_set host_listeners
  build_listener_set-HasHttpListener routes l4_listeners desired host e =
      subst (Holds (http_listener hash cfg host))
        (sym (get-insert_self (listener_set_key hash cfg) _ desired.listener_sets))
        (IsIn-append_left _ _ l4_listeners (
          IsIn-append_left _ (map (http_listener hash cfg) (keys routes.hostnames)) _ (
            IsIn-map (http_listener hash cfg) host (keys routes.hostnames)
              (IsMember-IsIn routes.hostnames host e))))

  -- From no routes, every hostname of every HTTPRoute that `build_routes` wants has its HTTP listener in
  -- the ListenerSet that `build_listener_set` makes from the index of the same run.
  pub build_routes-HasHttpListener :
      (dyn_config : TraefikDynamicConfig Value) (backends : BackendIndex) (desired later : Desired)
      (l4_listeners : List Listener)
      → desired.http_routes ≡ []
      → All
          (λ b.
            All
              (HasHttpListener (
                build_listener_set hash cfg
                  (build_routes x cfg dyn_config backends desired).0
                  l4_listeners
                  later))
              (hosts_of b.1))
          (build_routes x cfg dyn_config backends desired).1.http_routes
  build_routes-HasHttpListener dyn_config backends desired later l4_listeners e =
      let r = build_routes x cfg dyn_config backends desired in
      All-map
        (λ b i.
          All-map (build_listener_set-HasHttpListener r.0 l4_listeners later) (hosts_of b.1) i)
        r.1.http_routes (build_routes-AreIndexed x cfg dyn_config backends desired e)
