-- ===== src/Kube/Api.antt =====
-- The API server as the controller uses it (crate kube): which calls it makes, and how they end.
-- src/apply.rs: `ssa_apply`; src/gc.rs: `sweep`. Log lines are not modelled.
pub mod Laws
use pangolin_gateway_api.Prelude.{
  Bool, true, false, List, [], ◌∷◌, ◌++◌, Option, none, some, Text, if◌then◌else◌,
}
use pangolin_gateway_api.BTreeMap.{BTreeSet, text_ord, get, contains_key}
use pangolin_gateway_api.Config.{Config, managed_selector}
use pangolin_gateway_api.Kube.Meta.{ObjectMeta}
use pangolin_gateway_api.Kube.HttpRoute.{HttpRoute}
use pangolin_gateway_api.Kube.Objects.{
  ListenerSet, Service, EndpointSlice, Backend, L4Route, SecurityPolicy, BackendTlsPolicy,
}

pub data Kind : Type 0 where
  http_route listener_set service endpoint_slice envoy_backend tcp_route udp_route security_policy
        backend_tls_policy :
      Kind

-- An object to apply, of one of the kinds.
pub data Object : Type 0 where
  http_route_object : HttpRoute → Object
  listener_set_object : ListenerSet → Object
  service_object : Service → Object
  endpoint_slice_object : EndpointSlice → Object
  envoy_backend_object : Backend → Object
  tcp_route_object udp_route_object : L4Route → Object
  security_policy_object : SecurityPolicy → Object
  backend_tls_policy_object : BackendTlsPolicy → Object

abbrev pub meta : Object → ObjectMeta
meta (http_route_object o) = o.metadata
meta (listener_set_object o) = o.metadata
meta (service_object o) = o.metadata
meta (endpoint_slice_object o) = o.metadata
meta (envoy_backend_object o) = o.metadata
meta (tcp_route_object o) = o.metadata
meta (udp_route_object o) = o.metadata
meta (security_policy_object o) = o.metadata
meta (backend_tls_policy_object o) = o.metadata

-- A call that changes the cluster.
pub data Call : Type 0 where
  patch : Object → Call
  delete : Kind → Text → Call

-- What the API server answers, behind the calls made so far: whether it accepts a call, and the names
-- that a list of one kind by a label selector returns.
pub record KubeApi : Type 0 where
  pub accepts : List Call → Call → Bool
  pub items : List Call → Kind → Text → Option (List (Option Text))

module _ (api : KubeApi) (cfg : Config) where
  -- Whether it succeeds, and all calls so far.
  apply_named : Option Text → Object → List Call → Bool × List Call
  apply_named none obj calls = (false, calls)
  apply_named (some name) obj calls =
      if cfg.read_only
      then (true, calls)
      else (api.accepts calls (patch obj), calls ++ (patch obj ∷ []))

  unfoldable pub ssa_apply : Object → List Call → Bool × List Call
  unfolding apply_named
  ssa_apply obj calls = apply_named (meta obj).name obj calls

  -- One round of the loop of `sweep`; a failed deletion is only logged.
  sweep_item : Kind → BTreeSet Text → Option Text → List Call → List Call
  unfolding get
  sweep_item kind desired_names none calls = calls
  sweep_item kind desired_names (some name) calls =
      if contains_key name desired_names
      then calls
      else if cfg.read_only
      then calls
      else calls ++ (delete kind name ∷ [])

  sweep_items : Kind → BTreeSet Text → List (Option Text) → List Call → List Call
  unfolding sweep_item
  sweep_items kind desired_names [] calls = calls
  sweep_items kind desired_names (item ∷ existing) calls =
      sweep_items kind desired_names existing (sweep_item kind desired_names item calls)

  -- Whether the list succeeds is only logged by the caller.
  unfoldable pub sweep : Kind → BTreeSet Text → List Call → List Call
  unfolding sweep_items managed_selector
  sweep kind desired_names calls = elim (api.items calls kind (managed_selector cfg)) [
    | none ↦ calls
    | some existing ↦ sweep_items kind desired_names existing calls
  ]
