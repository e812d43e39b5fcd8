-- ===== src/Transform/Desired.antt =====
-- src/transform/mod.rs: `Desired`, all that the controller wants to exist, by object name.
use pangolin_gateway_api.Prelude.{[], Text}
use pangolin_gateway_api.BTreeMap.{BTreeMap}
use pangolin_gateway_api.Kube.HttpRoute.{HttpRoute}
use pangolin_gateway_api.Kube.Objects.{
  ListenerSet, Service, EndpointSlice, Backend, L4Route, SecurityPolicy, BackendTlsPolicy,
}

pub record Desired : Type 0 where
  pub http_routes : BTreeMap Text HttpRoute
  pub listener_sets : BTreeMap Text ListenerSet
  pub services : BTreeMap Text Service
  pub endpoint_slices : BTreeMap Text EndpointSlice
  pub envoy_backends : BTreeMap Text Backend
  pub tcp_routes : BTreeMap Text L4Route
  pub udp_routes : BTreeMap Text L4Route
  pub security_policies : BTreeMap Text SecurityPolicy
  pub backend_tls_policies : BTreeMap Text BackendTlsPolicy

-- `Desired::default`.
abbrev pub nothing_desired : Desired
nothing_desired = record {
  http_routes = [];
  listener_sets = [];
  services = [];
  endpoint_slices = [];
  envoy_backends = [];
  tcp_routes = [];
  udp_routes = [];
  security_policies = [];
  backend_tls_policies = [];
}

-- What the translation of routers alone sets: the HTTPRoutes and their policies.
abbrev pub routing : Desired → BTreeMap Text HttpRoute × BTreeMap Text SecurityPolicy
routing desired = (desired.http_routes, desired.security_policies)

-- What the backends refer to.
abbrev pub stock : Desired → BTreeMap Text Service × BTreeMap Text Backend
stock desired = (desired.services, desired.envoy_backends)

abbrev pub Standing : Type 0
Standing =
    (BTreeMap Text HttpRoute × BTreeMap Text SecurityPolicy)
    × (BTreeMap Text Service × BTreeMap Text Backend)

-- Both.
abbrev pub standing : Desired → Standing
standing desired = (routing desired, stock desired)
