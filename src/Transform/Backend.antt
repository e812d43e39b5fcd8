-- ===== src/Transform/Backend.antt =====
-- src/transform/backend.rs: pangolin services as backend references. Warnings are not modelled.
pub mod Address
pub mod Classify
pub mod Emit
pub mod Routes
pub mod References
use pangolin_gateway_api.Prelude.{
  ◌≡◌, Bool, true, false, List, [], ◌∷◌, Option, none, some, Text, codes, ◌≟◌, is_empty, map_some,
  and_then, if◌then◌else◌,
}
use pangolin_gateway_api.BTreeMap.{BTreeMap, text_ord, get, insert}
use pangolin_gateway_api.External.{External}
use pangolin_gateway_api.Config.{Config}
use pangolin_gateway_api.Pangolin.Types.{
  Service, LoadBalancer, LoadBalancerServer, L4Service, L4LoadBalancer, L4Server,
}
use pangolin_gateway_api.Transform.Desired.{Desired}
use pangolin_gateway_api.Transform.Protocol.{L4Protocol, infix_of, k8s_protocol}
use Address.{HostPort, parse_url_servers, parse_l4_address}
use Classify.{Classification, classify_entries}
use Emit.{ResolvedBackend, emit_backend}

abbrev pub BackendIndex : Type 0
BackendIndex = BTreeMap Text ResolvedBackend

-- The index and the objects, after an emission.
abbrev pub record_backend :
    Text → Option ResolvedBackend × Desired → BackendIndex → BackendIndex × Desired
record_backend pang_name (none, desired) index = (index, desired)
record_backend pang_name (some resolved, desired) index = (insert pang_name resolved index, desired)

module _ (x : External) where
  open x use {Value, as_bool, as_object}

  is_true : Option Bool → Bool
  is_true none = false
  is_true (some b) = b

  unfoldable pub transport_skips_verify : Option Text → BTreeMap Text Value → Bool
  unfolding get is_true
  transport_skips_verify transport transports = is_true (
      and_then (and_then transport (λ name. get name transports))
        (λ t. and_then (and_then (as_object t) (get (codes "insecureSkipVerify"))) as_bool))

  -- A service with a load balancer.
  build_backend :
      Config
      → Text
      → LoadBalancer Value
      → BTreeMap Text Value
      → BackendIndex × Desired
      → BackendIndex × Desired
  unfolding transport_skips_verify parse_url_servers classify_entries emit_backend insert
  build_backend cfg pang_name lb transports (index, desired) =
      let skip_verify = transport_skips_verify lb.servers_transport transports in
      let classification = classify_entries x (parse_url_servers x lb.servers) cfg.backend_kind in
      let emitted =
        emit_backend x cfg pang_name classification [] (codes "TCP") skip_verify desired in
      if is_empty lb.servers then (index, desired) else record_backend pang_name emitted index

  -- One round of the loop of `build_backends`.
  build_service :
      Config
      → Text
      → Option (LoadBalancer Value)
      → BTreeMap Text Value
      → BackendIndex × Desired
      → BackendIndex × Desired
  unfolding build_backend
  build_service cfg pang_name none transports acc = acc
  build_service cfg pang_name (some lb) transports acc =
      build_backend cfg pang_name lb transports acc

  build_services :
      Config
      → BTreeMap Text (Service Value)
      → BTreeMap Text Value
      → BackendIndex × Desired
      → BackendIndex × Desired
  unfolding build_service
  build_services cfg [] transports acc = acc
  build_services cfg ((pang_name, svc) ∷ services) transports acc =
      build_services cfg services transports
        (build_service cfg pang_name svc.load_balancer transports acc)

  unfoldable pub build_backends :
      Config
      → BTreeMap Text (Service Value)
      → BTreeMap Text Value
      → Desired
      → BackendIndex × Desired
  unfolding build_services
  build_backends cfg services transports desired =
      build_services cfg services transports ([], desired)

  -- `filter_map(parse_l4_address)`.
  l4_entries : List L4Server → List HostPort
  unfolding parse_l4_address
  l4_entries [] = []
  l4_entries (s ∷ servers) =
      let rest = l4_entries servers in
      elim (parse_l4_address s.address) [ none ↦ rest | some entry ↦ entry ∷ rest ]

  build_l4_service :
      Config
      → Text
      → Option L4LoadBalancer
      → L4Protocol
      → BackendIndex × Desired
      → BackendIndex × Desired
  unfolding l4_entries classify_entries emit_backend insert
  build_l4_service cfg pang_name none proto acc = acc
  build_l4_service cfg pang_name (some lb) proto (index, desired) =
      let classification = classify_entries x (l4_entries lb.servers) cfg.backend_kind in
      let emitted =
        emit_backend x cfg pang_name classification (infix_of proto) (k8s_protocol proto) false
          desired in
      if is_empty lb.servers then (index, desired) else record_backend pang_name emitted index

  build_l4_services :
      Config
      → BTreeMap Text (L4Service Value)
      → L4Protocol
      → BackendIndex × Desired
      → BackendIndex × Desired
  unfolding build_l4_service
  build_l4_services cfg [] proto acc = acc
  build_l4_services cfg ((pang_name, svc) ∷ services) proto acc =
      build_l4_services cfg services proto
        (build_l4_service cfg pang_name svc.load_balancer proto acc)

  unfoldable pub build_l4_backends :
      Config → BTreeMap Text (L4Service Value) → L4Protocol → Desired → BackendIndex × Desired
  unfolding build_l4_services
  build_l4_backends cfg services proto desired = build_l4_services cfg services proto ([], desired)
