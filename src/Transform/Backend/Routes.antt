-- ===== src/Transform/Backend/Routes.antt =====
-- backend.rs: building backends leaves the HTTPRoutes and their policies alone.
use pangolin_gateway_api.Prelude.{
  ◌≡◌, refl, ◌∙◌, false, List, [], ◌∷◌, Option, none, some, Text, codes, Bool-cases, inl, inr,
  is_empty,
}
use pangolin_gateway_api.External.{External}
use pangolin_gateway_api.BTreeMap.{BTreeMap}
use pangolin_gateway_api.Config.{Config}
use pangolin_gateway_api.Pangolin.Types.{Service, LoadBalancer, L4Service, L4LoadBalancer}
use pangolin_gateway_api.Transform.Desired.{Desired, routing}
use pangolin_gateway_api.Transform.Protocol.{L4Protocol, infix_of, k8s_protocol}
use pangolin_gateway_api.Transform.Backend.Address.{parse_url_servers}
use pangolin_gateway_api.Transform.Backend.Classify.{classify_entries}
use pangolin_gateway_api.Transform.Backend.Emit.{ResolvedBackend, emit_backend}
use pangolin_gateway_api.Transform.Backend.Emit.Routes.{emit_backend-routing}
use pangolin_gateway_api.Transform.Backend.{
  BackendIndex, record_backend, transport_skips_verify, build_backend, build_service,
  build_services, build_backends, l4_entries, build_l4_service, build_l4_services,
  build_l4_backends,
}

record_backend-routing :
    (name : Text) (emitted : Option ResolvedBackend × Desired) (index : BackendIndex)
    → routing (record_backend name emitted index).1 ≡ routing emitted.1
record_backend-routing name (none, desired) index = refl
record_backend-routing name (some b, desired) index = refl

module _ (x : External) (cfg : Config) where
  open x use {Value}

  build_service-routing :
      (name : Text) (lb : Option (LoadBalancer Value)) (transports : BTreeMap Text Value)
      (acc : BackendIndex × Desired)
      → routing (build_service x cfg name lb transports acc).1 ≡ routing acc.1
  unfolding build_service build_backend
  build_service-routing name none transports acc = refl
  build_service-routing name (some lb) transports (index, desired) =
      let classification = classify_entries x (parse_url_servers x lb.servers) cfg.backend_kind in
      let skip = transport_skips_verify x lb.servers_transport transports in
      elim (Bool-cases (is_empty lb.servers)) [
        | inl e ↦ rw e refl
        | inr e ↦ rw e (
            record_backend-routing name
              (emit_backend x cfg name classification [] (codes "TCP") skip desired) index
            ∙ emit_backend-routing x cfg name classification [] (codes "TCP") skip desired)
      ]

  build_services-routing :
      (services : List (Text × Service Value)) (transports : BTreeMap Text Value)
      (acc : BackendIndex × Desired)
      → routing (build_services x cfg services transports acc).1 ≡ routing acc.1
  unfolding build_services
  build_services-routing [] transports acc = refl
  build_services-routing ((name, svc) ∷ services) transports acc =
      build_services-routing services transports
        (build_service x cfg name svc.load_balancer transports acc)
      ∙ build_service-routing name svc.load_balancer transports acc

  pub build_backends-routing :
      (services : BTreeMap Text (Service Value)) (transports : BTreeMap Text Value)
      (desired : Desired)
      → routing (build_backends x cfg services transports desired).1 ≡ routing desired
  unfolding build_backends
  build_backends-routing services transports desired =
      build_services-routing services transports ([], desired)

  build_l4_service-routing :
      (name : Text) (lb : Option L4LoadBalancer) (proto : L4Protocol) (acc : BackendIndex × Desired)
      → routing (build_l4_service x cfg name lb proto acc).1 ≡ routing acc.1
  unfolding build_l4_service
  build_l4_service-routing name none proto acc = refl
  build_l4_service-routing name (some lb) proto (index, desired) =
      let classification = classify_entries x (l4_entries x lb.servers) cfg.backend_kind in
      elim (Bool-cases (is_empty lb.servers)) [
        | inl e ↦ rw e refl
        | inr e ↦ rw e (
            record_backend-routing name
              (emit_backend x cfg name classification (infix_of proto) (k8s_protocol proto) false
                desired)
              index
            ∙ emit_backend-routing x cfg name classification (infix_of proto) (k8s_protocol proto)
                false desired)
      ]

  build_l4_services-routing :
      (services : List (Text × L4Service Value)) (proto : L4Protocol) (acc : BackendIndex × Desired)
      → routing (build_l4_services x cfg services proto acc).1 ≡ routing acc.1
  unfolding build_l4_services
  build_l4_services-routing [] proto acc = refl
  build_l4_services-routing ((name, svc) ∷ services) proto acc =
      build_l4_services-routing services proto
        (build_l4_service x cfg name svc.load_balancer proto acc)
      ∙ build_l4_service-routing name svc.load_balancer proto acc

  pub build_l4_backends-routing :
      (services : BTreeMap Text (L4Service Value)) (proto : L4Protocol) (desired : Desired)
      → routing (build_l4_backends x cfg services proto desired).1 ≡ routing desired
  unfolding build_l4_backends
  build_l4_backends-routing services proto desired =
      build_l4_services-routing services proto ([], desired)
