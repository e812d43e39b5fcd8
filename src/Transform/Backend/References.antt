-- ===== src/Transform/Backend/References.antt =====
-- backend.rs: every backend of the index is an object of the translation or a Service of the cluster.
use pangolin_gateway_api.Prelude.{
  false, List, [], ◌∷◌, Option, none, some, Text, codes, All, All-map, Bool-cases, inl, inr,
  is_empty,
}
use pangolin_gateway_api.BTreeMap.{BTreeMap, text_ord}
use pangolin_gateway_api.BTreeMap.Laws.{All-insert}
use pangolin_gateway_api.External.{External}
use pangolin_gateway_api.Config.{Config}
use pangolin_gateway_api.Pangolin.Types.{LoadBalancer, Service, L4LoadBalancer, L4Service}
use pangolin_gateway_api.Transform.Desired.{Desired}
use pangolin_gateway_api.Transform.Protocol.{L4Protocol, infix_of, k8s_protocol}
use pangolin_gateway_api.Transform.Backend.Address.{parse_url_servers}
use pangolin_gateway_api.Transform.Backend.Classify.{classify_entries}
use pangolin_gateway_api.Transform.Backend.Emit.{ResolvedBackend, emit_backend}
use pangolin_gateway_api.Transform.Backend.Emit.References.{
  IsBacked, Grows, Grows-IsBacked, Grows-trans, Grows-refl, MayEmit, emit_backend-MayEmit,
}
use pangolin_gateway_api.Transform.Backend.{
  BackendIndex, record_backend, transport_skips_verify, build_backend, build_service,
  build_services, build_backends, l4_entries, build_l4_service, build_l4_services,
  build_l4_backends,
}

-- Every backend of the index is backed.
abbrev pub AreBacked : BackendIndex × Desired → Type 0
AreBacked acc = All (λ b. IsBacked acc.1 b.1) acc.0

-- The index is backed, and nothing of before is lost.
abbrev pub Builds : Desired → BackendIndex × Desired → Type 0
Builds before acc = AreBacked acc × Grows before acc.1

module _ (x : External) (cfg : Config) where
  open x use {Value}

  record_backend-Builds :
      (name : Text) (before desired : Desired) (emitted : Option ResolvedBackend × Desired)
      (index : BackendIndex)
      → MayEmit x cfg name desired emitted
      → Builds before (index, desired)
      → Builds before (record_backend name emitted index)
  record_backend-Builds name before desired (none, after) index g (h, k) = (
    All-map (λ b. Grows-IsBacked desired after b.1 g) index h,
    Grows-trans before desired after k g,
  )
  record_backend-Builds name before desired (some b, after) index (backed, g) (h, k) = (
    All-insert (λ (q : Text × ResolvedBackend). IsBacked after q.1) name b index backed
        (All-map (λ q. Grows-IsBacked desired after q.1 g) index h),
    Grows-trans before desired after k g,
  )

  build_service-Builds :
      (name : Text) (lb : Option (LoadBalancer Value)) (transports : BTreeMap Text Value)
      (before : Desired) (acc : BackendIndex × Desired)
      → Builds before acc
      → Builds before (build_service x cfg name lb transports acc)
  unfolding build_service build_backend
  build_service-Builds name none transports before acc h = h
  build_service-Builds name (some lb) transports before (index, desired) h =
      let classification = classify_entries x (parse_url_servers x lb.servers) cfg.backend_kind in
      let skip = transport_skips_verify x lb.servers_transport transports in
      elim (Bool-cases (is_empty lb.servers)) [
        | inl e ↦ rw e h
        | inr e ↦ rw e (
            record_backend-Builds name before desired
              (emit_backend x cfg name classification [] (codes "TCP") skip desired) index
              (emit_backend-MayEmit x cfg name classification [] (codes "TCP") skip desired) h)
      ]

  build_services-Builds :
      (services : List (Text × Service Value)) (transports : BTreeMap Text Value) (before : Desired)
      (acc : BackendIndex × Desired)
      → Builds before acc
      → Builds before (build_services x cfg services transports acc)
  unfolding build_services
  build_services-Builds [] transports before acc h = h
  build_services-Builds ((name, svc) ∷ services) transports before acc h =
      build_services-Builds services transports before
        (build_service x cfg name svc.load_balancer transports acc)
        (build_service-Builds name svc.load_balancer transports before acc h)

  pub build_backends-Builds :
      (services : BTreeMap Text (Service Value)) (transports : BTreeMap Text Value)
      (desired : Desired)
      → Builds desired (build_backends x cfg services transports desired)
  unfolding build_backends
  build_backends-Builds services transports desired =
      build_services-Builds services transports desired ([], desired) (tt, Grows-refl desired)

  build_l4_service-Builds :
      (name : Text) (lb : Option L4LoadBalancer) (proto : L4Protocol) (before : Desired)
      (acc : BackendIndex × Desired)
      → Builds before acc
      → Builds before (build_l4_service x cfg name lb proto acc)
  unfolding build_l4_service
  build_l4_service-Builds name none proto before acc h = h
  build_l4_service-Builds name (some lb) proto before (index, desired) h =
      let classification = classify_entries x (l4_entries x lb.servers) cfg.backend_kind in
      let infix_text = infix_of proto in
      let protocol = k8s_protocol proto in
      elim (Bool-cases (is_empty lb.servers)) [
        | inl e ↦ rw e h
        | inr e ↦ rw e (
            record_backend-Builds name before desired
              (emit_backend x cfg name classification infix_text protocol false desired) index
              (emit_backend-MayEmit x cfg name classification infix_text protocol false desired) h)
      ]

  build_l4_services-Builds :
      (services : List (Text × L4Service Value)) (proto : L4Protocol) (before : Desired)
      (acc : BackendIndex × Desired)
      → Builds before acc
      → Builds before (build_l4_services x cfg services proto acc)
  unfolding build_l4_services
  build_l4_services-Builds [] proto before acc h = h
  build_l4_services-Builds ((name, svc) ∷ services) proto before acc h =
      build_l4_services-Builds services proto before
        (build_l4_service x cfg name svc.load_balancer proto acc)
        (build_l4_service-Builds name svc.load_balancer proto before acc h)

  pub build_l4_backends-Builds :
      (services : BTreeMap Text (L4Service Value)) (proto : L4Protocol) (desired : Desired)
      → Builds desired (build_l4_backends x cfg services proto desired)
  unfolding build_l4_backends
  build_l4_backends-Builds services proto desired =
      build_l4_services-Builds services proto desired ([], desired) (tt, Grows-refl desired)
