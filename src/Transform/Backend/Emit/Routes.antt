-- ===== src/Transform/Backend/Emit/Routes.antt =====
-- backend.rs: emitting a backend leaves the HTTPRoutes and their policies alone.
use pangolin_gateway_api.Prelude.{
  ◌≡◌, refl, Bool, Option, none, some, Text, Bool-cases, inl, inr, ◌≟◌,
}
use pangolin_gateway_api.External.{External}
use pangolin_gateway_api.Config.{Config, BackendKind}
use pangolin_gateway_api.Transform.Desired.{Desired, routing}
use pangolin_gateway_api.Transform.Backend.Classify.{Classification, empty, ips, fqdn, cluster_dns}
use pangolin_gateway_api.Transform.Backend.Emit.{
  emit_backend, then_some, emit_ip_backend, emit_fqdn_backend, emit_cluster_dns_backend,
  with_policy, emit_synthesized_service, emit_envoy_backend, emit_backend_tls_policy,
}

module _ (x : External) (cfg : Config) (pang_name : Text) where
  open x use {IpAddr}

  emit_ip_backend-routing :
      (kind : BackendKind) (tls : Option Bool) (addresses : _) (port : _)
      (infix_text protocol : Text) (desired : Desired)
      → routing
          (emit_ip_backend x cfg pang_name kind addresses port infix_text protocol tls desired).1
        ≡ routing desired
  unfolding emit_ip_backend emit_synthesized_service emit_envoy_backend with_policy
      emit_backend_tls_policy
  emit_ip_backend-routing BackendKind.service none addresses port infix_text protocol desired = refl
  emit_ip_backend-routing BackendKind.service (some skip) addresses port infix_text protocol
        desired =
      refl
  emit_ip_backend-routing BackendKind.envoy_backend tls addresses port infix_text protocol desired =
      refl

  emit_cluster_dns_backend-routing :
      (kind : BackendKind) (tls : Option Bool) (service namespace : Text) (port : _)
      (infix_text : Text) (desired : Desired)
      → routing
          (emit_cluster_dns_backend x cfg pang_name kind tls service namespace port infix_text
            desired).1
        ≡ routing desired
  unfolding emit_cluster_dns_backend emit_fqdn_backend emit_envoy_backend emit_backend_tls_policy
  emit_cluster_dns_backend-routing kind none service namespace port infix_text desired = refl
  emit_cluster_dns_backend-routing BackendKind.envoy_backend (some skip) service namespace port
        infix_text desired =
      refl
  emit_cluster_dns_backend-routing BackendKind.service (some skip) service namespace port infix_text
        desired =
      elim (Bool-cases (namespace ≟ cfg.namespace)) [ inl e ↦ rw e refl | inr e ↦ rw e refl ]

  pub emit_backend-routing :
      (classification : Classification IpAddr) (infix_text protocol : Text) (skip_verify : Bool)
      (desired : Desired)
      → routing
          (emit_backend x cfg pang_name classification infix_text protocol skip_verify desired).1
        ≡ routing desired
  unfolding emit_backend
  emit_backend-routing empty infix_text protocol skip_verify desired = refl
  emit_backend-routing (ips entries port tls) infix_text protocol skip_verify desired =
      emit_ip_backend-routing cfg.backend_kind (then_some tls skip_verify) entries port infix_text
        protocol desired
  emit_backend-routing (fqdn hostname port tls) infix_text protocol skip_verify desired =
      unfold emit_fqdn_backend emit_envoy_backend in refl
  emit_backend-routing (cluster_dns service namespace port tls) infix_text protocol skip_verify
        desired =
      emit_cluster_dns_backend-routing cfg.backend_kind (then_some tls skip_verify) service
        namespace port infix_text desired
