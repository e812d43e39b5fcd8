-- ===== src/Transform/Backend/Emit.antt =====
-- backend.rs: the emitters. `tls` is none for plaintext, and else whether verification is skipped.
pub mod Routes
pub mod References
use pangolin_gateway_api.Prelude.{
  Bool, true, false, List, [], ◌∷◌, ◌++◌, Option, none, some, Text, codes, ◌≟◌, is_empty, map, ℤ,
  if◌then◌else◌, map_some,
}
use pangolin_gateway_api.BTreeMap.{text_ord, insert}
use pangolin_gateway_api.External.{External}
use pangolin_gateway_api.Config.{Config, BackendKind}
use pangolin_gateway_api.Kube.Meta.{owner_labels, managed_metadata}
use pangolin_gateway_api.Kube.Objects.{
  Service, EndpointSlice, Backend, BackendEndpoint, BackendTlsSettings, BackendTlsPolicy,
}
use pangolin_gateway_api.Transform.Desired.{Desired}
use pangolin_gateway_api.Transform.Naming.{prefixed_label}
use pangolin_gateway_api.Transform.Backend.Classify.{Classification, empty, ips, fqdn, cluster_dns}

pub record ResolvedBackend : Type 0 where
  pub group : Text
  pub kind : Text
  pub name : Text
  pub namespace : Option Text
  pub port : ℤ

abbrev port_name : Text
port_name = codes "default"

-- `base`, or `base-infix`.
unfoldable pub name_prefix : Text → Text → Text
name_prefix base infix_text = if is_empty infix_text then base else base ++ b'-' ∷ infix_text

unfoldable pub backend_tls_settings : Bool → Option Text → BackendTlsSettings
backend_tls_settings true sni = record {
  well_known_ca_certificates = none;
  insecure_skip_verify = some true;
  sni = none;
}
backend_tls_settings false sni = record {
  well_known_ca_certificates = some (codes "System");
  insecure_skip_verify = none;
  sni = sni;
}

-- `tls.then_some(skip_verify)`.
abbrev pub then_some : Bool → Bool → Option Bool
then_some true skip_verify = some skip_verify
then_some false skip_verify = none

module _ (x : External) (cfg : Config) (pang_name : Text) where
  open x use {IpAddr, show_ip, hash}

  unfoldable pub emit_envoy_backend :
      List BackendEndpoint
      → ℤ
      → Text
      → Option BackendTlsSettings
      → Desired
      → ResolvedBackend × Desired
  unfolding prefixed_label name_prefix managed_metadata owner_labels insert
  emit_envoy_backend endpoints port infix_text tls desired =
      let name = prefixed_label hash (name_prefix (codes "be") infix_text) pang_name in
      let backend : Backend = record {
        metadata = managed_metadata cfg name (owner_labels cfg name);
        spec = record { endpoints = endpoints; tls = tls };
      } in
      (
        record {
          group = codes "gateway.envoyproxy.io";
          kind = codes "Backend";
          name = name;
          namespace = none;
          port = port;
        },
        record desired { envoy_backends = insert name backend desired.envoy_backends },
      )

  unfoldable pub emit_backend_tls_policy : Text → Text → Text → Desired → Desired
  unfolding prefixed_label name_prefix managed_metadata owner_labels insert
  emit_backend_tls_policy infix_text target_service hostname desired =
      let name = prefixed_label hash (name_prefix (codes "btp") infix_text) pang_name in
      let policy : BackendTlsPolicy = record {
        metadata = managed_metadata cfg name (owner_labels cfg name);
        target_refs =
            record {
              group = [];
              kind = codes "Service";
              name = target_service;
              section_name = none;
            }
            ∷ [];
        validation = record {
          hostname = hostname;
          well_known_ca_certificates = some (codes "System");
        };
      } in
      record desired { backend_tls_policies = insert name policy desired.backend_tls_policies }

  unfoldable pub emit_synthesized_service :
      List IpAddr → ℤ → Text → Text → Desired → ResolvedBackend × Desired
  unfolding prefixed_label name_prefix managed_metadata owner_labels insert
  emit_synthesized_service addresses port infix_text protocol desired =
      let svc_name = prefixed_label hash (name_prefix (codes "svc") infix_text) pang_name in
      let slice_name = prefixed_label hash (name_prefix (codes "eps") infix_text) pang_name in
      let labels = owner_labels cfg svc_name in
      let service : Service = record {
        metadata = managed_metadata cfg svc_name labels;
        cluster_ip = some (codes "None");
        type = some (codes "ClusterIP");
        ports = some (
            record {
              name = some port_name;
              port = port;
              target_port = some port;
              protocol = some protocol;
            }
            ∷ []);
      } in
      let slice_labels = insert (codes "kubernetes.io/service-name") svc_name labels in
      let endpoint_slice : EndpointSlice = record {
        metadata = managed_metadata cfg slice_name slice_labels;
        address_type = codes "IPv4";
        endpoints = map (λ ip. show_ip ip ∷ []) addresses;
        ports =
            some
              (record { name = some port_name; port = some port; protocol = some protocol } ∷ []);
      } in
      (
        record {
          group = [];
          kind = codes "Service";
          name = svc_name;
          namespace = none;
          port = port;
        },
        record desired {
          services = insert svc_name service desired.services;
          endpoint_slices = insert slice_name endpoint_slice desired.endpoint_slices;
        },
      )

  -- `ips[0].to_string()`; the list is never empty here, so that indexing does not panic.
  first_ip : List IpAddr → Text
  first_ip [] = []
  first_ip (ip ∷ _) = show_ip ip

  abbrev ip_endpoint : ℤ → IpAddr → BackendEndpoint
  ip_endpoint port ip = record {
    ip = some (record { address = show_ip ip; port = port });
    fqdn = none;
  }

  -- The policy of a TLS target in `service` mode.
  with_policy : Option Bool → Text → Text → ResolvedBackend × Desired → ResolvedBackend × Desired
  unfolding emit_backend_tls_policy
  with_policy none infix_text hostname (resolved, desired) = (resolved, desired)
  with_policy (some skip_verify) infix_text hostname (resolved, desired) =
      (resolved, emit_backend_tls_policy infix_text resolved.name hostname desired)

  emit_ip_backend :
      BackendKind
      → List IpAddr
      → ℤ
      → Text
      → Text
      → Option Bool
      → Desired
      → ResolvedBackend × Desired
  unfolding with_policy first_ip emit_synthesized_service emit_envoy_backend backend_tls_settings
  emit_ip_backend BackendKind.service addresses port infix_text protocol tls desired =
      with_policy tls infix_text (first_ip addresses)
        (emit_synthesized_service addresses port infix_text protocol desired)
  emit_ip_backend BackendKind.envoy_backend addresses port infix_text protocol tls desired =
      emit_envoy_backend (map (ip_endpoint port) addresses) port infix_text
        (map_some (λ skip_verify. backend_tls_settings skip_verify none) tls) desired

  emit_fqdn_backend : Text → ℤ → Text → Option Bool → Desired → ResolvedBackend × Desired
  unfolding emit_envoy_backend backend_tls_settings
  emit_fqdn_backend hostname port infix_text tls desired =
      emit_envoy_backend
        (record { ip = none; fqdn = some (record { hostname = hostname; port = port }) } ∷ []) port
        infix_text (map_some (λ skip_verify. backend_tls_settings skip_verify (some hostname)) tls)
        desired

  -- `format!("{service}.{namespace}.svc.cluster.local")`.
  abbrev pub cluster_name : Text → Text → Text
  cluster_name service namespace = service ++ (b'.' ∷ (namespace ++ codes ".svc.cluster.local"))

  abbrev pub direct_backend : Text → Text → ℤ → ResolvedBackend
  direct_backend service namespace port = record {
    group = [];
    kind = codes "Service";
    name = service;
    namespace = some namespace;
    port = port;
  }

  -- On the mode and `tls`.
  emit_cluster_dns_backend :
      BackendKind → Option Bool → Text → Text → ℤ → Text → Desired → ResolvedBackend × Desired
  unfolding emit_fqdn_backend emit_backend_tls_policy ◌≟◌
  emit_cluster_dns_backend kind none service namespace port infix_text desired =
      (direct_backend service namespace port, desired)
  emit_cluster_dns_backend BackendKind.envoy_backend (some skip_verify) service namespace port
        infix_text desired =
      emit_fqdn_backend (cluster_name service namespace) port infix_text (some skip_verify) desired
  emit_cluster_dns_backend BackendKind.service (some skip_verify) service namespace port infix_text
        desired =
      let with_tls =
        emit_backend_tls_policy infix_text service (cluster_name service namespace) desired in
      (
        direct_backend service namespace port,
        if namespace ≟ cfg.namespace then with_tls else desired,
      )

  abbrev emitted : ResolvedBackend × Desired → Option ResolvedBackend × Desired
  emitted (resolved, desired) = (some resolved, desired)

  unfoldable pub emit_backend :
      Classification IpAddr → Text → Text → Bool → Desired → Option ResolvedBackend × Desired
  unfolding emit_ip_backend emit_fqdn_backend emit_cluster_dns_backend
  emit_backend empty infix_text protocol skip_verify desired = (none, desired)
  emit_backend (ips entries port tls) infix_text protocol skip_verify desired = emitted (
      emit_ip_backend cfg.backend_kind entries port infix_text protocol (then_some tls skip_verify)
        desired)
  emit_backend (fqdn hostname port tls) infix_text protocol skip_verify desired =
      emitted (emit_fqdn_backend hostname port infix_text (then_some tls skip_verify) desired)
  emit_backend (cluster_dns service namespace port tls) infix_text protocol skip_verify desired =
      emitted (
        emit_cluster_dns_backend cfg.backend_kind (then_some tls skip_verify) service namespace port
          infix_text desired)
