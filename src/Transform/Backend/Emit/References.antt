-- ===== src/Transform/Backend/Emit/References.antt =====
-- backend.rs: what a resolved backend refers to.
use pangolin_gateway_api.Prelude.{
  ◌≡◌, refl, Bool, true, List, [], Option, none, some, Text, codes, ℤ, Bool-cases, inl, inr, ◌≟◌,
  ≟_iff, sym, subst,
}
use pangolin_gateway_api.BTreeMap.{BTreeMap, text_ord, contains_key, insert}
use pangolin_gateway_api.BTreeMap.Laws.{get-insert_self, get-insert_ne}
use pangolin_gateway_api.External.{External}
use pangolin_gateway_api.Config.{Config, BackendKind}
use pangolin_gateway_api.Kube.Objects.{BackendEndpoint, BackendTlsSettings, Service, Backend}
use pangolin_gateway_api.Transform.Desired.{Desired, stock}
use pangolin_gateway_api.Transform.Backend.Classify.{Classification, empty, ips, fqdn, cluster_dns}
use pangolin_gateway_api.Transform.Backend.Emit.{
  ResolvedBackend, emit_backend, then_some, emit_ip_backend, emit_fqdn_backend,
  emit_cluster_dns_backend, with_policy, emit_synthesized_service, emit_envoy_backend,
  emit_backend_tls_policy,
}

-- A backend is an object of the translation, or a Service that the cluster already has, with its
-- namespace.
pub data IsBacked (desired : Desired) (backend : ResolvedBackend) : Type 0 where
  envoy_object :
      backend.group ≡ codes "gateway.envoyproxy.io"
      → backend.kind ≡ codes "Backend"
      → backend.namespace ≡ none
      → contains_key backend.name desired.envoy_backends ≡ true
      → IsBacked desired backend
  service_object :
      backend.group ≡ []
      → backend.kind ≡ codes "Service"
      → backend.namespace ≡ none
      → contains_key backend.name desired.services ≡ true
      → IsBacked desired backend
  cluster_service :
      (namespace : Text)
      → backend.group ≡ []
      → backend.kind ≡ codes "Service"
      → backend.namespace ≡ some namespace
      → IsBacked desired backend

-- No backend object is lost.
pub record Grows (before after : Desired) : Type 0 where
  pub envoy :
      (k : Text)
      → contains_key k before.envoy_backends ≡ true
      → contains_key k after.envoy_backends ≡ true
  pub service :
      (k : Text) → contains_key k before.services ≡ true → contains_key k after.services ≡ true

pub Grows-IsBacked :
    (before after : Desired) (b : ResolvedBackend)
    → Grows before after
    → IsBacked before b
    → IsBacked after b
Grows-IsBacked before after b g (envoy_object p q r h) = envoy_object p q r (g.envoy b.name h)
Grows-IsBacked before after b g (service_object p q r h) = service_object p q r (g.service b.name h)
Grows-IsBacked before after b g (cluster_service n p q r) = cluster_service n p q r

pub Grows-trans : (a b c : Desired) → Grows a b → Grows b c → Grows a c
Grows-trans a b c g h = record {
  envoy = λ k q. h.envoy k (g.envoy k q);
  service = λ k q. h.service k (g.service k q);
}

pub Grows-refl : (a : Desired) → Grows a a
Grows-refl a = record { envoy = λ k q. q; service = λ k q. q }

pub stock-Grows : (before after : Desired) → stock after ≡ stock before → Grows before after
stock-Grows before after e = record {
  envoy = λ k.
      subst (λ (q : BTreeMap Text Service × BTreeMap Text Backend). contains_key k q.1 ≡ true)
        (sym e);
  service = λ k.
      subst (λ (q : BTreeMap Text Service × BTreeMap Text Backend). contains_key k q.0 ≡ true)
        (sym e);
}

contains-insert_self :
    {V : Type 0} (k : Text) (v : V) (m : BTreeMap Text V) → contains_key k (insert k v m) ≡ true
contains-insert_self k v m = rw (get-insert_self k v m) refl

contains-insert :
    {V : Type 0} (j k : Text) (v : V) (m : BTreeMap Text V)
    → contains_key j m ≡ true
    → contains_key j (insert k v m) ≡ true
contains-insert j k v m h = elim (Bool-cases (j ≟ k)) [
  | inl e ↦ let same : j ≡ k = (≟_iff j k).0 e in rw same (contains-insert_self k v m)
  | inr e ↦ rw (get-insert_ne k j v m (λ q. cc (e, (≟_iff j k).1 q))) h
]

-- The result's backend is there, and nothing is lost.
abbrev Emits : Desired → ResolvedBackend × Desired → Type 0
Emits before (b, after) = IsBacked after b × Grows before after

module _ (x : External) (cfg : Config) (pang_name : Text) where
  open x use {IpAddr}

  emit_envoy_backend-Emits :
      (endpoints : List BackendEndpoint) (port : ℤ) (infix_text : Text)
      (tls : Option BackendTlsSettings) (desired : Desired)
      → Emits desired (emit_envoy_backend x cfg pang_name endpoints port infix_text tls desired)
  unfolding emit_envoy_backend
  emit_envoy_backend-Emits endpoints port infix_text tls desired = (
    envoy_object refl refl refl (contains-insert_self _ _ desired.envoy_backends),
    record { envoy = λ k. contains-insert k _ _ desired.envoy_backends; service = λ k q. q },
  )

  emit_synthesized_service-Emits :
      (addresses : List IpAddr) (port : ℤ) (infix_text protocol : Text) (desired : Desired)
      → Emits desired
          (emit_synthesized_service x cfg pang_name addresses port infix_text protocol desired)
  unfolding emit_synthesized_service
  emit_synthesized_service-Emits addresses port infix_text protocol desired = (
    service_object refl refl refl (contains-insert_self _ _ desired.services),
    record { envoy = λ k q. q; service = λ k. contains-insert k _ _ desired.services },
  )

  with_policy-Emits :
      (tls : Option Bool) (infix_text hostname : Text) (before : Desired)
      (emitted : ResolvedBackend × Desired)
      → Emits before emitted
      → Emits before (with_policy x cfg pang_name tls infix_text hostname emitted)
  unfolding with_policy emit_backend_tls_policy
  with_policy-Emits none infix_text hostname before (b, after) h = h
  with_policy-Emits (some skip) infix_text hostname before (b, after) (backed, grows) = (
    Grows-IsBacked after _ b (record { envoy = λ k q. q; service = λ k q. q }) backed,
    record { envoy = grows.envoy; service = grows.service },
  )

  emit_ip_backend-Emits :
      (kind : BackendKind) (addresses : List IpAddr) (port : ℤ) (infix_text protocol : Text)
      (tls : Option Bool) (desired : Desired)
      → Emits desired
          (emit_ip_backend x cfg pang_name kind addresses port infix_text protocol tls desired)
  unfolding emit_ip_backend
  emit_ip_backend-Emits BackendKind.service addresses port infix_text protocol tls desired =
      with_policy-Emits tls infix_text _ desired
        (emit_synthesized_service x cfg pang_name addresses port infix_text protocol desired)
        (emit_synthesized_service-Emits addresses port infix_text protocol desired)
  emit_ip_backend-Emits BackendKind.envoy_backend addresses port infix_text protocol tls desired =
      emit_envoy_backend-Emits _ port infix_text _ desired

  emit_fqdn_backend-Emits :
      (hostname : Text) (port : ℤ) (infix_text : Text) (tls : Option Bool) (desired : Desired)
      → Emits desired (emit_fqdn_backend x cfg pang_name hostname port infix_text tls desired)
  unfolding emit_fqdn_backend
  emit_fqdn_backend-Emits hostname port infix_text tls desired =
      emit_envoy_backend-Emits _ port infix_text _ desired

  emit_cluster_dns_backend-Emits :
      (kind : BackendKind) (tls : Option Bool) (service namespace : Text) (port : ℤ)
      (infix_text : Text) (desired : Desired)
      → Emits desired (
          emit_cluster_dns_backend x cfg pang_name kind tls service namespace port infix_text
            desired)
  unfolding emit_cluster_dns_backend emit_backend_tls_policy
  emit_cluster_dns_backend-Emits kind none service namespace port infix_text desired =
      (cluster_service namespace refl refl refl, Grows-refl desired)
  emit_cluster_dns_backend-Emits BackendKind.envoy_backend (some skip) service namespace port
        infix_text desired =
      emit_fqdn_backend-Emits _ port infix_text (some skip) desired
  emit_cluster_dns_backend-Emits BackendKind.service (some skip) service namespace port infix_text
        desired =
      elim (Bool-cases (namespace ≟ cfg.namespace)) [
        | inl e ↦ rw e (
          cluster_service namespace refl refl refl,
          record { envoy = λ k q. q; service = λ k q. q },
        )
        | inr e ↦ rw e (cluster_service namespace refl refl refl, Grows-refl desired)
      ]

  -- The same where there may be no backend.
  abbrev pub MayEmit : Desired → Option ResolvedBackend × Desired → Type 0
  MayEmit before (none, after) = Grows before after
  MayEmit before (some b, after) = IsBacked after b × Grows before after

  pub emit_backend-MayEmit :
      (classification : Classification IpAddr) (infix_text protocol : Text) (skip_verify : Bool)
      (desired : Desired)
      → MayEmit desired
          (emit_backend x cfg pang_name classification infix_text protocol skip_verify desired)
  unfolding emit_backend
  emit_backend-MayEmit empty infix_text protocol skip_verify desired = Grows-refl desired
  emit_backend-MayEmit (ips entries port tls) infix_text protocol skip_verify desired =
      emit_ip_backend-Emits cfg.backend_kind entries port infix_text protocol
        (then_some tls skip_verify) desired
  emit_backend-MayEmit (fqdn hostname port tls) infix_text protocol skip_verify desired =
      emit_fqdn_backend-Emits hostname port infix_text (then_some tls skip_verify) desired
  emit_backend-MayEmit (cluster_dns service namespace port tls) infix_text protocol skip_verify
        desired =
      emit_cluster_dns_backend-Emits cfg.backend_kind (then_some tls skip_verify) service namespace
        port infix_text desired
