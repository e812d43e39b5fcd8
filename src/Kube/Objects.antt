-- ===== src/Kube/Objects.antt =====
-- The other objects: listeners, TCP and UDP routes, services, and Envoy Gateway's own resources
-- (src/envoy_gateway.rs).
use pangolin_gateway_api.Prelude.{Bool, List, Option, Text, ℤ}
use pangolin_gateway_api.Kube.Meta.{ObjectMeta}
use pangolin_gateway_api.Kube.HttpRoute.{BackendRef, ParentRef}

pub record CertificateRef : Type 0 where
  pub group : Option Text
  pub kind : Option Text
  pub name : Text
  pub namespace : Option Text

pub data TlsMode : Type 0 where
  terminate : TlsMode

pub record ListenerTls : Type 0 where
  pub mode : Option TlsMode
  pub certificate_refs : Option (List CertificateRef)

pub record Listener : Type 0 where
  pub name : Text
  pub hostname : Option Text
  pub port : ℤ
  pub protocol : Text
  pub tls : Option ListenerTls

pub record ListenerSetParentRef : Type 0 where
  pub group : Option Text
  pub kind : Option Text
  pub name : Text
  pub namespace : Option Text

pub record ListenerSet : Type 0 where
  pub metadata : ObjectMeta
  pub parent_ref : ListenerSetParentRef
  pub listeners : List Listener

-- `TCPRoute` and `UDPRoute` have one shape: parents, and the backends of their rules.
pub record L4Route : Type 0 where
  pub metadata : ObjectMeta
  pub parent_refs : Option (List ParentRef)
  pub rules : List (List BackendRef)

pub record ServicePort : Type 0 where
  pub name : Option Text
  pub port : ℤ
  pub target_port : Option ℤ
  pub protocol : Option Text

pub record Service : Type 0 where
  pub metadata : ObjectMeta
  pub cluster_ip : Option Text
  pub type : Option Text
  pub ports : Option (List ServicePort)

pub record EndpointPort : Type 0 where
  pub name : Option Text
  pub port : Option ℤ
  pub protocol : Option Text

pub record EndpointSlice : Type 0 where
  pub metadata : ObjectMeta
  pub address_type : Text
  pub endpoints : List (List Text)
  pub ports : Option (List EndpointPort)

pub record BackendTlsSettings : Type 0 where
  pub well_known_ca_certificates : Option Text
  pub insecure_skip_verify : Option Bool
  pub sni : Option Text

pub record BackendIp : Type 0 where
  pub address : Text
  pub port : ℤ

pub record BackendFqdn : Type 0 where
  pub hostname : Text
  pub port : ℤ

pub record BackendEndpoint : Type 0 where
  pub ip : Option BackendIp
  pub fqdn : Option BackendFqdn

pub record BackendSpec : Type 0 where
  pub endpoints : List BackendEndpoint
  pub tls : Option BackendTlsSettings

pub record Backend : Type 0 where
  pub metadata : ObjectMeta
  pub spec : BackendSpec

pub record PolicyTargetRef : Type 0 where
  pub group : Text
  pub kind : Text
  pub name : Text

pub record ExtAuthBackendRef : Type 0 where
  pub name : Text
  pub namespace : Option Text
  pub port : Option ℤ

pub record HttpExtAuthService : Type 0 where
  pub backend_refs : List ExtAuthBackendRef
  pub path : Option Text
  pub headers_to_backend : Option (List Text)

pub record ExtAuth : Type 0 where
  pub http : Option HttpExtAuthService
  pub headers_to_ext_auth : Option (List Text)
  pub fail_open : Option Bool

pub record SecurityPolicySpec : Type 0 where
  pub target_refs : List PolicyTargetRef
  pub ext_auth : Option ExtAuth

pub record SecurityPolicy : Type 0 where
  pub metadata : ObjectMeta
  pub spec : SecurityPolicySpec

pub record BackendTlsPolicyTargetRef : Type 0 where
  pub group : Text
  pub kind : Text
  pub name : Text
  pub section_name : Option Text

pub record BackendTlsPolicyValidation : Type 0 where
  pub hostname : Text
  pub well_known_ca_certificates : Option Text

pub record BackendTlsPolicy : Type 0 where
  pub metadata : ObjectMeta
  pub target_refs : List BackendTlsPolicyTargetRef
  pub validation : BackendTlsPolicyValidation
