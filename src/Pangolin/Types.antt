-- ===== src/Pangolin/Types.antt =====
-- src/pangolin/types.rs: Traefik's dynamic configuration as pangolin emits it. `V` is the type of
-- JSON values. Decoding the response (serde) is not modelled.
use pangolin_gateway_api.Prelude.{Bool, List, Option, Text, ℤ}
use pangolin_gateway_api.BTreeMap.{BTreeMap}

pub record L4Server : Type 0 where
  pub address : Text

pub record L4LoadBalancer : Type 0 where
  pub servers : List L4Server

pub record L4Service (V : Type 0) : Type 0 where
  pub load_balancer : Option L4LoadBalancer
  pub weighted : Option V

pub record L4Router (V : Type 0) : Type 0 where
  pub rule : Option Text
  pub service : Text
  pub entry_points : List Text
  pub tls : Option V

pub record L4Config (V : Type 0) : Type 0 where
  pub routers : BTreeMap Text (L4Router V)
  pub services : BTreeMap Text (L4Service V)

pub record TlsDomain : Type 0 where
  pub main : Option Text
  pub sans : List Text

pub record RouterTls : Type 0 where
  pub cert_resolver : Option Text
  pub domains : List TlsDomain

pub record Router : Type 0 where
  pub rule : Text
  pub service : Text
  pub middlewares : List Text
  pub entry_points : List Text
  pub priority : Option ℤ
  pub tls : Option RouterTls

pub record LoadBalancerServer : Type 0 where
  pub url : Text

pub record LoadBalancer (V : Type 0) : Type 0 where
  pub servers : List LoadBalancerServer
  pub sticky : Option V
  pub servers_transport : Option Text
  pub pass_host_header : Option Bool

pub record Service (V : Type 0) : Type 0 where
  pub load_balancer : Option (LoadBalancer V)
  pub weighted : Option V
  pub mirroring : Option V

-- `Middleware` is transparent: one JSON value.
abbrev pub Middleware : Type 0 → Type 0
Middleware V = V

pub record HttpConfig (V : Type 0) : Type 0 where
  pub routers : BTreeMap Text Router
  pub services : BTreeMap Text (Service V)
  pub middlewares : BTreeMap Text (Middleware V)
  pub servers_transports : BTreeMap Text V

pub record TraefikDynamicConfig (V : Type 0) : Type 0 where
  pub http : HttpConfig V
  pub tcp : Option (L4Config V)
  pub udp : Option (L4Config V)
