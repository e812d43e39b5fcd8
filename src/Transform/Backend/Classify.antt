-- ===== src/Transform/Backend/Classify.antt =====
-- backend.rs: `classify_entries`, the kinds of target of one pangolin service.
pub mod Targets
use pangolin_gateway_api.Prelude.{
  or_value, Bool, true, false, not, ◌||◌, ◌&&◌, List, [], ◌∷◌, ◌++◌, Option, none, some, Text,
  codes, ◌==◌, ◌≟◌, trim_end, to_lowercase, split, ℤ, pos, ◌==ℤ◌, if◌then◌else◌, is_some,
}
use pangolin_gateway_api.External.{External}
use pangolin_gateway_api.Config.{BackendKind}
use pangolin_gateway_api.Transform.Backend.Address.{HostPort}

pub data Classification (A : Type 0) : Type 0 where
  empty : Classification A
  ips : (entries : List A) (port : ℤ) (tls : Bool) → Classification A
  fqdn : (hostname : Text) (port : ℤ) (tls : Bool) → Classification A
  cluster_dns : (service namespace : Text) (port : ℤ) (tls : Bool) → Classification A

-- On the parts of the host name.
cluster_parts : List Text → Option (Text × Text)
unfolding ◌≟◌
cluster_parts (svc ∷ ns ∷ third ∷ _) = if third ≟ codes "svc" then some (svc, ns) else none
cluster_parts _ = none

unfoldable pub parse_cluster_dns : Text → Option (Text × Text)
unfolding split cluster_parts
parse_cluster_dns host = cluster_parts (split b'.' (to_lowercase (trim_end (λ c. c == b'.') host)))

-- The variables of the loop of `classify_entries`.
pub record Found (A : Type 0) : Type 0 where
  pub ip_entries : List A
  pub ip_port : Option ℤ
  pub ip_tls : Option Bool
  pub cluster : Option (Text × Text × ℤ × Bool)
  pub fqdn_target : Option (Text × ℤ × Bool)

-- `is_some_and(|p| p != port)`.
differs_port : Option ℤ → ℤ → Bool
unfolding ◌==ℤ◌
differs_port none port = false
differs_port (some p) port = not (p ==ℤ port)

differs_tls : Option Bool → Bool → Bool
differs_tls none tls = false
differs_tls (some true) tls = not tls
differs_tls (some false) tls = tls

-- `get_or_insert`.
or_insert : {A : Type 0} → Option A → A → Option A
or_insert none a = some a
or_insert (some b) a = some b

module _ {A : Type 0} where
  add_ip : A → HostPort → Found A → Found A
  unfolding differs_port differs_tls or_insert
  add_ip ip e f =
      if differs_port f.ip_port e.port || differs_tls f.ip_tls e.tls then f else record f {
        ip_port = or_insert f.ip_port e.port;
        ip_tls = or_insert f.ip_tls e.tls;
        ip_entries = f.ip_entries ++ (ip ∷ []);
      }

  add_cluster : Text × Text → HostPort → Found A → Found A
  unfolding or_insert
  add_cluster (svc, ns) e f = record f { cluster = or_insert f.cluster (svc, ns, e.port, e.tls) }

  -- A bare name is dropped in `service` mode.
  add_fqdn : BackendKind → HostPort → Found A → Found A
  unfolding or_insert
  add_fqdn BackendKind.envoy_backend e f = record f {
    fqdn_target = or_insert f.fqdn_target (e.host, e.port, e.tls);
  }
  add_fqdn BackendKind.service e f = f

  -- One round of the loop, by what the host parses as.
  add_entry : BackendKind → Option A → Option (Text × Text) → HostPort → Found A → Found A
  unfolding add_ip add_cluster add_fqdn
  add_entry kind (some ip) dns e f = add_ip ip e f
  add_entry kind none (some target) e f = add_cluster target e f
  add_entry kind none none e f = add_fqdn kind e f

  abbrev pub nothing_found : Found A
  nothing_found = record {
    ip_entries = [];
    ip_port = none;
    ip_tls = none;
    cluster = none;
    fqdn_target = none;
  }

  -- The classification behind the loop.
  pub settle_dns : Option (Text × Text × ℤ × Bool) → Option (Text × ℤ × Bool) → Classification A
  settle_dns (some (svc, ns, port, tls)) target = cluster_dns svc ns port tls
  settle_dns none (some (hostname, port, tls)) = fqdn hostname port tls
  settle_dns none none = empty

  settle : List A → Found A → Classification A
  unfolding settle_dns
  settle [] f = settle_dns f.cluster f.fqdn_target
  settle (a ∷ as') f = ips (a ∷ as') (or_value f.ip_port (pos 80)) (or_value f.ip_tls false)

module _ (x : External) where
  open x use {IpAddr, parse_ip}

  classify_loop : List HostPort → BackendKind → Found IpAddr → Found IpAddr
  unfolding add_entry parse_cluster_dns
  classify_loop [] kind f = f
  classify_loop (e ∷ entries) kind f =
      classify_loop entries kind (add_entry kind (parse_ip e.host) (parse_cluster_dns e.host) e f)

  unfoldable pub classify_entries : List HostPort → BackendKind → Classification IpAddr
  unfolding classify_loop settle
  classify_entries entries kind =
      let found = classify_loop entries kind nothing_found in settle found.ip_entries found
