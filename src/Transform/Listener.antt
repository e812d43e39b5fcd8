-- ===== src/Transform/Listener.antt =====
-- src/transform/listener.rs: one ListenerSet for all hosts and L4 ports.
pub mod Names
pub mod Coverage
use pangolin_gateway_api.Prelude.{
  ℕ, zero, suc, ◌-◌, Bool, true, false, ◌&&◌, List, [], ◌∷◌, ◌++◌, Option, none, some, Text, codes,
  ◌==◌, starts_with, length, is_some, map, if◌then◌else◌,
}
use pangolin_gateway_api.BTreeMap.{BTreeSet, text_ord, insert, keys}
use pangolin_gateway_api.Config.{Config}
use pangolin_gateway_api.Kube.Meta.{owner_labels, managed_metadata_with}
use pangolin_gateway_api.Kube.Objects.{ListenerSet, Listener, TlsMode}
use pangolin_gateway_api.Transform.Desired.{Desired}
use pangolin_gateway_api.Transform.Naming.{dns_label}
use pangolin_gateway_api.Transform.Route.{RouteIndex}

-- `str::replace`; the number counts the characters of a match that are still to be dropped.
replace_from : Text → Text → ℕ → Text → Text
unfolding starts_with
replace_from pattern value skip [] = []
replace_from pattern value (suc skip) (c ∷ s) = replace_from pattern value skip s
replace_from pattern value zero (c ∷ s) =
    let found = starts_with pattern (c ∷ s) in
    let rest = replace_from pattern value (if found then length pattern - 1 else 0) s in
    if found then value ++ rest else c ∷ rest

unfoldable pub replace : Text → Text → Text → Text
unfolding replace_from
replace pattern value s = replace_from pattern value 0 s

unfoldable pub render_secret_name : Text → Text → Text
unfolding replace
render_secret_name template host =
    replace (codes "{hostname-dashed}") (map (λ c. if c == b'.' then b'-' else c) host)
      (replace (codes "{hostname}") host template)

module _ (hash : Text → ℕ) (cfg : Config) where
  unfoldable pub http_listener : Text → Listener
  unfolding dns_label
  http_listener host = record {
    name = dns_label hash (codes "http-" ++ host);
    hostname = some host;
    port = cfg.http_port;
    protocol = codes "HTTP";
    tls = none;
  }

  unfoldable pub https_listener : Text → Text → Listener
  unfolding dns_label render_secret_name
  https_listener template host = record {
    name = dns_label hash (codes "https-" ++ host);
    hostname = some host;
    port = cfg.https_port;
    protocol = codes "HTTPS";
    tls = some (record {
      mode = some TlsMode.terminate;
      certificate_refs = some (
          record {
            group = some [];
            kind = some (codes "Secret");
            name = render_secret_name template host;
            namespace = cfg.tls_secret_namespace;
          }
          ∷ []);
    });
  }

  -- The HTTPS listeners, with the flag and the template that they hang on.
  https_listeners : Bool → Option Text → BTreeSet Text → List Listener
  unfolding https_listener
  https_listeners true (some template) hosts = map (https_listener template) (keys hosts)
  https_listeners _ _ hosts = []

  unfoldable pub host_listeners : RouteIndex → List Listener
  unfolding http_listener https_listeners
  host_listeners routes =
      map http_listener (keys routes.hostnames)
      ++ https_listeners cfg.enable_https_listeners cfg.tls_secret_template routes.https_hosts

  unfoldable pub listener_set_key : Text
  unfolding dns_label
  listener_set_key = dns_label hash cfg.listener_set_name

  unfoldable pub build_listener_set : RouteIndex → List Listener → Desired → Desired
  unfolding host_listeners listener_set_key owner_labels managed_metadata_with insert
  build_listener_set routes l4_listeners desired =
      let name = listener_set_key in
      let ls : ListenerSet = record {
        metadata =
            managed_metadata_with cfg name (owner_labels cfg name) cfg.listenerset_annotations;
        parent_ref = record {
          group = some (codes "gateway.networking.k8s.io");
          kind = some (codes "Gateway");
          name = cfg.parent_gateway;
          namespace = cfg.parent_gateway_namespace;
        };
        listeners = host_listeners routes ++ l4_listeners;
      } in
      record desired { listener_sets = insert name ls desired.listener_sets }
