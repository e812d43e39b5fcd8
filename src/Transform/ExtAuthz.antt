-- ===== src/Transform/ExtAuthz.antt =====
-- src/transform/ext_authz.rs: the SecurityPolicy of a protected route.
use pangolin_gateway_api.Prelude.{ℕ, false, List, [], ◌∷◌, Option, none, some, Text, codes}
use pangolin_gateway_api.Config.{Config, ExtAuthzConfig}
use pangolin_gateway_api.Kube.Meta.{owner_labels, managed_metadata}
use pangolin_gateway_api.Kube.Objects.{SecurityPolicy}
use pangolin_gateway_api.Transform.Naming.{prefixed_label}

-- A list of headers, none where it is empty.
abbrev some_headers : List Text → Option (List Text)
some_headers [] = none
some_headers (h ∷ hs) = some (h ∷ hs)

unfoldable pub build_security_policy : (Text → ℕ) → Config → ExtAuthzConfig → Text → SecurityPolicy
unfolding prefixed_label managed_metadata owner_labels
build_security_policy hash cfg ea route_name =
    let name = prefixed_label hash (codes "sp") route_name in
    record {
      metadata = managed_metadata cfg name (owner_labels cfg name);
      spec = record {
        target_refs =
            record {
              group = codes "gateway.networking.k8s.io";
              kind = codes "HTTPRoute";
              name = route_name;
            }
            ∷ [];
        ext_auth = some (record {
          http = some (record {
            backend_refs =
                record { name = ea.service; namespace = ea.namespace; port = some ea.port } ∷ [];
            path = ea.path;
            headers_to_backend = some_headers ea.headers_to_backend;
          });
          headers_to_ext_auth = some_headers ea.headers_to_ext_auth;
          fail_open = some false;
        });
      };
    }
