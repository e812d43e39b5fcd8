-- ===== src/Transform/Route/Tests.antt =====
-- route.rs and listener.rs: the theorems at concrete inputs.
use pangolin_gateway_api.Prelude.{◌≡◌, ◌≤◌, ◌↔◌, false, arith, [], ◌∷◌, ◌++◌, some, codes, length}
use pangolin_gateway_api.BTreeMap.{text_ord, get}
use pangolin_gateway_api.BTreeMap.Laws.{get-insert_self}
use pangolin_gateway_api.Kube.Meta.{owner_labels, managed_metadata_with}
use pangolin_gateway_api.Kube.Objects.{ListenerSet}
use pangolin_gateway_api.Transform.Desired.{nothing_desired}
use pangolin_gateway_api.Sample.{library, settings, router, backend}
use pangolin_gateway_api.Transform.Naming.{base_label, max_dns_label}
use pangolin_gateway_api.Transform.Naming.Label.{IsDnsLabel}
use pangolin_gateway_api.Transform.Naming.Idempotent.{HasSingleDashes}
use pangolin_gateway_api.Transform.Rule.{parse}
use pangolin_gateway_api.Transform.Route.{RouteIndex, build_http_route}
use pangolin_gateway_api.Transform.Listener.{
  listener_set_key, http_listener, host_listeners, build_listener_set,
}
use pangolin_gateway_api.Transform.Listener.Names.{
  RefersTo, build_http_route-RefersTo, http_listener_wildcard,
}

-- The hosts of one route.
abbrev index : RouteIndex
index = record { hostnames = (codes "a.com", tt) ∷ []; https_hosts = [] }

abbrev emitted : ListenerSet
emitted = record {
  metadata =
      managed_metadata_with settings (listener_set_key library.hash settings)
        (owner_labels settings (listener_set_key library.hash settings))
        settings.listenerset_annotations;
  parent_ref = record {
    group = some (codes "gateway.networking.k8s.io");
    kind = some (codes "Gateway");
    name = settings.parent_gateway;
    namespace = settings.parent_gateway_namespace;
  };
  listeners = host_listeners library.hash settings index ++ [];
}

emitted_found :
    get
      (listener_set_key library.hash settings)
      (build_listener_set library.hash settings index [] nothing_desired).listener_sets
    ≡ some emitted
unfolding build_listener_set
emitted_found = get-insert_self (listener_set_key library.hash settings) emitted []

build_http_route-RefersTo_example :
    RefersTo emitted
      (build_http_route library settings
        (codes "web")
        (parse router.rule)
        []
        backend).spec.parent_refs
    ↔ (IsDnsLabel settings.listener_set_name × HasSingleDashes false settings.listener_set_name)
build_http_route-RefersTo_example =
    build_http_route-RefersTo library settings (codes "web") (parse router.rule) [] backend index []
      nothing_desired emitted emitted_found

host_label_fits : length (base_label (codes "http-" ++ codes "a.com")) ≤ max_dns_label
unfolding base_label
host_label_fits = omega arith

http_listener_wildcard_example :
    (http_listener library.hash settings (codes "*." ++ codes "a.com")).name
    ≡ (http_listener library.hash settings (codes "a.com")).name
http_listener_wildcard_example =
    http_listener_wildcard library.hash settings (codes "a.com") host_label_fits
