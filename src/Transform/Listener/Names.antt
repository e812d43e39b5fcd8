-- ===== src/Transform/Listener/Names.antt =====
-- listener.rs and route.rs: the names that the objects of one run refer to each other by.
use pangolin_gateway_api.Prelude.{
  ℕ, ◌≤◌, ◌≡◌, ◌↔◌, false, refl, sym, ap, subst, ◌∙◌, [], ◌∷◌, ◌++◌, List, Option, some, Text,
  codes, length,
}
use pangolin_gateway_api.BTreeMap.{text_ord, get}
use pangolin_gateway_api.BTreeMap.Laws.{get-insert_self}
use pangolin_gateway_api.External.{External}
use pangolin_gateway_api.Config.{Config}
use pangolin_gateway_api.Kube.Meta.{managed_metadata_with}
use pangolin_gateway_api.Kube.Objects.{Listener, ListenerSet}
use pangolin_gateway_api.Kube.HttpRoute.{HttpRouteRulesFilters, ParentRef}
use pangolin_gateway_api.Transform.Naming.{max_dns_label, dns_label, base_label}
use pangolin_gateway_api.Transform.Naming.Label.{IsDnsLabel, dns_label-IsDnsLabel}
use pangolin_gateway_api.Transform.Naming.Idempotent.{
  HasSingleDashes, dns_label_fixed, dns_label_of_fits, dns_label-HasSingleDashes,
}
use pangolin_gateway_api.Transform.Rule.{ParsedRule}
use pangolin_gateway_api.Transform.Backend.Emit.{ResolvedBackend}
use pangolin_gateway_api.Transform.Route.{RouteIndex, build_http_route}
use pangolin_gateway_api.Transform.Desired.{Desired}
use pangolin_gateway_api.Transform.Listener.{http_listener, listener_set_key, build_listener_set}

-- The references are one reference to the ListenerSet: its API group and kind, and its name and
-- namespace.
abbrev pub RefersTo : ListenerSet → Option (List ParentRef) → Type 0
RefersTo ls (some (r ∷ [])) =
    (r.group ≡ some (codes "gateway.networking.k8s.io"))
    × (r.kind ≡ some (codes "ListenerSet"))
    × (some r.name ≡ ls.metadata.name)
    × (r.namespace ≡ ls.metadata.namespace)
RefersTo ls _ = ⊥

-- A route's parent reference is to the ListenerSet that the run emits, by group, kind, namespace and
-- name, exactly when the configured name is a DNS label with no two dashes in a row: the object is
-- named by `dns_label` of the configured name, and the reference by the name itself.
pub build_http_route-RefersTo :
    (x : External) (cfg : Config) (router_name : Text) (parsed : ParsedRule)
    (filters : List HttpRouteRulesFilters) (backend : ResolvedBackend) (index : RouteIndex)
    (listeners : List Listener) (desired : Desired) (ls : ListenerSet)
    → get
        (listener_set_key x.hash cfg)
        (build_listener_set x.hash cfg index listeners desired).listener_sets
      ≡ some ls
    → RefersTo ls (build_http_route x cfg router_name parsed filters backend).spec.parent_refs
      ↔ (IsDnsLabel cfg.listener_set_name × HasSingleDashes false cfg.listener_set_name)
unfolding listener_set_key build_http_route build_listener_set managed_metadata_with
build_http_route-RefersTo x cfg router_name parsed filters backend index listeners desired ls e =
    let n = cfg.listener_set_name in
    let found = sym (get-insert_self (dns_label x.hash n) _ desired.listener_sets) ∙ e in
    let named : some (dns_label x.hash n) ≡ ls.metadata.name = cc in
    let placed : some cfg.namespace ≡ ls.metadata.namespace = cc in
    (
      (λ r.
          let same : n ≡ dns_label x.hash n = cc (r.2, named) in
          (
            subst IsDnsLabel (sym same) (dns_label-IsDnsLabel x.hash n),
            subst (HasSingleDashes false) (sym same) (dns_label-HasSingleDashes x.hash n),
          )),
      λ h. (refl, refl, ap some (sym (dns_label_fixed x.hash n h.0 h.1)) ∙ named, placed),
    )

-- The listeners of a host and of its wildcard have one name, unless the name is cut to 63 characters:
-- `*` and `.` both become dashes, and the dashes collapse.
pub http_listener_wildcard :
    (hash : Text → ℕ) (cfg : Config) (host : Text)
    → length (base_label (codes "http-" ++ host)) ≤ max_dns_label
    → (http_listener hash cfg (codes "*." ++ host)).name ≡ (http_listener hash cfg host).name
unfolding http_listener
http_listener_wildcard hash cfg host h =
    let same : base_label (codes "http-" ++ (codes "*." ++ host))
        ≡ base_label (codes "http-" ++ host) =
      unfold base_label in refl in
    dns_label_of_fits hash (codes "http-" ++ (codes "*." ++ host)) (rw same h)
    ∙ same
    ∙ sym (dns_label_of_fits hash (codes "http-" ++ host) h)
