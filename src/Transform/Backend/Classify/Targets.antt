-- ===== src/Transform/Backend/Classify/Targets.antt =====
-- backend.rs: what `classify_entries` decides, written without its loop.
use mathlib.Core.List.{append_assoc, append-nil}
use pangolin_gateway_api.Prelude.{
  ◌≡◌, ◌≢◌, refl, sym, ap, ◌∙◌, Bool, true, false, not, ◌&&◌, ◌||◌, List, [], ◌∷◌, ◌++◌, Option,
  none, some, Text, arith, Bool-cases, inl, inr, ℤ, ◌==ℤ◌, ==ℤ_iff, if◌then◌else◌,
}
use pangolin_gateway_api.External.{External}
use pangolin_gateway_api.Config.{BackendKind}
use pangolin_gateway_api.Transform.Backend.Address.{HostPort}
use pangolin_gateway_api.Transform.Backend.Classify.{
  Classification, ips, cluster_dns, fqdn, empty, parse_cluster_dns, Found, differs_port,
  differs_tls, or_insert, add_ip, add_cluster, add_fqdn, add_entry, nothing_found, settle_dns,
  settle, classify_loop, classify_entries,
}

abbrev pub same_bool : Bool → Bool → Bool
same_bool true b = b
same_bool false b = not b

abbrev or_first : {A : Type 0} → Option A → Option A → Option A
or_first none b = b
or_first (some a) b = some a

-- What one entry adds in front of the targets of the later ones, by what its host parses as.
module _ {A : Type 0} where
  abbrev pub ip_target : Option A → HostPort → Option (ℤ × Bool) → Option (ℤ × Bool)
  ip_target (some ip) e rest = some (e.port, e.tls)
  ip_target none e rest = rest

  abbrev pub pick_ip : ℤ → Bool → Option A → HostPort → List A → List A
  pick_ip port tls none e rest = rest
  pick_ip port tls (some ip) e rest =
      if (port ==ℤ e.port) && same_bool tls e.tls then ip ∷ rest else rest

  abbrev pub cluster_target :
      Option A
      → Option (Text × Text)
      → HostPort
      → Option (Text × Text × ℤ × Bool)
      → Option (Text × Text × ℤ × Bool)
  cluster_target none (some (svc, ns)) e rest = some (svc, ns, e.port, e.tls)
  cluster_target _ _ e rest = rest

  abbrev pub name_target :
      BackendKind
      → Option A
      → Option (Text × Text)
      → HostPort
      → Option (Text × ℤ × Bool)
      → Option (Text × ℤ × Bool)
  name_target BackendKind.envoy_backend none none e rest = some (e.host, e.port, e.tls)
  name_target _ _ _ e rest = rest

  add_entry-cluster :
      (kind : BackendKind) (ip : Option A) (dns : Option (Text × Text)) (e : HostPort) (f : Found A)
      (rest : Option (Text × Text × ℤ × Bool))
      → or_first (add_entry kind ip dns e f).cluster rest
        ≡ or_first f.cluster (cluster_target ip dns e rest)
  unfolding add_entry add_ip add_cluster add_fqdn or_insert
  add_entry-cluster kind (some ip) dns e f rest = ground arith
  add_entry-cluster kind none (some (svc, ns)) e f rest = ground arith
  add_entry-cluster BackendKind.service none none e f rest = refl
  add_entry-cluster BackendKind.envoy_backend none none e f rest = refl

  add_entry-fqdn_target :
      (kind : BackendKind) (ip : Option A) (dns : Option (Text × Text)) (e : HostPort) (f : Found A)
      (rest : Option (Text × ℤ × Bool))
      → or_first (add_entry kind ip dns e f).fqdn_target rest
        ≡ or_first f.fqdn_target (name_target kind ip dns e rest)
  unfolding add_entry add_ip add_cluster add_fqdn or_insert
  add_entry-fqdn_target kind (some ip) dns e f rest = ground arith
  add_entry-fqdn_target kind none (some (svc, ns)) e f rest = ground arith
  add_entry-fqdn_target BackendKind.service none none e f rest = refl
  add_entry-fqdn_target BackendKind.envoy_backend none none e f rest = ground arith

  -- The state behind the first IP address.
  record HasIps (f : Found A) (port : ℤ) (tls : Bool) : Type 0 where
    port_found : f.ip_port ≡ some port
    tls_found : f.ip_tls ≡ some tls

  differs-same :
      (f : Found A) (port : ℤ) (tls : Bool) (e : HostPort)
      → HasIps f port tls
      → (differs_port f.ip_port e.port || differs_tls f.ip_tls e.tls)
        ≡ not ((port ==ℤ e.port) && same_bool tls e.tls)
  unfolding differs_port differs_tls
  differs-same f port true e h = rw (h.port_found, h.tls_found) (ground arith)
  differs-same f port false e h = rw (h.port_found, h.tls_found) (ground arith)

  add_ip-HasIps :
      (ip : A) (e : HostPort) (f : Found A) (port : ℤ) (tls : Bool) (rest : List A)
      → HasIps f port tls
      → HasIps (add_ip ip e f) port tls
        × ((add_ip ip e f).ip_entries ++ rest ≡ f.ip_entries ++ pick_ip port tls (some ip) e rest)
  unfolding add_ip or_insert
  add_ip-HasIps ip e f port tls rest h =
      elim (Bool-cases ((port ==ℤ e.port) && same_bool tls e.tls)) [
        | inl t ↦
            rw (differs-same f port tls e h, t)
              (
                record { port_found = rw h.port_found refl; tls_found = rw h.tls_found refl },
                append_assoc f.ip_entries (ip ∷ []) rest,
              )
        | inr t ↦ rw (differs-same f port tls e h, t) (h, refl)
      ]

  add_entry-HasIps :
      (kind : BackendKind) (ip : Option A) (dns : Option (Text × Text)) (e : HostPort) (f : Found A)
      (port : ℤ) (tls : Bool) (rest : List A)
      → HasIps f port tls
      → HasIps (add_entry kind ip dns e f) port tls
        × ((add_entry kind ip dns e f).ip_entries ++ rest
            ≡ f.ip_entries ++ pick_ip port tls ip e rest)
  unfolding add_entry add_ip add_cluster add_fqdn
  add_entry-HasIps kind (some ip) dns e f port tls rest h = add_ip-HasIps ip e f port tls rest h
  add_entry-HasIps kind none (some (svc, ns)) e f port tls rest h =
      (record { port_found = h.port_found; tls_found = h.tls_found }, refl)
  add_entry-HasIps BackendKind.service none none e f port tls rest h = (h, refl)
  add_entry-HasIps BackendKind.envoy_backend none none e f port tls rest h =
      (record { port_found = h.port_found; tls_found = h.tls_found }, refl)

module _ (x : External) where
  open x use {IpAddr, parse_ip}

  -- The port and the TLS flag of the first entry whose host is an IP address.
  abbrev pub first_ip : List HostPort → Option (ℤ × Bool)
  first_ip [] = none
  first_ip (e ∷ es) = ip_target (parse_ip e.host) e (first_ip es)

  -- The addresses of the entries with the port and the TLS flag.
  abbrev pub ips_with : ℤ → Bool → List HostPort → List IpAddr
  ips_with port tls [] = []
  ips_with port tls (e ∷ es) = pick_ip port tls (parse_ip e.host) e (ips_with port tls es)

  -- The first entry that names a Service of the cluster.
  abbrev pub first_cluster : List HostPort → Option (Text × Text × ℤ × Bool)
  first_cluster [] = none
  first_cluster (e ∷ es) =
      cluster_target (parse_ip e.host) (parse_cluster_dns e.host) e (first_cluster es)

  -- The first entry with another name, which only an Envoy backend can stand for.
  abbrev pub first_name : BackendKind → List HostPort → Option (Text × ℤ × Bool)
  first_name kind [] = none
  first_name kind (e ∷ es) =
      name_target kind (parse_ip e.host) (parse_cluster_dns e.host) e (first_name kind es)

  abbrev pub settled :
      Option (ℤ × Bool)
      → (ℤ → Bool → List IpAddr)
      → Option (Text × Text × ℤ × Bool)
      → Option (Text × ℤ × Bool)
      → Classification IpAddr
  settled (some (port, tls)) picked cluster name = ips (picked port tls) port tls
  settled none picked (some (service, namespace, port, tls)) name =
      cluster_dns service namespace port tls
  settled none picked none (some (hostname, port, tls)) = fqdn hostname port tls
  settled none picked none none = empty

  -- IP addresses first, then a Service of the cluster, then a name.
  abbrev pub target_of : BackendKind → List HostPort → Classification IpAddr
  target_of kind es =
      settled (first_ip es) (λ p t. ips_with p t es) (first_cluster es) (first_name kind es)

  classify_loop-cluster :
      (es : List HostPort) (kind : BackendKind) (f : Found IpAddr)
      → (classify_loop x es kind f).cluster ≡ or_first f.cluster (first_cluster es)
  unfolding classify_loop
  classify_loop-cluster [] kind f = ground arith
  classify_loop-cluster (e ∷ es) kind f =
      classify_loop-cluster es kind
        (add_entry kind (parse_ip e.host) (parse_cluster_dns e.host) e f)
      ∙ add_entry-cluster kind (parse_ip e.host) (parse_cluster_dns e.host) e f (first_cluster es)

  classify_loop-fqdn_target :
      (es : List HostPort) (kind : BackendKind) (f : Found IpAddr)
      → (classify_loop x es kind f).fqdn_target ≡ or_first f.fqdn_target (first_name kind es)
  unfolding classify_loop
  classify_loop-fqdn_target [] kind f = ground arith
  classify_loop-fqdn_target (e ∷ es) kind f =
      classify_loop-fqdn_target es kind
        (add_entry kind (parse_ip e.host) (parse_cluster_dns e.host) e f)
      ∙ add_entry-fqdn_target kind (parse_ip e.host) (parse_cluster_dns e.host) e f
          (first_name kind es)

  classify_loop-HasIps :
      (es : List HostPort) (kind : BackendKind) (f : Found IpAddr) (port : ℤ) (tls : Bool)
      → HasIps f port tls
      → HasIps (classify_loop x es kind f) port tls
        × ((classify_loop x es kind f).ip_entries ≡ f.ip_entries ++ ips_with port tls es)
  unfolding classify_loop
  classify_loop-HasIps [] kind f port tls h = (h, sym (append-nil f.ip_entries))
  classify_loop-HasIps (e ∷ es) kind f port tls h =
      let step =
        add_entry-HasIps kind (parse_ip e.host) (parse_cluster_dns e.host) e f port tls
          (ips_with port tls es) h in
      let later = classify_loop-HasIps es kind _ port tls step.0 in (later.0, later.1 ∙ step.1)

  -- The state in front of the first IP address.
  record HasNoIps (f : Found IpAddr) : Type 0 where
    no_entries : f.ip_entries ≡ []
    no_port : f.ip_port ≡ none
    no_tls : f.ip_tls ≡ none

  -- The state behind the loop, by the port and the flag of the first IP address, and by the addresses
  -- that go with a port and a flag.
  abbrev EndsWith : Found IpAddr → Option (ℤ × Bool) → (ℤ → Bool → List IpAddr) → Type 0
  EndsWith f none picked = HasNoIps f
  EndsWith f (some (port, tls)) picked =
      HasIps f port tls × (f.ip_entries ≡ picked port tls) × (picked port tls ≢ [])

  -- In front of the first IP address, one entry.
  add_entry-EndsWith :
      (es : List HostPort) (kind : BackendKind) (ip : Option IpAddr) (dns : Option (Text × Text))
      (e : HostPort) (f : Found IpAddr)
      → HasNoIps f
      → ((g : Found IpAddr)
          → HasNoIps g
          → EndsWith (classify_loop x es kind g) (first_ip es) (λ p t. ips_with p t es))
      → EndsWith
          (classify_loop x es kind (add_entry kind ip dns e f))
          (ip_target ip e (first_ip es))
          (λ p t. pick_ip p t ip e (ips_with p t es))
  add_entry-EndsWith es kind (some ip) dns e f h ih =
      let g = add_ip ip e f in
      let start : HasIps g e.port e.tls × (g.ip_entries ≡ ip ∷ []) =
        unfold add_ip differs_port differs_tls or_insert in
        rw (h.no_port, h.no_tls, h.no_entries)
          (record { port_found = refl; tls_found = refl }, refl) in
      let (kept, added) = classify_loop-HasIps es kind g e.port e.tls start.0 in
      let own : ((e.port ==ℤ e.port) && same_bool e.tls e.tls) ≡ true =
        ground (arith, ==ℤ_iff e.port e.port) in
      unfold add_entry in
      rw own (kept, added ∙ ap (λ o. o ++ ips_with e.port e.tls es) start.1, λ q. cc)
  add_entry-EndsWith es kind none (some (svc, ns)) e f h ih =
      unfold add_entry add_cluster in
      ih _ (record { no_entries = h.no_entries; no_port = h.no_port; no_tls = h.no_tls })
  add_entry-EndsWith es BackendKind.service none none e f h ih = unfold add_entry add_fqdn in ih f h
  add_entry-EndsWith es BackendKind.envoy_backend none none e f h ih =
      unfold add_entry add_fqdn in
      ih _ (record { no_entries = h.no_entries; no_port = h.no_port; no_tls = h.no_tls })

  classify_loop-EndsWith :
      (es : List HostPort) (kind : BackendKind) (f : Found IpAddr)
      → HasNoIps f
      → EndsWith (classify_loop x es kind f) (first_ip es) (λ p t. ips_with p t es)
  unfolding classify_loop
  classify_loop-EndsWith [] kind f h = h
  classify_loop-EndsWith (e ∷ es) kind f h =
      add_entry-EndsWith es kind (parse_ip e.host) (parse_cluster_dns e.host) e f h
        (classify_loop-EndsWith es kind)

  settle_found :
      (f : Found IpAddr) (target : Option (ℤ × Bool)) (picked : ℤ → Bool → List IpAddr)
      → EndsWith f target picked
      → settle f.ip_entries f ≡ settled target picked f.cluster f.fqdn_target
  unfolding settle_dns
  settle_found f none picked h =
      rw h.no_entries (unfold settle in settle_dns_found f.cluster f.fqdn_target)
    where
      settle_dns_found :
          (cluster : Option (Text × Text × ℤ × Bool)) (name : Option (Text × ℤ × Bool))
          → settle_dns cluster name ≡ settled none picked cluster name
      settle_dns_found (some (service, namespace, port, tls)) name = refl
      settle_dns_found none (some (hostname, port, tls)) = refl
      settle_dns_found none none = refl
  settle_found f (some (port, tls)) picked (h, e, ne) =
      ap (λ l. settle l f) e ∙ go (picked port tls) ne
    where
      go : (l : List IpAddr) → l ≢ [] → settle l f ≡ ips l port tls
      go [] n = absurd (n refl)
      go (a ∷ l) n = unfold settle in rw (h.port_found, h.tls_found) refl

  -- `classify_entries` is `target_of`: the addresses that share the port and the flag of the first IP
  -- address, else the first Service of the cluster, else, for Envoy backends alone, the first other
  -- name, else nothing.
  pub classify_entries-target_of :
      (es : List HostPort) (kind : BackendKind) → classify_entries x es kind ≡ target_of kind es
  unfolding classify_entries
  classify_entries-target_of es kind =
      let found = classify_loop x es kind nothing_found in
      let blank =
        classify_loop-EndsWith es kind nothing_found
          (record { no_entries = refl; no_port = refl; no_tls = refl }) in
      let cluster = classify_loop-cluster es kind nothing_found in
      let name = classify_loop-fqdn_target es kind nothing_found in
      settle_found found (first_ip es) (λ p t. ips_with p t es) blank
      ∙ ap (λ c. settled (first_ip es) (λ p t. ips_with p t es) c found.fqdn_target) cluster
      ∙ ap (settled (first_ip es) (λ p t. ips_with p t es) (first_cluster es)) name
