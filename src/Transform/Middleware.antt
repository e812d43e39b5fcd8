-- ===== src/Transform/Middleware.antt =====
-- src/transform/middleware.rs: Traefik middlewares as HTTPRoute filters. Warnings are not modelled.
pub mod Merge
pub mod Host
mod Tests
use pangolin_gateway_api.Prelude.{
  ℕ, Bool, true, false, not, ◌&&◌, List, [], ◌∷◌, ◌++◌, Option, none, some, if◌then◌else◌, is_empty,
  any, Text, codes, ◌≟◌, to_lowercase, parse_i32, map_some, and_then,
}
use pangolin_gateway_api.BTreeMap.{BTreeMap, text_ord, get, contains_key}
use pangolin_gateway_api.External.{External}
use pangolin_gateway_api.Pangolin.Types.{Middleware}
use pangolin_gateway_api.Kube.HttpRoute.{
  FilterType, RedirectScheme, RequestRedirect, UrlRewritePathType, UrlRewritePath, UrlRewrite,
  HeaderSet, HeaderModifier, HttpRouteRulesFilters, filter_of,
}

-- The filters of one type that the code builds.
abbrev pub redirect_filter : RequestRedirect → HttpRouteRulesFilters
redirect_filter r = record (filter_of FilterType.request_redirect) { request_redirect = some r }

abbrev pub rewrite_filter : UrlRewrite → HttpRouteRulesFilters
rewrite_filter r = record (filter_of FilterType.url_rewrite) { url_rewrite = some r }

abbrev pub request_filter : List HeaderSet → HttpRouteRulesFilters
request_filter set = record (filter_of FilterType.request_header_modifier) {
  request_header_modifier = some (record { set = some set });
}

abbrev pub response_filter : List HeaderSet → HttpRouteRulesFilters
response_filter set = record (filter_of FilterType.response_header_modifier) {
  response_header_modifier = some (record { set = some set });
}

-- `if !set.is_empty() { push(filter) }`.
abbrev pub unless_empty :
    (List HeaderSet → HttpRouteRulesFilters) → List HeaderSet → List HttpRouteRulesFilters
unless_empty f [] = []
unless_empty f (h ∷ hs) = f (h ∷ hs) ∷ []

-- `Option::into_iter().collect()`.
abbrev pub single : Option HttpRouteRulesFilters → List HttpRouteRulesFilters
single none = []
single (some f) = f ∷ []

-- `a`, or `b` where there is no `a`.
abbrev pub or_else {ℓ} : {A : Type ℓ} → Option A → Option A → Option A
or_else none b = b
or_else (some a) b = some a

-- The variables of the loop of `merge_filters`.
pub record Merged : Type 0 where
  pub out : List HttpRouteRulesFilters
  pub rewrite : Option UrlRewrite
  pub req_set : List HeaderSet
  pub resp_set : List HeaderSet

-- Into the rewrite so far: a later hostname replaces, a later path does not.
merge_rewrite : Option UrlRewrite → UrlRewrite → UrlRewrite
merge_rewrite none incoming = incoming
merge_rewrite (some merged) incoming = record {
  hostname = or_else incoming.hostname merged.hostname;
  path = or_else merged.path incoming.path;
}

-- `if let Some(m) = modifier && let Some(set) = m.set`.
abbrev pub set_of : Option HeaderModifier → List HeaderSet
set_of none = []
set_of (some m) = elim m.set [ none ↦ [] | some set ↦ set ]

merge_incoming : Option UrlRewrite → Merged → Merged
unfolding merge_rewrite
merge_incoming none m = m
merge_incoming (some incoming) m = record m { rewrite = some (merge_rewrite m.rewrite incoming) }

-- One round of the loop of `merge_filters`, by the type of the filter.
merge_filter : FilterType → HttpRouteRulesFilters → Merged → Merged
unfolding merge_incoming
merge_filter FilterType.url_rewrite f m = merge_incoming f.url_rewrite m
merge_filter FilterType.request_header_modifier f m = record m {
  req_set = m.req_set ++ set_of f.request_header_modifier;
}
merge_filter FilterType.response_header_modifier f m = record m {
  resp_set = m.resp_set ++ set_of f.response_header_modifier;
}
merge_filter FilterType.request_redirect f m = record m { out = m.out ++ (f ∷ []) }

merge_loop : List HttpRouteRulesFilters → Merged → Merged
unfolding merge_filter
merge_loop [] m = m
merge_loop (f ∷ fs) m = merge_loop fs (merge_filter f.type f m)

-- The filters pushed behind the loop.
merge_finish : Merged → List HttpRouteRulesFilters
merge_finish m =
    m.out
    ++ (unless_empty request_filter m.req_set
        ++ (unless_empty response_filter m.resp_set ++ single (map_some rewrite_filter m.rewrite)))

unfoldable pub merge_filters : List HttpRouteRulesFilters → List HttpRouteRulesFilters
unfolding merge_loop merge_finish
merge_filters filters =
    merge_finish
      (merge_loop filters (record { out = []; rewrite = none; req_set = []; resp_set = [] }))

-- `k.eq_ignore_ascii_case("host")`.
unfoldable pub is_host_header : Text → Bool
unfolding ◌≟◌
is_host_header k = to_lowercase k ≟ codes "host"

module _ (x : External) where
  open x use {Value, as_object, as_array, as_str}

  -- `Value::get` at a key.
  abbrev field : Text → Value → Option Value
  field key v = and_then (as_object v) (get key)

  -- A field that is a string.
  abbrev str_field : Text → Value → Option Text
  str_field key v = and_then (field key v) as_str

  unfoldable pub is_badger : Middleware Value → Bool
  unfolding get
  is_badger mw = elim (and_then (field (codes "plugin") mw) as_object) [
    | none ↦ false
    | some plugin ↦ contains_key (codes "badger") plugin
  ]

  -- The closure of `requires_badger_auth`, on what the lookup of the middleware returned.
  protects : Text → Option (Middleware Value) → Bool
  unfolding is_badger ◌≟◌
  protects name none = name ≟ codes "badger"
  protects name (some mw) = is_badger mw

  unfoldable pub requires_badger_auth : List Text → BTreeMap Text (Middleware Value) → Bool
  unfolding protects
  requires_badger_auth middleware_names middlewares =
      any (λ name. protects name (get name middlewares)) middleware_names

  redirect_scheme : Text → Option RedirectScheme
  unfolding ◌≟◌
  redirect_scheme scheme =
      if scheme ≟ codes "http"
      then some RedirectScheme.http
      else if scheme ≟ codes "https"
      then some RedirectScheme.https
      else none

  translate_redirect_scheme : Value → Option HttpRouteRulesFilters
  unfolding redirect_scheme get parse_i32
  translate_redirect_scheme body =
      map_some
        (λ scheme. redirect_filter (record {
          scheme = some scheme;
          port = and_then (str_field (codes "port") body) parse_i32;
          status_code = none;
        }))
        (and_then (str_field (codes "scheme") body) redirect_scheme)

  -- The entries of an object field, none where the field is missing or is no object.
  entries : Text → Value → List (Text × Value)
  unfolding get
  entries key body = elim (and_then (field key body) as_object) [ none ↦ [] | some map ↦ map ]

  -- The filters and the request headers that the loop over `customRequestHeaders` collects.
  add_request_header :
      Text
      → Option Text
      → List HttpRouteRulesFilters × List HeaderSet
      → List HttpRouteRulesFilters × List HeaderSet
  unfolding is_host_header
  add_request_header k none acc = acc
  add_request_header k (some val) (filters, req_set) =
      if is_host_header k
      then (filters ++ (rewrite_filter (record { hostname = some val; path = none }) ∷ []), req_set)
      else (filters, req_set ++ (record { name = k; value = val } ∷ []))

  request_headers :
      List (Text × Value)
      → List HttpRouteRulesFilters × List HeaderSet
      → List HttpRouteRulesFilters × List HeaderSet
  unfolding add_request_header
  request_headers [] acc = acc
  request_headers ((k, v) ∷ map) acc = request_headers map (add_request_header k (as_str v) acc)

  -- The loop over `customResponseHeaders`.
  response_headers : List (Text × Value) → List HeaderSet
  response_headers [] = []
  response_headers ((k, v) ∷ map) =
      let rest = response_headers map in
      elim (as_str v) [ none ↦ rest | some val ↦ record { name = k; value = val } ∷ rest ]

  translate_headers : Value → List HttpRouteRulesFilters
  unfolding entries request_headers response_headers
  translate_headers body =
      let (filters, req_set) =
        request_headers (entries (codes "customRequestHeaders") body) ([], []) in
      let resp_set = response_headers (entries (codes "customResponseHeaders") body) in
      filters ++ (unless_empty request_filter req_set ++ unless_empty response_filter resp_set)

  abbrev prefix_rewrite : Text → HttpRouteRulesFilters
  prefix_rewrite replacement = rewrite_filter (record {
    hostname = none;
    path = some (record {
      type = UrlRewritePathType.replace_prefix_match;
      replace_prefix_match = some replacement;
      replace_full_path = none;
    });
  })

  translate_add_prefix : Value → Option HttpRouteRulesFilters
  unfolding get
  translate_add_prefix body = map_some prefix_rewrite (str_field (codes "prefix") body)

  translate_replace_path : Value → Option HttpRouteRulesFilters
  unfolding get
  translate_replace_path body =
      map_some
        (λ path. rewrite_filter (record {
          hostname = none;
          path = some (record {
            type = UrlRewritePathType.replace_full_path;
            replace_full_path = some path;
            replace_prefix_match = none;
          });
        }))
        (str_field (codes "path") body)

  -- On the array of prefixes.
  strip_first : List Value → Option HttpRouteRulesFilters
  strip_first [] = none
  strip_first (_ ∷ _) = some (prefix_rewrite [])

  translate_strip_prefix : Value → Option HttpRouteRulesFilters
  unfolding get strip_first
  translate_strip_prefix body =
      and_then (and_then (field (codes "prefixes") body) as_array) strip_first

  -- On the first entry of the middleware's object.
  translate_kind : Text → Value → List HttpRouteRulesFilters
  unfolding translate_redirect_scheme translate_headers translate_add_prefix translate_replace_path
      translate_strip_prefix ◌≟◌
  translate_kind kind body =
      if kind ≟ codes "redirectScheme"
      then single (translate_redirect_scheme body)
      else if kind ≟ codes "headers"
      then translate_headers body
      else if kind ≟ codes "addPrefix"
      then single (translate_add_prefix body)
      else if kind ≟ codes "replacePath"
      then single (translate_replace_path body)
      else if kind ≟ codes "stripPrefix"
      then single (translate_strip_prefix body)
      else []

  translate_first : List (Text × Value) → List HttpRouteRulesFilters
  unfolding translate_kind
  translate_first [] = []
  translate_first ((kind, body) ∷ _) = translate_kind kind body

  translate : Middleware Value → List HttpRouteRulesFilters
  unfolding translate_first
  translate mw = elim (as_object mw) [ none ↦ [] | some obj ↦ translate_first obj ]

  -- The loop of `build_filters`; a missing middleware is skipped.
  translate_all : List Text → BTreeMap Text (Middleware Value) → List HttpRouteRulesFilters
  unfolding translate get
  translate_all [] middlewares = []
  translate_all (name ∷ names) middlewares =
      let rest = translate_all names middlewares in
      elim (get name middlewares) [ none ↦ rest | some mw ↦ translate mw ++ rest ]

  unfoldable pub build_filters :
      List Text → BTreeMap Text (Middleware Value) → List HttpRouteRulesFilters
  unfolding translate_all merge_filters
  build_filters middleware_names middlewares =
      merge_filters (translate_all middleware_names middlewares)
