-- ===== src/Transform/Middleware/Host.antt =====
-- middleware.rs: the Host header is rewritten, never set by a header modifier.
use pangolin_gateway_api.Prelude.{
  ◌≡◌, Bool, true, false, List, [], ◌∷◌, Option, none, some, if◌then◌else◌, Text, codes, ◌≟◌, All,
  All-append, to_lowercase, Bool-cases, Option-cases, inl, inr, map_some, and_then,
}
use pangolin_gateway_api.BTreeMap.{BTreeMap, text_ord, get}
use pangolin_gateway_api.External.{External}
use pangolin_gateway_api.Pangolin.Types.{Middleware}
use pangolin_gateway_api.Kube.HttpRoute.{HeaderSet, HttpRouteRulesFilters}
use pangolin_gateway_api.Transform.Middleware.{
  unless_empty, request_filter, response_filter, single, is_host_header, entries,
  add_request_header, request_headers, response_headers, translate_headers, translate_kind,
  translate_first, translate, translate_all, build_filters, strip_first,
}
use pangolin_gateway_api.Transform.Middleware.Merge.Effects.{request_sets_of, request_sets}
use pangolin_gateway_api.Transform.Middleware.Merge.{merge_filters-SameEffect}

abbrev pub IsNotHost : HeaderSet → Type 0
IsNotHost h = (to_lowercase h.name ≟ codes "host") ≡ false

-- A filter that sets no Host header.
abbrev SparesHost : HttpRouteRulesFilters → Type 0
SparesHost f = All IsNotHost (request_sets_of f.type f)

request_sets-SparesHost :
    (fs : List HttpRouteRulesFilters) → All SparesHost fs → All IsNotHost (request_sets fs)
request_sets-SparesHost [] h = tt
request_sets-SparesHost (f ∷ fs) (p, h) =
    All-append IsNotHost (request_sets_of f.type f) (request_sets fs) p
      (request_sets-SparesHost fs h)

request_filter-SparesHost :
    (hs : List HeaderSet) → All IsNotHost hs → All SparesHost (unless_empty request_filter hs)
request_filter-SparesHost [] h = tt
request_filter-SparesHost (g ∷ gs) h = (h, tt)

response_filter-SparesHost :
    (hs : List HeaderSet) → All SparesHost (unless_empty response_filter hs)
response_filter-SparesHost [] = tt
response_filter-SparesHost (g ∷ gs) = (tt, tt)

abbrev IsSpared : List HttpRouteRulesFilters × List HeaderSet → Type 0
IsSpared acc = All SparesHost acc.0 × All IsNotHost acc.1

module _ (x : External) where
  open x use {Value, as_str, as_object}

  add_request_header-IsSpared :
      (k : Text) (val : Option Text) (acc : List HttpRouteRulesFilters × List HeaderSet)
      → IsSpared acc
      → IsSpared (add_request_header x k val acc)
  unfolding add_request_header is_host_header
  add_request_header-IsSpared k none acc h = h
  add_request_header-IsSpared k (some val) (filters, req_set) (p, q) =
      elim (Bool-cases (to_lowercase k ≟ codes "host")) [
        | inl e ↦ rw e (All-append SparesHost filters _ p (tt, tt), q)
        | inr e ↦
            rw e (p, All-append IsNotHost req_set (record { name = k; value = val } ∷ []) q (e, tt))
      ]

  request_headers-IsSpared :
      (map : List (Text × Value)) (acc : List HttpRouteRulesFilters × List HeaderSet)
      → IsSpared acc
      → IsSpared (request_headers x map acc)
  unfolding request_headers
  request_headers-IsSpared [] acc h = h
  request_headers-IsSpared ((k, v) ∷ map) acc h =
      request_headers-IsSpared map (add_request_header x k (as_str v) acc)
        (add_request_header-IsSpared k (as_str v) acc h)

  translate_headers-SparesHost : (body : Value) → All SparesHost (translate_headers x body)
  unfolding translate_headers
  translate_headers-SparesHost body =
      let (filters, req_set) =
        request_headers x (entries x (codes "customRequestHeaders") body) ([], []) in
      let resp_set = response_headers x (entries x (codes "customResponseHeaders") body) in
      let h =
        request_headers-IsSpared (entries x (codes "customRequestHeaders") body) ([], [])
          (tt, tt) in
      All-append SparesHost filters _ h.0 (
        All-append SparesHost (unless_empty request_filter req_set) _
          (request_filter-SparesHost req_set h.1) (response_filter-SparesHost resp_set))

  single-SparesHost {ℓ} :
      {A : Type ℓ} (f : A → HttpRouteRulesFilters) (o : Option A)
      → ((a : A) → SparesHost (f a))
      → All SparesHost (single (map_some f o))
  single-SparesHost f none h = tt
  single-SparesHost f (some a) h = (h a, tt)

  strip_first-SparesHost :
      (o : Option (List Value)) → All SparesHost (single (and_then o (strip_first x)))
  unfolding strip_first
  strip_first-SparesHost none = tt
  strip_first-SparesHost (some []) = tt
  strip_first-SparesHost (some (v ∷ vs)) = (tt, tt)

  if-SparesHost :
      (b : Bool) (fs gs : List HttpRouteRulesFilters)
      → All SparesHost fs
      → All SparesHost gs
      → All SparesHost (if b then fs else gs)
  if-SparesHost true fs gs h k = h
  if-SparesHost false fs gs h k = k

  translate_kind-SparesHost :
      (kind : Text) (body : Value) → All SparesHost (translate_kind x kind body)
  unfolding translate_kind
  translate_kind-SparesHost kind body =
      if-SparesHost (kind ≟ codes "redirectScheme") _ _ (single-SparesHost _ _ (λ a. tt)) (
        if-SparesHost (kind ≟ codes "headers") _ _ (translate_headers-SparesHost body) (
          if-SparesHost (kind ≟ codes "addPrefix") _ _ (single-SparesHost _ _ (λ a. tt)) (
            if-SparesHost (kind ≟ codes "replacePath") _ _ (single-SparesHost _ _ (λ a. tt))
              (if-SparesHost (kind ≟ codes "stripPrefix") _ _ (strip_first-SparesHost _) tt))))

  translate_first-SparesHost : (obj : List (Text × Value)) → All SparesHost (translate_first x obj)
  unfolding translate_first
  translate_first-SparesHost [] = tt
  translate_first-SparesHost ((kind, body) ∷ rest) = translate_kind-SparesHost kind body

  translate-SparesHost : (mw : Middleware Value) → All SparesHost (translate x mw)
  translate-SparesHost mw = elim (Option-cases (as_object mw)) [
    | inl e ↦ unfold translate in rw (e, All) tt
    | inr (obj, e) ↦ unfold translate in rw (e, All) (translate_first-SparesHost obj)
  ]

  translate_all-SparesHost :
      (names : List Text) (middlewares : BTreeMap Text (Middleware Value))
      → All SparesHost (translate_all x names middlewares)
  unfolding translate_all
  translate_all-SparesHost [] middlewares = tt
  translate_all-SparesHost (name ∷ names) middlewares = elim (Option-cases (get name middlewares)) [
    | inl e ↦ rw (e, All) (translate_all-SparesHost names middlewares)
    | inr (mw, e) ↦
        rw (e, All)
          (All-append SparesHost (translate x mw) _ (translate-SparesHost mw)
            (translate_all-SparesHost names middlewares))
  ]

  -- No filter of a route sets a request header named Host, in whatever case: a name that is `host` in
  -- lower case is not among the request headers that the filters set.
  pub build_filters-IsNotHost :
      (names : List Text) (middlewares : BTreeMap Text (Middleware Value))
      → All IsNotHost (request_sets (build_filters x names middlewares))
  unfolding build_filters
  build_filters-IsNotHost names middlewares =
      rw (merge_filters-SameEffect (translate_all x names middlewares)).req_sets (
        request_sets-SparesHost (translate_all x names middlewares)
          (translate_all-SparesHost names middlewares))
