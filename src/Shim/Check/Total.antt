-- ===== src/Shim/Check/Total.antt =====
-- shim.rs: the handler always returns a response.
use pangolin_gateway_api.Prelude.{
  ℕ, ◌≡◌, ◌≢◌, refl, subst, Bool, true, ◌&&◌, ◌||◌, List, [], ◌∷◌, Option, none, some, ◌==◌, leb,
  All, All-append, is_empty, or_value, and_then, map_some, Bool-cases, inl, inr, Text, codes, ◌≟◌,
  trim_end, strip_prefix, split_once,
}
use pangolin_gateway_api.BTreeMap.{text_ord, get}
use pangolin_gateway_api.Shim.{
  is_slash, strip_rest, strip_path_prefix, HeaderMap, header_str, Wire, without_param, query_suffix,
  strip_from, strip_query_param,
}
use pangolin_gateway_api.Shim.Check.{
  ShimConfig, ExchangeData, Pangolin, Request, Answer, responds, panics, exchange_session,
  full_path, original_path_q, host_of, scheme_of, request_ip_of, query_of, handoff_location,
  handoff, granted, handoff_or, exchanged, check_token, check,
}

-- The characters of a header's text: visible ASCII, the space and the tab.
abbrev pub is_visible : ℕ → Bool
is_visible c = (leb 32 c && leb c 126) || c == 9

abbrev pub IsVisible : Text → Type 0
IsVisible = All (λ c. is_visible c ≡ true)

-- A text that is there is visible.
abbrev pub IsReadable : Option Text → Type 0
IsReadable none = Unit {0}
IsReadable (some t) = IsVisible t

or_value-IsVisible :
    (o : Option Text) (t : Text) → IsReadable o → IsVisible t → IsVisible (or_value o t)
or_value-IsVisible none t h k = k
or_value-IsVisible (some a) t h k = h

header_str-IsReadable :
    (key : Text) (headers : HeaderMap)
    → All (λ h. IsReadable h.1) headers
    → IsReadable (header_str key headers)
unfolding header_str
header_str-IsReadable key [] h = tt
header_str-IsReadable key ((name, v) ∷ headers) (p, h) = elim (Bool-cases (name ≟ key)) [
  | inl e ↦ rw e p
  | inr e ↦ rw e (header_str-IsReadable key headers h)
]

strip_prefix-IsReadable : (p s : Text) → IsVisible s → IsReadable (strip_prefix p s)
unfolding strip_prefix
strip_prefix-IsReadable [] s h = h
strip_prefix-IsReadable (c ∷ p) [] h = tt
strip_prefix-IsReadable (c ∷ p) (d ∷ s) (q, h) = elim (Bool-cases (c == d)) [
  | inl e ↦ rw e (strip_prefix-IsReadable p s h)
  | inr e ↦ rw e tt
]

strip_rest-IsReadable : (s : Text) → IsVisible s → IsReadable (strip_rest s)
unfolding strip_rest
strip_rest-IsReadable [] h = (refl, tt)
strip_rest-IsReadable (c ∷ s) h = elim (Bool-cases (c == b'/' || c == b'?')) [
  | inl e ↦ elim (Bool-cases (c == b'?')) [ inl q ↦ rw (e, q) (refl, h) | inr q ↦ rw (e, q) h ]
  | inr e ↦ rw e tt
]

and_then-IsReadable : (o : Option Text) → IsReadable o → IsReadable (and_then o strip_rest)
and_then-IsReadable none h = tt
and_then-IsReadable (some s) h = strip_rest-IsReadable s h

strip_path_prefix-IsReadable :
    (prefix s : Text) → IsVisible s → IsReadable (strip_path_prefix prefix s)
unfolding strip_path_prefix
strip_path_prefix-IsReadable prefix s h =
    elim (Bool-cases (is_empty prefix || prefix ≟ codes "/")) [
      | inl e ↦ rw e h
      | inr e ↦ rw e (
          and_then-IsReadable (strip_prefix (trim_end is_slash prefix) s)
            (strip_prefix-IsReadable (trim_end is_slash prefix) s h))
    ]

-- The first part of a split is visible.
abbrev HasVisibleFront : Option (Text × Text) → Type 0
HasVisibleFront none = Unit {0}
HasVisibleFront (some (a, b)) = IsVisible a

split_once-HasVisibleFront : (sep : ℕ) (s : Text) → IsVisible s → HasVisibleFront (split_once sep s)
unfolding split_once
split_once-HasVisibleFront sep [] h = tt
split_once-HasVisibleFront sep (c ∷ s) (q, h) = elim (Bool-cases (c == sep)) [
  | inl e ↦ rw e tt
  | inr e ↦ rw e (later (split_once sep s) (split_once-HasVisibleFront sep s h))
]
  where
    later :
        (o : Option (Text × Text))
        → HasVisibleFront o
        → HasVisibleFront (map_some {B = Text × Text} (λ (r : Text × Text). (c ∷ r.0, r.1)) o)
    later none k = tt
    later (some (a, b)) k = (q, k)

module _ (w : Wire) (p : Pangolin) (cfg : ShimConfig)
    (accepts : (t : Text) → IsVisible t → w.is_header_value t ≡ true)
    (serialized : (pairs : List (Text × Text)) → IsVisible (w.serialize_form pairs)) where
  query_suffix-IsVisible : (pairs : List (Text × Text)) → IsVisible (query_suffix w pairs)
  unfolding query_suffix
  query_suffix-IsVisible [] = tt
  query_suffix-IsVisible (pair ∷ pairs) = (refl, serialized (pair ∷ pairs))

  strip_from-IsVisible :
      (s param : Text) (o : Option (Text × Text))
      → IsVisible s
      → HasVisibleFront o
      → IsVisible (strip_from w s param o)
  unfolding strip_from
  strip_from-IsVisible s param none h k = h
  strip_from-IsVisible s param (some (path, query)) h k =
      All-append (λ c. is_visible c ≡ true) path _ k
        (query_suffix-IsVisible (without_param param (w.parse_form query)))

  -- The request's texts are visible.
  pub record IsPlainRequest (req : Request) : Type 0 where
    pub path : IsVisible (full_path w p cfg req)
    pub headers : All (λ h. IsReadable h.1) req.headers

  original-IsVisible :
      (req : Request) → IsPlainRequest req → IsVisible (original_path_q w p cfg req)
  unfolding original_path_q
  original-IsVisible req h =
      or_value-IsVisible (strip_path_prefix cfg.path_prefix (full_path w p cfg req)) _
        (strip_path_prefix-IsReadable cfg.path_prefix (full_path w p cfg req) h.path) h.path

  handoff_location-IsVisible :
      (req : Request) → IsPlainRequest req → IsVisible (handoff_location w p cfg req)
  unfolding handoff_location scheme_of host_of strip_query_param
  handoff_location-IsVisible req h =
      let V = λ (c : ℕ). is_visible c ≡ true in
      let scheme =
        or_value-IsVisible (header_str (codes "x-forwarded-proto") req.headers) (codes "https")
          (header_str-IsReadable (codes "x-forwarded-proto") req.headers h.headers)
          (refl, (refl, (refl, (refl, (refl, tt))))) in
      let host =
        or_value-IsVisible (header_str (codes "host") req.headers) []
          (header_str-IsReadable (codes "host") req.headers h.headers) tt in
      let original = original_path_q w p cfg req in
      let path =
        strip_from-IsVisible original cfg.resource_session_request_param (split_once b'?' original)
          (original-IsVisible req h)
          (split_once-HasVisibleFront b'?' original (original-IsVisible req h)) in
      All-append V (scheme_of w p cfg req) _ scheme
        (refl, (refl, (refl, All-append V (host_of w p cfg req) _ host path)))

  -- No panic.
  abbrev Returns : Answer → Type 0
  Returns (responds r) = Unit {0}
  Returns panics = ⊥

  handoff_or-Returns :
      (location : Text) (cookie : Option Text) (fallback : Answer)
      → IsVisible location
      → Returns fallback
      → Returns (handoff_or w p cfg location cookie fallback)
  unfolding handoff_or handoff
  handoff_or-Returns location none fallback v h = h
  handoff_or-Returns location (some cookie) fallback v h =
      elim (Bool-cases (w.is_header_value cookie)) [
        | inl e ↦ rw (e, accepts location v) tt
        | inr e ↦ rw e tt
      ]

  exchanged-Returns :
      (location : Text) (found : Option ExchangeData) (fallback : Answer)
      → IsVisible location
      → Returns fallback
      → Returns (exchanged w p cfg location found fallback)
  unfolding exchanged
  exchanged-Returns location none fallback v h = tt
  exchanged-Returns location (some d) fallback v h =
      handoff_or-Returns location (granted w p cfg d) fallback v h

  check_token-Returns :
      (req : Request) (token : Option Text)
      → IsPlainRequest req
      → Returns (check_token w p cfg req token)
  unfolding check_token
  check_token-Returns req none h = tt
  check_token-Returns req (some token) h =
      exchanged-Returns (handoff_location w p cfg req)
        (exchange_session w p cfg token (host_of w p cfg req) (request_ip_of w p cfg req)) _
        (handoff_location-IsVisible req h) tt

  check-Returns : (req : Request) → IsPlainRequest req → Returns (check w p cfg req)
  unfolding check
  check-Returns req h = elim (Bool-cases (is_empty (host_of w p cfg req))) [
    | inl e ↦ rw e tt
    | inr e ↦
        rw e (
          check_token-Returns req (get cfg.resource_session_request_param (query_of w p cfg req)) h)
  ]

  -- The handler never panics on a request whose path and readable headers hold visible ASCII: the
  -- address of the handoff is a valid header value, given that crate http takes every such text for one
  -- and crate url writes queries in such text.
  pub check-ne-panics : (req : Request) → IsPlainRequest req → check w p cfg req ≢ panics
  check-ne-panics req h e = subst Returns e (check-Returns req h)
