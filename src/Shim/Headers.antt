-- ===== src/Shim/Headers.antt =====
-- shim.rs: the names of headers, and the headers that pangolin sees.
use pangolin_gateway_api.Prelude.{
  ◌≡◌, ◌≢◌, refl, sym, ap, ◌∙◌, true, false, List, [], ◌∷◌, Option, none, some, arith, ◌==◌, All,
  if◌then◌else◌, Bool-cases, inl, inr, map, Text, codes, ◌≟◌, ≟_iff, split, join, to_upper,
  to_lower, to_lowercase,
}
use pangolin_gateway_api.Prelude.Split.{
  AreApart, split-AreApart, split-ne-nil, join-split, split-join, map-join,
}
use pangolin_gateway_api.BTreeMap.{BTreeMap, text_ord, get}
use pangolin_gateway_api.Shim.{
  canonical_segment, canonical_header, HeaderMap, insert_first, collect_header, collect_from,
  collect_headers,
}
use pangolin_gateway_api.Shim.Query.{or_first, get-insert_first}

to_lowercase_idempotent : (s : Text) → to_lowercase (to_lowercase s) ≡ to_lowercase s
to_lowercase_idempotent [] = refl
to_lowercase_idempotent (c ∷ s) =
    let e : to_lower (to_lower c) ≡ to_lower c = ground arith in cc (e, to_lowercase_idempotent s)

canonical_segment_idempotent :
    (s : Text) → canonical_segment (canonical_segment s) ≡ canonical_segment s
canonical_segment_idempotent [] = refl
canonical_segment_idempotent (c ∷ s) =
    let e : to_upper (to_upper c) ≡ to_upper c = ground arith in cc (e, to_lowercase_idempotent s)

to_lowercase-canonical_segment : (s : Text) → to_lowercase (canonical_segment s) ≡ to_lowercase s
to_lowercase-canonical_segment [] = refl
to_lowercase-canonical_segment (c ∷ s) =
    let e : to_lower (to_upper c) ≡ to_lower c = ground arith in cc (e, to_lowercase_idempotent s)

abbrev HasNoDash : Text → Type 0
HasNoDash = All (λ c. (c == b'-') ≡ false)

to_lowercase-HasNoDash : (s : Text) → HasNoDash s → HasNoDash (to_lowercase s)
to_lowercase-HasNoDash [] h = tt
to_lowercase-HasNoDash (c ∷ s) (e, h) = (ground arith, to_lowercase-HasNoDash s h)

segments-AreApart :
    (parts : List Text) → AreApart b'-' parts → AreApart b'-' (map canonical_segment parts)
segments-AreApart [] h = tt
segments-AreApart ([] ∷ parts) (q, h) = (tt, segments-AreApart parts h)
segments-AreApart ((c ∷ s) ∷ parts) ((e, q), h) =
    ((ground arith, to_lowercase-HasNoDash s q), segments-AreApart parts h)

map_pointwise :
    (f g : Text → Text)
    → ((s : Text) → f (g s) ≡ g s)
    → (parts : List Text) → map f (map g parts) ≡ map g parts
map_pointwise f g h [] = refl
map_pointwise f g h (p ∷ parts) = cc (h p, map_pointwise f g h parts)

map-ne-nil : (parts : List Text) → parts ≢ [] → map canonical_segment parts ≢ []
map-ne-nil [] h = h
map-ne-nil (p ∷ parts) h = λ e. cc

-- The canonical form of a canonical name is the name.
canonical_header_idempotent :
    (name : Text) → canonical_header (canonical_header name) ≡ canonical_header name
unfolding canonical_header
canonical_header_idempotent name =
    let parts = map canonical_segment (split b'-' name) in
    let again : split b'-' (join b'-' parts) ≡ parts =
      split-join b'-' parts (map-ne-nil (split b'-' name) (split-ne-nil b'-' name))
        (segments-AreApart (split b'-' name) (split-AreApart b'-' name)) in
    ap (λ t. join b'-' (map canonical_segment t)) again
    ∙ ap (join b'-') (
        map_pointwise canonical_segment canonical_segment canonical_segment_idempotent
          (split b'-' name))

lower_segments :
    (parts : List Text) → map to_lowercase (map canonical_segment parts) ≡ map to_lowercase parts
lower_segments [] = refl
lower_segments (p ∷ parts) = cc (to_lowercase-canonical_segment p, lower_segments parts)

-- The canonical form of a name differs in case alone.
pub to_lowercase-canonical_header :
    (name : Text) → to_lowercase (canonical_header name) ≡ to_lowercase name
unfolding canonical_header
to_lowercase-canonical_header name =
    map-join to_lower b'-' (map canonical_segment (split b'-' name)) refl
    ∙ ap (join b'-') (lower_segments (split b'-' name))
    ∙ sym (map-join to_lower b'-' (split b'-' name) refl)
    ∙ ap to_lowercase (join-split b'-' name)

-- Header names are in lower case.
abbrev pub AreLowercase : HeaderMap → Type 0
AreLowercase = All (λ h. to_lowercase h.0 ≡ h.0)

canonical_not_cookie :
    (name : Text)
    → to_lowercase name ≡ name
    → (name ≟ codes "cookie") ≡ false
    → (canonical_header name ≟ codes "Cookie") ≡ false
canonical_not_cookie name l e = elim (Bool-cases (canonical_header name ≟ codes "Cookie")) [
  | inl t ↦
      let same : canonical_header name ≡ codes "Cookie" = (≟_iff _ (codes "Cookie")).0 t in
      let lower : name ≡ codes "cookie" =
        sym l ∙ sym (to_lowercase-canonical_header name) ∙ ap to_lowercase same in
      absurd (impossible ((≟_iff name (codes "cookie")).1 lower))
  | inr t ↦ t
]
  where
    impossible : (name ≟ codes "cookie") ≡ true → ⊥
    impossible q = cc

collect_from-cookie :
    (headers : HeaderMap) (out : BTreeMap Text Text)
    → AreLowercase headers
    → get (codes "Cookie") (collect_from headers out) ≡ get (codes "Cookie") out
unfolding collect_from collect_header
collect_from-cookie [] out h = refl
collect_from-cookie ((name, none) ∷ headers) out (l, h) = collect_from-cookie headers out h
collect_from-cookie ((name, some v) ∷ headers) out (l, h) =
    collect_from-cookie headers
      (if name ≟ codes "cookie" then out else insert_first (canonical_header name) v out) h
    ∙ elim (Bool-cases (name ≟ codes "cookie")) [
      | inl e ↦ rw e refl
      | inr e ↦ rw e (
          get-insert_first (codes "Cookie") (canonical_header name) v out
          ∙ rw (canonical_not_cookie name l e) (or_none (get (codes "Cookie") out)))
    ]
  where
    or_none : (o : Option Text) → or_first o none ≡ o
    or_none none = refl
    or_none (some a) = refl

-- The headers that pangolin sees have no Cookie header: cookies go as sessions alone.
collect_headers-cookie :
    (headers : HeaderMap)
    → AreLowercase headers
    → get (codes "Cookie") (collect_headers headers) ≡ none
unfolding collect_headers
collect_headers-cookie headers h = collect_from-cookie headers [] h ∙ (unfold get in refl)
