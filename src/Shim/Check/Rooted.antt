-- ===== src/Shim/Check/Rooted.antt =====
-- shim.rs: where a handoff sends the client.
use pangolin_gateway_api.Prelude.{
  ◌≡◌, refl, ap, ◌||◌, [], ◌∷◌, ◌++◌, Option, none, some, arith, ◌==◌, is_empty, or_value, and_then,
  map_some, Bool-cases, inl, inr, Text, codes, ◌≟◌, strip_prefix, trim_end, split_once,
}
use pangolin_gateway_api.Shim.{
  is_slash, strip_rest, strip_path_prefix, Wire, without_param, query_suffix, strip_from,
  strip_query_param,
}
use pangolin_gateway_api.Shim.Check.{
  ShimConfig, Pangolin, Request, full_path, original_path_q, host_of, scheme_of, handoff_location,
}

abbrev pub IsRooted : Text → Type 0
IsRooted t = (rest : Text) × (t ≡ b'/' ∷ rest)

-- A text that is there is rooted.
abbrev AreRooted : Option Text → Type 0
AreRooted none = Unit {0}
AreRooted (some t) = IsRooted t

strip_rest-AreRooted : (s : Text) → AreRooted (strip_rest s)
unfolding strip_rest
strip_rest-AreRooted [] = ([], refl)
strip_rest-AreRooted (c ∷ s) = elim (Bool-cases (c == b'?')) [
  | inl q ↦ elim (Bool-cases (c == b'/' || c == b'?')) [
    | inl e ↦ rw (e, q) (c ∷ s, refl)
    | inr e ↦ rw e tt
  ]
  | inr q ↦ elim (Bool-cases (c == b'/' || c == b'?')) [
    | inl e ↦ let slash : c ≡ b'/' = ground arith in rw (e, q) (s, ap (λ d. d ∷ s) slash)
    | inr e ↦ rw e tt
  ]
]

and_then-AreRooted : (o : Option Text) → AreRooted (and_then o strip_rest)
and_then-AreRooted none = tt
and_then-AreRooted (some s) = strip_rest-AreRooted s

strip_path_prefix-AreRooted :
    (prefix s : Text) → IsRooted s → AreRooted (strip_path_prefix prefix s)
unfolding strip_path_prefix
strip_path_prefix-AreRooted prefix s h = elim (Bool-cases (is_empty prefix || prefix ≟ codes "/")) [
  | inl e ↦ rw e h
  | inr e ↦ rw e (and_then-AreRooted (strip_prefix (trim_end is_slash prefix) s))
]

or_value-IsRooted :
    (o : Option Text) (t : Text) → AreRooted o → IsRooted t → IsRooted (or_value o t)
or_value-IsRooted none t h k = k
or_value-IsRooted (some s) t h k = h

IsRooted-append : (s t : Text) → IsRooted s → IsRooted (s ++ t)
IsRooted-append s t (rest, e) = (rest ++ t, ap (λ u. u ++ t) e)

module _ (w : Wire) (p : Pangolin) (cfg : ShimConfig) where
  original_path_q-IsRooted :
      (req : Request) → IsRooted (full_path w p cfg req) → IsRooted (original_path_q w p cfg req)
  unfolding original_path_q
  original_path_q-IsRooted req h =
      or_value-IsRooted (strip_path_prefix cfg.path_prefix (full_path w p cfg req)) _
        (strip_path_prefix-AreRooted cfg.path_prefix (full_path w p cfg req) h) h

  strip_query_param-IsRooted :
      (s param : Text) → IsRooted s → IsRooted (strip_query_param w s param)
  unfolding strip_query_param
  strip_query_param-IsRooted s param (rest, e) =
      rw e (unfold split_once in stripped (split_once b'?' rest))
    where
      stripped :
          (later : Option (Text × Text))
          → IsRooted (
              strip_from w
                (b'/' ∷ rest)
                param
                (map_some {B = Text × Text} (λ (q : Text × Text). (b'/' ∷ q.0, q.1)) later))
      stripped none = unfold strip_from in (rest, refl)
      stripped (some (path, query)) =
          unfold strip_from in
          (path ++ query_suffix w (without_param param (w.parse_form query)), refl)

  -- The handoff redirects to the host of the request: behind the scheme and the host there is a path,
  -- if the request has one that starts with a slash.
  pub handoff_location-IsRooted :
      (req : Request)
      → IsRooted (full_path w p cfg req)
      → (path : Text) × (handoff_location w p cfg req
          ≡ scheme_of w p cfg req ++ (codes "://" ++ (host_of w p cfg req ++ (b'/' ∷ path))))
  unfolding handoff_location
  handoff_location-IsRooted req h =
      let (path, e) =
        strip_query_param-IsRooted (original_path_q w p cfg req) cfg.resource_session_request_param
          (original_path_q-IsRooted req h) in
      (path, ap (λ t. scheme_of w p cfg req ++ (codes "://" ++ (host_of w p cfg req ++ t))) e)
