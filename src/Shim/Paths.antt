-- ===== src/Shim/Paths.antt =====
-- shim.rs: `strip_path_prefix` on paths with and without the prefix.
use pangolin_gateway_api.Prelude.{
  ◌≡◌, ◌≢◌, ◌⊎◌, inl, inr, refl, true, false, ◌||◌, [], ◌∷◌, ◌++◌, Option, none, some, arith, ◌==◌,
  is_empty, and_then, Bool-cases, Text, codes, ◌≟◌, ≟_iff, trim_end, strip_prefix,
}
use pangolin_gateway_api.Shim.{is_slash, strip_rest, strip_path_prefix}

strip_prefix-append : (p s : Text) → strip_prefix p (p ++ s) ≡ some s
unfolding strip_prefix
strip_prefix-append [] s = refl
strip_prefix-append (c ∷ p) s =
    let e : (c == c) ≡ true = ground arith in rw e (strip_prefix-append p s)

strip_prefix_sound : (p s rest : Text) → strip_prefix p s ≡ some rest → s ≡ p ++ rest
unfolding strip_prefix
strip_prefix_sound [] s rest e = ground arith
strip_prefix_sound (c ∷ p) [] rest e = absurd (ground arith)
strip_prefix_sound (c ∷ p) (d ∷ s) rest e = elim (Bool-cases (c == d)) [
  | inl t ↦ let same : d ≡ c = ground arith in cc (same, strip_prefix_sound p s rest (rw t at e))
  | inr t ↦ absurd (ground arith)
]

-- A prefix that is not configured away.
abbrev pub IsConfigured : Text → Type 0
IsConfigured prefix = (prefix ≢ []) × (prefix ≢ codes "/")

IsConfigured-test :
    (prefix : Text) → IsConfigured prefix → (is_empty prefix || prefix ≟ codes "/") ≡ false
IsConfigured-test [] h = absurd (h.0 refl)
IsConfigured-test (c ∷ prefix) h = elim (Bool-cases ((c ∷ prefix) ≟ codes "/")) [
  | inl t ↦ absurd (h.1 ((≟_iff (c ∷ prefix) (codes "/")).0 t))
  | inr t ↦ t
]

-- What stands behind the prefix, from a slash on, is returned as it is.
strip_path_prefix-append :
    (prefix rest : Text)
    → IsConfigured prefix
    → strip_path_prefix prefix (trim_end is_slash prefix ++ (b'/' ∷ rest)) ≡ some (b'/' ∷ rest)
unfolding strip_path_prefix
strip_path_prefix-append prefix rest h =
    rw (IsConfigured-test prefix h, strip_prefix-append (trim_end is_slash prefix) (b'/' ∷ rest))
      (unfold strip_rest in refl)

-- Nothing, or a query string.
abbrev pub EndsPath : Text → Type 0
EndsPath [] = Unit {0}
EndsPath (c ∷ s) = c ≡ b'?'

-- How a path is stripped: the prefix ends at the path's end, a slash or a question mark, and the
-- result starts with a slash, which is added where it is missing.
pub record IsStripped (prefix path result : Text) : Type 0 where
  pub rest : Text
  pub behind : Text
  pub is_path : path ≡ trim_end is_slash prefix ++ rest
  pub is_rooted : result ≡ b'/' ∷ behind
  pub is_rest : (rest ≡ result) ⊎ ((rest ≡ behind) × EndsPath behind)

strip_rest_sound :
    (rest result : Text)
    → strip_rest rest ≡ some result
    → (behind : Text) × (result ≡ b'/' ∷ behind)
      × ((rest ≡ result) ⊎ ((rest ≡ behind) × EndsPath behind))
unfolding strip_rest
strip_rest_sound [] result e = ([], ground arith, inr (refl, tt))
strip_rest_sound (c ∷ s) result e = elim (Bool-cases (c == b'?')) [
  | inl t ↦ (c ∷ s, ground arith, inr (refl, ground arith))
  | inr t ↦ elim (Bool-cases (c == b'/')) [
    | inl u ↦ (s, ground arith, inl (ground arith))
    | inr u ↦ absurd (ground arith)
  ]
]

-- With a configured prefix, whatever is returned is the path behind the prefix, cut at a segment's end
-- and starting with a slash.
pub strip_path_prefix-IsStripped :
    (prefix path result : Text)
    → IsConfigured prefix
    → strip_path_prefix prefix path ≡ some result
    → IsStripped prefix path result
unfolding strip_path_prefix
strip_path_prefix-IsStripped prefix path result h e =
    go (strip_prefix (trim_end is_slash prefix) path) refl (rw (IsConfigured-test prefix h) at e)
  where
    go :
        (found : Option Text)
        → strip_prefix (trim_end is_slash prefix) path ≡ found
        → and_then found strip_rest ≡ some result
        → IsStripped prefix path result
    go none p q = absurd (ground arith)
    go (some rest) p q =
        let (behind, rooted, split) = strip_rest_sound rest result q in
        record {
          rest = rest;
          behind = behind;
          is_path = strip_prefix_sound (trim_end is_slash prefix) path rest p;
          is_rooted = rooted;
          is_rest = split;
        }
